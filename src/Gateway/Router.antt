-- ===== src/Gateway/Router.antt =====
-- services/gateway/internal/router/router.go: the routes of the gateway, each either public or
-- behind the check of the access token. A backend is named; what it answers is its own. The
-- routes for `/live`, `/ready` and `/openapi.yaml`, which reach no backend, are left out.
pub mod Protected
use finora.Base.{
  ◌≡◌, Bool, true, false, ◌||◌, ◌&&◌, List, [], ◌∷◌, Option, none, some, Text, str, if◌then◌else◌,
}
use finora.Golang.Text.{text_eq}
use finora.Golang.Time.{Time}
use finora.Jwt.{JwtLibrary}
use finora.Gateway.Proxy.{Route, resolve}
use finora.Gateway.Auth.{
  Request, Next, Reply, fail, answered, passed, require_access_token, stamp_request_id,
}

-- `Backends`
pub data Backend : Type 0 where
  user_backend expense_backend budget_backend notification_backend : Backend

-- What becomes of a request for the API.
pub data Outgoing : Type 0 where
  reply : Reply → Outgoing
  forward : Backend → Request → Outgoing

abbrev pub table : List (Route Backend)
table =
    record { prefix = str "/api/v1/auth/logout"; proxy = user_backend }
    ∷ record { prefix = str "/api/v1/users/me"; proxy = user_backend }
    ∷ record { prefix = str "/api/v1/accounts"; proxy = expense_backend }
    ∷ record { prefix = str "/api/v1/transactions"; proxy = expense_backend }
    ∷ record { prefix = str "/api/v1/categories"; proxy = expense_backend }
    ∷ record { prefix = str "/api/v1/budgets"; proxy = budget_backend }
    ∷ record { prefix = str "/api/v1/goals"; proxy = budget_backend }
    ∷ record { prefix = str "/api/v1/reports"; proxy = budget_backend }
    ∷ record { prefix = str "/api/v1/notifications"; proxy = notification_backend }
    ∷ []

-- The routes for `POST` that need no token.
unfoldable pub is_public : Text → Text → Bool
is_public method path =
    text_eq method (str "POST")
    && (text_eq path (str "/api/v1/auth/register")
        || text_eq path (str "/api/v1/auth/login")
        || text_eq path (str "/api/v1/auth/refresh")
        || text_eq path (str "/api/v1/auth/password-reset"))

-- The last handler of the protected routes.
unfoldable pub to_backend : Request → Outgoing
to_backend req = elim (resolve table req.path) [
  | none ↦ reply (fail 404 (str "NOT_FOUND") (str "no route matches this path"))
  | some backend ↦ forward backend (stamp_request_id req)
]

module _ (jwt : JwtLibrary) (secret : Text) (now : Time) where
  unfoldable pub route : Text → Request → Outgoing
  unfolding to_backend
  route method req =
      if is_public method req.path
      then forward user_backend (stamp_request_id req)
      else elim (require_access_token jwt secret now req) [
        | answered r ↦ reply r
        | passed req' ↦ to_backend req'
      ]
