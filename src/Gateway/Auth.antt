-- ===== src/Gateway/Auth.antt =====
-- services/gateway/internal/authmw/authmw.go: the check of the access token. A request is its
-- headers, and what the middleware does is an answer, or the request that is passed on.
pub mod Identity
use finora.Base.{
  ◌≡◌, Bool, ◌||◌, not, List, [], ◌∷◌, Option, none, some, Text, str, Result, ok, err, select,
  find_first, if◌then◌else◌,
}
use finora.Golang.Text.{text_eq, is_empty, has_prefix, trim_prefix}
use finora.Golang.Time.{Time}
use finora.Http.{Header, get_header, set_header}
use finora.Http.Middleware.{user_id_header, request_id_header}
use finora.Jwt.{JwtLibrary, Claims, parse, type_access}

abbrev pub authorization_header : Text
authorization_header = str "Authorization"

abbrev pub bearer_prefix : Text
bearer_prefix = str "Bearer "

pub record Request : Type 0 where
  pub path : Text
  pub headers : List Header
  -- `request_id` in the context, empty if it is not set
  pub request_id : Text

pub data Reply : Type 0 where
  -- a status, an error code and a message
  fail : Prim.Native.Nat.ℕ → Text → Text → Reply

-- What a middleware leaves: an answer and no more, or a request for the next handler.
pub data Next : Type 0 where
  answered : Reply → Next
  passed : Request → Next

abbrev pub unauthorized : Text → Next
unauthorized message = answered (fail 401 (str "UNAUTHORIZED") message)

-- The request identifier is stamped on the request that goes out, by this middleware and by the
-- proxy's handler.
unfoldable pub stamp_request_id : Request → Request
stamp_request_id req =
    if is_empty req.request_id
    then req
    else record req { headers = set_header request_id_header req.request_id req.headers }

module _ (jwt : JwtLibrary) (secret : Text) (now : Time) where
  -- What follows the check of the header.
  unfoldable pub with_token : Text → Request → Next
  unfolding stamp_request_id
  with_token token req =
      if is_empty token
      then unauthorized (str "missing or malformed authorization header")
      else elim (parse jwt secret token type_access now) [
        | err e ↦ unauthorized (str "invalid or expired token")
        | ok claims ↦ passed (
            stamp_request_id
              (record req { headers = set_header user_id_header claims.user_id req.headers }))
      ]

  unfoldable pub require_access_token : Request → Next
  unfolding with_token
  require_access_token req =
      let header = get_header authorization_header req.headers in
      if is_empty header || not (has_prefix header bearer_prefix)
      then unauthorized (str "missing or malformed authorization header")
      else with_token (trim_prefix header bearer_prefix) req
