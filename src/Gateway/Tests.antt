-- ===== src/Gateway/Tests.antt =====
-- The theorems on the gateway, applied to requests.
mod Received
use finora.Base.{
  ◌≡◌, refl, Bool, true, false, List, [], ◌∷◌, ◌++◌, All, Option, none, some, Text, str, Result, ok,
  err,
}
use mathlib.Core.List.{Memᴰ}
use finora.Golang.Text.{text_eq, has_prefix}
use finora.Jwt.{JwtLibrary, Claims, parse, type_access}
use finora.Gateway.Proxy.{Route, resolve}
use finora.Gateway.Proxy.Longest.{IsLongest, resolve-IsLongest, resolve-none}
use finora.Http.{Header, get_header}
use finora.Http.Middleware.{user_id_header}
use finora.Gateway.Auth.{Request, bearer_prefix, authorization_header, require_access_token}
use finora.Gateway.Auth.Identity.{SpeaksFor, require_access_token-passed}
use finora.Gateway.Router.{user_backend, expense_backend, forward, table, route}
use finora.Gateway.Router.Protected.{route-protected}

abbrev pub jwt : JwtLibrary
jwt = record {
  sign = λ secret claims. ok claims.user_id;
  parse_with_claims = λ secret token now. ok (record {
    user_id = token;
    email = [];
    type = type_access;
    jti = [];
    issued_at = 0;
    expires_at = 0;
  });
}

-- A request with Ann's token that says it comes from Mallory.
abbrev pub forged : Request
forged = record {
  path = str "/api/v1/accounts/7";
  headers =
      record { name = user_id_header; value = str "mallory" }
      ∷ record { name = authorization_header; value = str "Bearer ann" }
      ∷ [];
  request_id = [];
}

abbrev pub stamped : Request
stamped = record forged {
  headers =
      record { name = user_id_header; value = str "ann" }
      ∷ record { name = authorization_header; value = str "Bearer ann" }
      ∷ [];
}

route-protected_example :
    (resolve table forged.path ≡ some expense_backend)
    × ((token : Text) × (claims : Claims) × (parse jwt (str "a") token type_access 3 ≡ ok claims)
        × SpeaksFor claims.user_id stamped)
unfolding finora.Gateway.Router.is_public text_eq route require_access_token has_prefix
    finora.Golang.Text.trim_prefix finora.Base.drop parse resolve finora.Gateway.Proxy.resolve_from
    finora.Gateway.Proxy.resolve_step
route-protected_example =
    route-protected jwt (str "a") 3 (str "GET") forged stamped expense_backend refl refl

abbrev overlapping : List (Route Text)
overlapping =
    record { prefix = str "/a"; proxy = str "short" }
    ∷ record { prefix = str "/a/b"; proxy = str "long" }
    ∷ []

resolve-IsLongest_example :
    (best : Route Text) × Memᴰ best overlapping
    × (best.proxy ≡ str "long")
    × (has_prefix (str "/a/b/c") best.prefix ≡ true)
    × All (IsLongest (str "/a/b/c") (some best)) overlapping
unfolding resolve finora.Gateway.Proxy.resolve_from finora.Gateway.Proxy.resolve_step has_prefix
resolve-IsLongest_example = resolve-IsLongest (str "/a/b/c") overlapping (str "long") refl
