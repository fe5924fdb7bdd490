-- ===== src/User/Tests/Sessions.antt =====
-- The theorems on the endpoints of sessions, applied to one user with one refresh token.
use finora.Base.{List, ok, find_first, Result, err, ◌≡◌, refl, inr, [], ◌∷◌, none, str}
use finora.Golang.Text.{text_eq, trim_space}
use finora.Http.{Context, fail, code_unauthorized, no_details, bound, payload_of}
use finora.Mongo.{Collection}
use finora.Jwt.{type_access, type_refresh, parse}
use finora.Jwt.Tests.{unsigned, write}
use finora.User.Domain.{RefreshToken, LoginResult}
use finora.User.Auth
use finora.User.Auth.{Fresh, TokenConfig}
use finora.Mongo.Memory.{memory, memory-IsCollection}
use finora.User.Auth.{normalize_email}
use finora.User.Store.{repository}
use finora.User.Http.Services.{auth_service}
use finora.User.Http.Auth.{LoginRequest, TokenRequest, login, logout, refresh}
use finora.User.Http.Auth.Opaque.{login-opaque}
use finora.User.Http.Auth.Final.{logging_in, refreshing, Turn, service, serve, logout-final}
use finora.User.Tests.{
  State, ann, users, no_settings, crypto, plain, jwt, jwt-IsSigned, config, at_six, at_seven, token,
  one-HasUniqueIds,
}

abbrev context : Context
context = record {
  method = str "POST";
  client_ip = [];
  headers = [];
  user_id = none;
  request_id = none;
  written = [];
}

abbrev state : State
state = (token ∷ [], tt)

abbrev store : Collection State RefreshToken
store = memory

abbrev guess : LoginRequest
guess = record { email = str "a@b.c"; password = str "guess" }

abbrev presented : TokenRequest
presented = record { refresh_token = str "j1" }

login-opaque_example :
    login
      (auth_service users no_settings (repository memory) crypto jwt config at_six)
      context
      (bound guess)
      state
    ≡ (fail context 401 code_unauthorized (str "invalid credentials") no_details, state)
unfolding text_eq trim_space normalize_email
login-opaque_example =
    login-opaque users no_settings (repository memory) crypto jwt config at_six context guess state
      (inr (ann, refl, refl))

abbrev told : LoginRequest
told = record { email = str "a@b.c"; password = str "pw" }

-- A login, and a refresh with the token of it, both under another identifier.
abbrev between : List Turn
between =
    record { fresh = at_seven; context = context; ask = logging_in (bound told) }
    ∷ record { fresh = at_seven; context = context; ask = refreshing (bound presented) }
    ∷ []

abbrev at_eight : Fresh
at_eight = record { now = 8; id = str "t4"; jti = str "j4" }

logout-final_example :
    payload_of
      (refresh
        (service memory users no_settings crypto jwt config at_eight)
        context
        (bound presented)
        (serve memory users no_settings crypto jwt config between
          (logout
            (service memory users no_settings crypto jwt config at_six)
            context
            (bound presented)
            state).1)).0
    ≡ none
unfolding finora.Jwt.parse text_eq logout finora.User.Auth.logout finora.User.Auth.end_session
    repository
logout-final_example =
    logout-final memory users no_settings crypto jwt config memory-IsCollection
      (λ p s e h. absurd (let wrong : ok (find_first p s.0) ≡ err e = h in cc)) (λ u s. refl)
      (λ x s. refl) at_six at_eight context context presented (plain (str "j1")) between state
      one-HasUniqueIds jwt-IsSigned refl refl (refl, (refl, tt))

abbrev renewing : LoginResult
renewing = record {
  access_token = write (record {
    user_id = str "u1";
    email = str "a@b.c";
    type = type_access;
    jti = [];
    issued_at = 0;
    expires_at = 0;
  });
  refresh_token = write (record {
    user_id = str "u1";
    email = [];
    type = type_refresh;
    jti = str "j2";
    issued_at = 0;
    expires_at = 3000000000;
  });
  user = ann;
}

abbrev lasting : TokenConfig
lasting = record config { refresh_ttl = 3000000000 }

abbrev logged : Result LoginResult × State
logged =
    Auth.login users no_settings (repository memory) crypto unsigned lasting at_six told.email
      told.password state
