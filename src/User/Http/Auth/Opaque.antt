-- ===== src/User/Http/Auth/Opaque.antt =====
-- auth_handler.go over auth_service.go: what the answers tell.
use finora.Base.{
  ◌≡◌, ◌⊎◌, refl, false, some, str, Result, ok, err, not_found, duplicate_email,
  invalid_credentials, invalid_token, validation, failed, arith,
}
use finora.Jwt.{JwtLibrary}
use finora.Http.{Context, fail, status_of, payload_of, code_unauthorized, no_details, bound}
use finora.User.Domain.{
  User, LoginResult, UserRepository, SettingsRepository, RefreshTokenRepository,
}
use finora.User.Auth.{Crypto, TokenConfig, Fresh, normalize_email}
use finora.User.Auth.Access.{login-refused}
use finora.User.Http.Services.{auth_service}
use finora.User.Http.Auth.{LoginRequest, Payload, logged_in, logged_out, refreshed, login}

pub refreshed-payload :
    (c : Context) (r : Result LoginResult) (p : Payload)
    → payload_of (refreshed c r) ≡ some p
    → (session : LoginResult) × (r ≡ ok session)
unfolding refreshed fail
refreshed-payload c (ok session) p h = (session, refl)
refreshed-payload c (err (validation f m)) p h = absurd cc
refreshed-payload c (err not_found) p h = absurd cc
refreshed-payload c (err duplicate_email) p h = absurd cc
refreshed-payload c (err invalid_credentials) p h = absurd cc
refreshed-payload c (err invalid_token) p h = absurd cc
refreshed-payload c (err (failed m)) p h = absurd cc

pub logged_out-status :
    (c : Context) (r : Result (Unit {0})) → status_of (logged_out c r) ≡ 204 → r ≡ ok tt
unfolding logged_out fail
logged_out-status c (ok _) h = refl
logged_out-status c (err e) h = absurd (ground arith)

module _ {S : Type 0} (users : UserRepository S) (settings : SettingsRepository S)
    (tokens : RefreshTokenRepository S) (crypto : Crypto) (jwt : JwtLibrary)
    (config : TokenConfig) where
  -- A login with an unknown address and one with a wrong password get the same answer, a 401 that
  -- names neither, and change nothing.
  pub login-opaque :
      (fresh : Fresh) (c : Context) (req : LoginRequest) (s : S)
      → (users.find_by_email (normalize_email crypto req.email) s ≡ err not_found)
        ⊎ ((u : User) × (users.find_by_email (normalize_email crypto req.email) s ≡ ok u)
            × (crypto.compare_hash_and_password u.password_hash req.password ≡ false))
      → login (auth_service users settings tokens crypto jwt config fresh) c (bound req) s
        ≡ (fail c 401 code_unauthorized (str "invalid credentials") no_details, s)
  unfolding login logged_in
  login-opaque fresh c req s h =
      rw
        (
          login-refused users settings tokens crypto jwt config fresh req.email req.password s h,
          login,
        )
        refl
