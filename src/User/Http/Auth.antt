-- ===== src/User/Http/Auth.antt =====
-- services/user-service/internal/handler/auth_handler.go. What `ShouldBindJSON` makes of a body is
-- an argument.
pub mod Opaque
pub mod Final
use finora.Base.{
  ℕ, Text, str, Error, duplicate_email, invalid_credentials, invalid_token, Result, ok, err,
}
use finora.Golang.Time.{Time}
use finora.Http.{
  Context, Response, status_only, success_envelope, fail, code_validation, code_unauthorized,
  code_conflict, code_internal, no_details, Bound, bound, unbound,
}
use finora.User.Domain.{User, RegisterInput, LoginResult}
use finora.User.Http.Services.{AuthService}

pub record RegisterRequest : Type 0 where
  pub email : Text
  pub password : Text
  pub name : Text

pub record LoginRequest : Type 0 where
  pub email : Text
  pub password : Text

-- `refreshRequest` and `logoutRequest` have the same field.
pub record TokenRequest : Type 0 where
  pub refresh_token : Text

pub record PasswordResetRequest : Type 0 where
  pub email : Text

-- A user as its JSON tags write it: `PasswordHash` has the tag `-`.
pub record UserJson : Type 0 where
  pub id : Text
  pub email : Text
  pub name : Text
  pub created_at : Time
  pub updated_at : Time

abbrev pub user_json : User → UserJson
user_json u = record {
  id = u.id;
  email = u.email;
  name = u.name;
  created_at = u.created_at;
  updated_at = u.updated_at;
}

-- The payloads of the endpoints.
pub data Payload : Type 0 where
  user : UserJson → Payload
  session : Text → Text → UserJson → Payload
  tokens : Text → Text → Payload
  message : Text → Payload

abbrev pub internal_error : {D : Type 0} → Context → Response D
internal_error c = fail c 500 code_internal (str "internal server error") no_details

-- The answer to a body that does not bind.
abbrev pub bad_body : {D : Type 0} → Context → Text → Response D
bad_body c e = fail c 400 code_validation e no_details

-- The answers to the results of the service.
unfoldable pub registered : Context → Result User → Response Payload
registered c (ok u) = success_envelope c 201 (user (user_json u))
registered c (err duplicate_email) =
    fail c 409 code_conflict (str "email already registered") no_details
registered c (err e) = internal_error c

unfoldable pub logged_in : Context → Result LoginResult → Response Payload
logged_in c (ok r) =
    success_envelope c 200 (session r.access_token r.refresh_token (user_json r.user))
logged_in c (err invalid_credentials) =
    fail c 401 code_unauthorized (str "invalid credentials") no_details
logged_in c (err e) = internal_error c

unfoldable pub refreshed : Context → Result LoginResult → Response Payload
refreshed c (ok r) = success_envelope c 200 (tokens r.access_token r.refresh_token)
refreshed c (err invalid_token) =
    fail c 401 code_unauthorized (str "invalid or expired refresh token") no_details
refreshed c (err e) = internal_error c

unfoldable pub logged_out : Context → Result (Unit {0}) → Response Payload
logged_out c (ok _) = status_only 204
logged_out c (err e) = internal_error c

unfoldable pub reset_requested : Context → Result (Unit {0}) → Response Payload
reset_requested c (ok _) =
    success_envelope c 202
      (message (str "if an account with that email exists, a reset link has been sent"))
reset_requested c (err e) = internal_error c

module _ {S : Type 0} (svc : AuthService S) where
  unfoldable pub register : Context → Bound RegisterRequest → S → Response Payload × S
  unfolding registered
  register c (unbound e) s = (bad_body c e, s)
  register c (bound req) s =
      let (r, s') =
        svc.register (record { email = req.email; password = req.password; name = req.name }) s in
      (registered c r, s')

  unfoldable pub login : Context → Bound LoginRequest → S → Response Payload × S
  unfolding logged_in
  login c (unbound e) s = (bad_body c e, s)
  login c (bound req) s = let (r, s') = svc.login req.email req.password s in (logged_in c r, s')

  unfoldable pub refresh : Context → Bound TokenRequest → S → Response Payload × S
  unfolding refreshed
  refresh c (unbound e) s = (bad_body c e, s)
  refresh c (bound req) s = let (r, s') = svc.refresh req.refresh_token s in (refreshed c r, s')

  unfoldable pub logout : Context → Bound TokenRequest → S → Response Payload × S
  unfolding logged_out
  logout c (unbound e) s = (bad_body c e, s)
  logout c (bound req) s = let (r, s') = svc.logout req.refresh_token s in (logged_out c r, s')

  unfoldable pub request_password_reset :
      Context → Bound PasswordResetRequest → S → Response Payload × S
  unfolding reset_requested
  request_password_reset c (unbound e) s = (bad_body c e, s)
  request_password_reset c (bound req) s =
      let (r, s') = svc.request_password_reset req.email s in (reset_requested c r, s')
