-- ===== src/User/Http/Users.antt =====
-- services/user-service/internal/handler/user_handler.go. What `ShouldBindJSON` makes of a body is
-- an argument.
use finora.Base.{Text, str, Error, validation, not_found, Result, ok, err}
use finora.Http.{
  Context, Response, success_envelope, fail, code_validation, code_not_found, code_internal, keyed,
  no_details, Bound, bound, unbound,
}
use finora.Http.Middleware.{user_id}
use finora.User.Domain.{Settings}
use finora.User.Http.Services.{UserService}
use finora.User.Http.Auth.{UserJson, user_json, bad_body}

pub record UpdateProfileRequest : Type 0 where
  pub name : Text

pub record UpdateSettingsRequest : Type 0 where
  pub currency : Text
  pub timezone : Text

-- The payloads: `gin.H{"user": u}` and `gin.H{"settings": s}`.
pub data Payload : Type 0 where
  user : UserJson → Payload
  settings : Settings → Payload

unfoldable pub respond_user_err : {D : Type 0} → Context → Error → Response D
respond_user_err c (validation field message) =
    fail c 400 code_validation message (keyed (str "field") field)
respond_user_err c not_found = fail c 404 code_not_found (str "user not found") no_details
respond_user_err c other = fail c 500 code_internal (str "internal server error") no_details

unfoldable pub answer : {A D : Type 0} → Context → (A → D) → Result A → Response D
answer c payload (ok a) = success_envelope c 200 (payload a)
answer c payload (err e) = respond_user_err c e

module _ {S : Type 0} (svc : UserService S) where
  unfoldable pub me : Context → S → Response Payload × S
  unfolding answer user_id
  me c s = (answer c (λ u. user (user_json u)) (svc.get_profile (user_id c) s), s)

  unfoldable pub update_me : Context → Bound UpdateProfileRequest → S → Response Payload × S
  unfolding answer user_id
  update_me c (unbound e) s = (bad_body c e, s)
  update_me c (bound req) s =
      let (r, s') = svc.update_profile (user_id c) req.name s in
      (answer c (λ u. user (user_json u)) r, s')

  unfoldable pub get_settings : Context → S → Response Payload × S
  unfolding answer user_id
  get_settings c s = (answer c settings (svc.get_settings (user_id c) s), s)

  unfoldable pub update_settings : Context → Bound UpdateSettingsRequest → S → Response Payload × S
  unfolding answer user_id
  update_settings c (unbound e) s = (bad_body c e, s)
  update_settings c (bound req) s =
      let (r, s') =
        svc.update_settings (user_id c)
          (record { currency = req.currency; timezone = req.timezone }) s in
      (answer c settings r, s')
