-- ===== src/User/Profile.antt =====
-- services/user-service/internal/service/user_service.go over any repositories. The current time
-- and `time.LoadLocation` are parameters.
pub mod Valid
pub mod Stored
use finora.Base.{
  ℕ, Bool, false, ◌&&◌, [], ◌∷◌, Option, none, some, Text, str, Error, validation, not_found,
  Result, ok, err, Action, ◌>>=◌, ◌>>◌, pure, reads, check, length, ltb, leb, if◌then◌else◌,
}
use finora.Golang.Text.{trim_space, is_empty}
use finora.Golang.Time.{Time, zero_time}
use finora.User.Domain.{User, Settings, UpdateSettingsInput, UserRepository, SettingsRepository}

abbrev pub max_name_length : ℕ
max_name_length = 100

abbrev pub is_upper : ℕ → Bool
is_upper c = leb b'A' c && leb c b'Z'

-- `^[A-Z]{3}$`
unfoldable pub currency_pattern : Text → Bool
currency_pattern (a ∷ b ∷ c ∷ []) = is_upper a && is_upper b && is_upper c
currency_pattern _ = false

unfoldable pub validate_name : Text → Option Error
validate_name name =
    if is_empty name
    then some (validation (str "name") (str "name must not be blank"))
    else if ltb max_name_length (length name)
    then some (validation (str "name") (str "name must be at most 100 characters"))
    else none

unfoldable pub validate_currency : Text → Option Error
validate_currency currency =
    if is_empty currency
    then none
    else if currency_pattern currency
    then none
    else some
        (validation (str "currency") (str "currency must be a 3-letter uppercase code (e.g. USD)"))

-- `if in.X != "" { existing.X = in.X }`
abbrev pub unless_empty : Text → Text → Text
unless_empty new old = if is_empty new then old else new

module _ {S : Type 0} (users : UserRepository S) (settings : SettingsRepository S)
    (load_location : Text → Bool) (now : Time) where
  unfoldable pub get_profile : Text → S → Result User
  get_profile user_id = users.find_by_id user_id

  unfoldable pub update_profile : Text → Text → Action S User
  update_profile user_id given = do
    let name = trim_space given
    check (validate_name name)
    u ← reads (users.find_by_id user_id)
    let changed : User = record u { name = name; updated_at = now }
    users.update changed
    pure changed

  unfoldable pub or_defaults : Text → Result Settings → Result Settings
  or_defaults user_id (ok s) = ok s
  or_defaults user_id (err not_found) = ok (record {
    user_id = user_id;
    currency = str "USD";
    timezone = str "UTC";
    updated_at = zero_time;
  })
  or_defaults user_id (err e) = err e

  unfoldable pub get_settings : Text → S → Result Settings
  get_settings user_id s = or_defaults user_id (settings.find_by_user_id user_id s)

  unfoldable pub validate_timezone : Text → Option Error
  validate_timezone timezone =
      if is_empty timezone
      then none
      else if load_location timezone
      then none
      else some (
          validation (str "timezone")
            (str "timezone must be a valid IANA timezone (e.g. America/New_York)"))

  unfoldable pub update_settings : Text → UpdateSettingsInput → Action S Settings
  update_settings user_id input = do
    let currency = trim_space input.currency
    check (validate_currency currency)
    let timezone = trim_space input.timezone
    check (validate_timezone timezone)
    existing ← reads (get_settings user_id)
    let changed : Settings = record {
      user_id = user_id;
      currency = unless_empty currency existing.currency;
      timezone = unless_empty timezone existing.timezone;
      updated_at = now;
    }
    settings.upsert changed
    pure changed
