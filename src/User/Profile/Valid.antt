-- ===== src/User/Profile/Valid.antt =====
-- The updates of user_service.go.
use finora.Base.{◌≡◌, ◌⊎◌, Bool, true, false, Text, ok, arith, ◌≤◌, length}
use finora.Golang.Text.{is_empty}
use finora.Golang.Time.{Time}
use finora.User.Domain.{User, Settings, UpdateSettingsInput, UserRepository, SettingsRepository}
use finora.User.Profile.{
  currency_pattern, validate_currency, validate_name, get_settings, validate_timezone,
  update_settings, update_profile,
}

module _ {S : Type 0} (users : UserRepository S) (settings : SettingsRepository S)
    (load_location : Text → Bool) (now : Time) where
  -- After an update of the settings that succeeds, the currency is the one before or matches the
  -- pattern, and the timezone is the one before or can be loaded.
  pub update_settings-valid :
      (user_id : Text) (input : UpdateSettingsInput) (s : S) (old new : Settings)
      → get_settings users settings load_location now user_id s ≡ ok old
      → (update_settings users settings load_location now user_id input s).0 ≡ ok new
      → ((new.currency ≡ old.currency) ⊎ (currency_pattern new.currency ≡ true))
        × ((new.timezone ≡ old.timezone) ⊎ (load_location new.timezone ≡ true))
  unfolding update_settings validate_currency validate_timezone
  update_settings-valid user_id input s old new read done = ground arith

  -- A profile that is updated has a name of 1 to 100 bytes.
  pub update_profile-named :
      (user_id name : Text) (s : S) (u : User)
      → (update_profile users settings load_location now user_id name s).0 ≡ ok u
      → (is_empty u.name ≡ false) × (length u.name ≤ 100)
  unfolding update_profile validate_name
  update_profile-named user_id name s u done = ground arith
