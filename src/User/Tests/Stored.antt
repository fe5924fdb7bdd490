-- ===== src/User/Tests/Stored.antt =====
-- The theorems on what the user service stores, over collections in memory.
use finora.Base.{
  false, ◌≡◌, ◌≢◌, ◌⊎◌, refl, List, [], ◌∷◌, Text, str, Error, not_found, ok, err, select,
}
use finora.Golang.Text.{text_eq, trim_space}
use finora.Mongo.{bson_date, Collection}
use finora.Mongo.Memory.{memory, memory-IsCollection}
use finora.User.Domain.{
  User, Settings, UpdateSettingsInput, UserRepository, SettingsRepository, RefreshTokenRepository,
}
use finora.User.Profile.{update_settings, get_settings, validate_currency, currency_pattern}
use finora.User.Profile.Stored.{update_settings-read}
use finora.User.Store.Settings.{of_user, repository}
use finora.User.Unique.{Request, registration, profile, serve, HaveOwn, serve-HaveOwn}
use finora.User.Tests.{crypto, jwt, config, at_six, at_seven, ann}

abbrev SettingsState : Type 0
SettingsState = List Settings × Unit {0}

abbrev stored : Collection SettingsState Settings
stored = memory

abbrev users : UserRepository SettingsState
users = record {
  create = λ u s. (ok tt, s);
  find_by_email = λ email s. err not_found;
  find_by_id = λ id s. err not_found;
  update = λ u s. (ok tt, s);
}

abbrev euros : UpdateSettingsInput
euros = record { currency = str "EUR"; timezone = [] }

abbrev in_euros : Settings
in_euros = record {
  user_id = str "u1";
  currency = str "EUR";
  timezone = str "UTC";
  updated_at = 9000001;
}

-- Of another user.
abbrev in_yen : Settings
in_yen = record { user_id = str "u2"; currency = str "JPY"; timezone = str "UTC"; updated_at = 1 }

abbrev after : SettingsState
after =
    (update_settings users (repository stored) (λ t. false) 9000001 (str "u1") euros
      (in_yen ∷ [], tt)).1

update_settings-read_example :
    (((e : Error) × (stored.find_one (of_user (str "u1")) after ≡ err e))
      ⊎ (get_settings users (repository stored) (λ t. false) 12 (str "u1") after
          ≡ ok (record in_euros { updated_at = 9000000 })))
    × ((v : Text)
        → v ≢ str "u1"
        → select (of_user v) (stored.docs after) ≡ select (of_user v) (in_yen ∷ []))
unfolding update_settings validate_currency currency_pattern get_settings
    finora.User.Profile.or_defaults repository finora.User.Store.Settings.upsert
    finora.User.Store.Settings.find_by_user_id finora.User.Profile.validate_timezone trim_space
    text_eq bson_date
update_settings-read_example =
    update_settings-read users stored memory-IsCollection (λ t. false) 9000001 (str "u1") euros
      (in_yen ∷ [], tt) in_euros 12 refl

abbrev UserState : Type 0
UserState = List User × Unit {0}

abbrev people : Collection UserState User
people = memory

abbrev no_settings : SettingsRepository UserState
no_settings = record { find_by_user_id = λ id s. err not_found; upsert = λ x s. (ok tt, s) }

abbrev no_tokens : RefreshTokenRepository UserState
no_tokens = record {
  create = λ rt s. (ok tt, s);
  find_by_jti_hash = λ hash s. err not_found;
  revoke = λ id s. (ok tt, s);
  revoke_all_for_user = λ id s. (ok tt, s);
}

-- One address is registered twice, with and without spaces around it, and Ann takes another name.
abbrev requests : List Request
requests =
    registration at_six (record { email = str " b@b.c "; password = str "pw"; name = str "Bob" })
    ∷ registration at_seven (record { email = str "b@b.c"; password = str "pw"; name = str "Bo" })
    ∷ profile 9 (str "u1") (str "Anna")
    ∷ []

serve-HaveOwn_example : HaveOwn people (
    serve people
      (λ e. false)
      no_settings
      no_tokens
      crypto
      jwt
      config
      (λ t. false)
      requests
      (ann ∷ [], tt))
serve-HaveOwn_example =
    serve-HaveOwn people (λ e. false) no_settings no_tokens crypto jwt config (λ t. false)
      memory-IsCollection (λ p s e h. absurd cc) (λ x s. refl) requests (ann ∷ [], tt) (tt, tt)
