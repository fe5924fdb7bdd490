-- ===== src/User/Store/Settings.antt =====
-- services/user-service/internal/repository/settings_repository.go over the driver.
use finora.Base.{Bool, Text, Result, Action}
use finora.Golang.Text.{text_eq}
use finora.Mongo.{bson_date, Collection, found}
use finora.User.Domain.{Settings, SettingsRepository}

-- `bson.M{"user_id": userID}`
abbrev pub of_user : Text → Settings → Bool
of_user user_id settings = text_eq settings.user_id user_id

-- The settings as the collection keeps them.
abbrev pub encoded : Settings → Settings
encoded settings = record settings { updated_at = bson_date settings.updated_at }

module _ {S : Type 0} (col : Collection S Settings) where
  unfoldable pub find_by_user_id : Text → S → Result Settings
  find_by_user_id user_id s = found (λ d. d) (col.find_one (of_user user_id) s)

  unfoldable pub upsert : Settings → Action S (Unit {0})
  upsert settings = col.replace_upsert (of_user settings.user_id) (encoded settings)

  unfoldable pub repository : SettingsRepository S
  unfolding find_by_user_id upsert
  repository = record { find_by_user_id = find_by_user_id; upsert = upsert }
