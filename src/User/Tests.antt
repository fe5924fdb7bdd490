-- ===== src/User/Tests.antt =====
-- The theorems on sessions, applied to one user with one refresh token.
mod Sessions
mod Stored
use finora.Base.{
  Result, Error, ◌≡◌, ◌≢◌, refl, inl, inr, false, List, [], ◌∷◌, none, some, Text, str, not_found,
  invalid_credentials, invalid_token, ok, err, select, Bool-cases, if◌then◌else◌,
}
use finora.Base.{◌⊎◌, ◌≤◌, true, length}
use finora.Golang.Time.{zero_time}
use finora.User.Profile.{currency_pattern}
use finora.User.Profile.Valid.{update_settings-valid, update_profile-named}
use finora.User.Domain.{Settings, UpdateSettingsInput}
use finora.Golang.Text.{is_empty, text_eq, trim_space}
use finora.Mongo.Memory.{memory, memory-IsCollection}
use finora.Jwt.{
  JwtLibrary, Claims, parse, type_refresh, generate_access_token, generate_refresh_token,
}
use finora.User.Domain.{
  User, RefreshToken, RegisterInput, LoginResult, UserRepository, SettingsRepository,
}
use finora.User.Auth.{Crypto, TokenConfig, Fresh, normalize_email, register, login, refresh}
use finora.User.Auth.Access.{login-refused, register-new}
use finora.User.Auth.Rotation.{IsSigned}
use finora.User.Auth.Replay.{HasUniqueIds, refresh-once, refresh-contains_replay}
use finora.User.Store.{has_jti_hash, has_id, is_live, revoked_token, repository}

abbrev pub State : Type 0
State = List RefreshToken × Unit {0}

abbrev pub ann : User
ann = record {
  id = str "u1";
  email = str "a@b.c";
  password_hash = str "pw";
  name = str "Ann";
  created_at = 5;
  updated_at = 5;
}

abbrev pub users : UserRepository State
users = record {
  create = λ u s. (ok tt, s);
  find_by_email = λ email s. if text_eq email ann.email then ok ann else err not_found;
  find_by_id = λ id s. ok ann;
  update = λ u s. (ok tt, s);
}

abbrev pub no_settings : SettingsRepository State
no_settings = record { find_by_user_id = λ id s. err not_found; upsert = λ x s. (ok tt, s) }

abbrev pub crypto : Crypto
crypto = record {
  to_lower = λ t. t;
  hash_jti = λ t. t;
  generate_from_password = ok;
  compare_hash_and_password = text_eq;
}

-- A token is its identifier in plain text.
abbrev pub plain : Text → Claims
plain token = record {
  user_id = str "u1";
  email = [];
  type = type_refresh;
  jti = token;
  issued_at = 0;
  expires_at = 0;
}

abbrev pub jwt : JwtLibrary
jwt = record {
  sign = λ secret claims. ok claims.jti;
  parse_with_claims = λ secret token now. ok (plain token);
}

pub jwt-IsSigned : IsSigned jwt
jwt-IsSigned secret token t u c d h k = cc

abbrev pub config : TokenConfig
config = record {
  access_secret = str "a";
  refresh_secret = str "r";
  access_ttl = 10;
  refresh_ttl = 100;
}

abbrev pub at_six : Fresh
at_six = record { now = 6; id = str "t2"; jti = str "j2" }

abbrev pub at_seven : Fresh
at_seven = record { now = 7; id = str "t3"; jti = str "j3" }

abbrev pub token : RefreshToken
token = record {
  id = str "t1";
  user_id = str "u1";
  jti_hash = str "j1";
  expires_at = 50;
  revoked = false;
  created_at = 5;
}

abbrev session : LoginResult
session = record { access_token = []; refresh_token = str "j2"; user = ann }

pub one-HasUniqueIds : HasUniqueIds (token ∷ [])
unfolding text_eq
one-HasUniqueIds hash rt h = elim (Bool-cases (text_eq token.jti_hash hash)) [
  | inl e ↦
      let found : some token ≡ some rt = rw e at h in let same : token ≡ rt = cc in rw (← same) refl
  | inr e ↦ absurd (let no : none ≡ some rt = rw e at h in cc)
]

refresh-once_example :
    (refresh users no_settings
      (repository memory)
      crypto
      jwt
      config
      at_seven
      (str "j1")
      (refresh users no_settings
        (repository memory)
        crypto
        jwt
        config
        at_six
        (str "j1")
        (token ∷ [], tt)).1).0
    ≢ ok session
unfolding text_eq trim_space refresh finora.User.Auth.invalid_unless_ok parse repository
    finora.User.Auth.rotate finora.User.Auth.issue_token_pair generate_access_token
    generate_refresh_token
refresh-once_example =
    refresh-once memory memory-IsCollection users no_settings crypto jwt config at_six at_seven
      (str "j1") (token ∷ [], tt) session session one-HasUniqueIds jwt-IsSigned refl

abbrev replayed : Result LoginResult × State
replayed =
    refresh users no_settings (repository memory) crypto jwt config at_six (str "j1")
      (revoked_token token ∷ token ∷ [], tt)

abbrev one_revoked : Result Prim.Native.Nat.ℕ
one_revoked = ok 1

refresh-contains_replay_example :
    ((replayed.0 ≡ err invalid_token) × (select (is_live (str "u1")) replayed.1.0 ≡ []))
    ⊎ ((e : Error) × (one_revoked ≡ err e) × (replayed.0 ≡ err e))
unfolding text_eq trim_space parse finora.User.Store.find_by_jti_hash
refresh-contains_replay_example =
    refresh-contains_replay memory memory-IsCollection users no_settings crypto jwt config at_six
      (str "j1") (plain (str "j1")) (revoked_token token) (revoked_token token ∷ token ∷ [], tt)
      refl refl refl

abbrev euros : UpdateSettingsInput
euros = record { currency = str " EUR"; timezone = [] }

abbrev defaults : Settings
defaults = record {
  user_id = str "u1";
  currency = str "USD";
  timezone = str "UTC";
  updated_at = zero_time;
}

update_settings-valid_example :
    ((str "EUR" ≡ defaults.currency) ⊎ (currency_pattern (str "EUR") ≡ true))
    × ((str "UTC" ≡ defaults.timezone) ⊎ (false ≡ true))
unfolding finora.User.Profile.get_settings finora.User.Profile.or_defaults
    finora.User.Profile.update_settings finora.User.Profile.validate_currency trim_space
    currency_pattern finora.User.Profile.validate_timezone
update_settings-valid_example =
    update_settings-valid users no_settings (λ t. false) 9 (str "u1") euros ([], tt) defaults
      (record { user_id = str "u1"; currency = str "EUR"; timezone = str "UTC"; updated_at = 9 })
      refl refl
