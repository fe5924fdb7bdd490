-- ===== src/User/Auth.antt =====
-- services/user-service/internal/service/auth_service.go over any repositories. Hashing, random
-- identifiers and the current time are parameters.
pub mod Rotation
pub mod Replay
pub mod Access
pub mod Ended
pub mod Renewal
pub mod Spent
use finora.Base.{
  ◌+◌, Bool, true, false, List, [], Option, none, some, Text, str, Error, not_found,
  duplicate_email, invalid_credentials, invalid_token, Result, ok, err, Action, ◌>>=◌, ◌>>◌, pure,
  reads, check, replace_not_found, ltb, if◌then◌else◌,
}
use finora.Golang.Text.{trim_space}
use finora.Golang.Time.{Time}
use finora.Jwt.{
  JwtLibrary, Claims, parse, type_refresh, generate_access_token, generate_refresh_token,
}
use finora.User.Domain.{
  User, Settings, RefreshToken, RegisterInput, LoginResult, UserRepository, SettingsRepository,
  RefreshTokenRepository,
}

-- What is used of other packages: `strings.ToLower`, SHA-256 in hexadecimal, and bcrypt.
pub record Crypto : Type 0 where
  pub to_lower : Text → Text
  pub hash_jti : Text → Text
  pub generate_from_password : Text → Result Text
  pub compare_hash_and_password : Text → Text → Bool

-- The secrets and lifetimes from the configuration.
pub record TokenConfig : Type 0 where
  pub access_secret : Text
  pub refresh_secret : Text
  pub access_ttl : Time
  pub refresh_ttl : Time

-- The current time and the fresh identifiers of one call.
pub record Fresh : Type 0 where
  pub now : Time
  pub id : Text
  pub jti : Text

unfoldable pub normalize_email : Crypto → Text → Text
normalize_email crypto email = crypto.to_lower (trim_space email)

-- The start of `Register`: a user found, an error other than `ErrNotFound`, or neither.
unfoldable pub email_taken : Result User → Option Error
email_taken (ok _) = some duplicate_email
email_taken (err not_found) = none
email_taken (err e) = some e

-- A token that cannot be parsed is `ErrInvalidToken`, whatever the reason.
unfoldable pub invalid_unless_ok : {A : Type 0} → Result A → Result A
invalid_unless_ok (ok a) = ok a
invalid_unless_ok (err e) = err invalid_token

module _ {S : Type 0} (users : UserRepository S) (settings : SettingsRepository S)
    (tokens : RefreshTokenRepository S) (crypto : Crypto) (jwt : JwtLibrary)
    (config : TokenConfig) where
  unfoldable pub register : Fresh → RegisterInput → Action S User
  register fresh input = do
    let email = normalize_email crypto input.email
    existing ← λ s. (ok (email_taken (users.find_by_email email s)), s)
    check existing
    hash ← reads (λ _. crypto.generate_from_password input.password)
    let u : User = record {
      id = fresh.id;
      email = email;
      password_hash = hash;
      name = input.name;
      created_at = fresh.now;
      updated_at = fresh.now;
    }
    users.create u
    settings.upsert (record {
      user_id = fresh.id;
      currency = str "USD";
      timezone = str "UTC";
      updated_at = fresh.now;
    })
    pure u

  -- The record that `issueTokenPair` stores.
  unfoldable pub new_token : Fresh → User → RefreshToken
  new_token fresh u = record {
    id = fresh.id;
    user_id = u.id;
    jti_hash = crypto.hash_jti fresh.jti;
    expires_at = fresh.now + config.refresh_ttl;
    revoked = false;
    created_at = fresh.now;
  }

  unfoldable pub issue_token_pair : Fresh → User → Action S LoginResult
  issue_token_pair fresh u = do
    access ← reads (λ _.
        generate_access_token jwt config.access_secret u.id u.email config.access_ttl fresh.now)
    refresh ← reads (λ _.
        generate_refresh_token jwt config.refresh_secret u.id fresh.jti config.refresh_ttl
          fresh.now)
    tokens.create (new_token fresh u)
    pure (record { access_token = access; refresh_token = refresh; user = u })

  unfoldable pub login : Fresh → Text → Text → Action S LoginResult
  login fresh email password = do
    u ← reads (λ s.
        replace_not_found invalid_credentials
          (users.find_by_email (normalize_email crypto email) s))
    check (
        if crypto.compare_hash_and_password u.password_hash password
        then none
        else some invalid_credentials)
    issue_token_pair fresh u

  -- What `Refresh` does with the stored record of the presented token.
  unfoldable pub rotate : Fresh → Claims → RefreshToken → Action S LoginResult
  rotate fresh claims rt = do
    check (if ltb rt.expires_at fresh.now then some invalid_token else none)
    u ← reads (λ s. replace_not_found invalid_token (users.find_by_id claims.user_id s))
    tokens.revoke rt.id
    issue_token_pair fresh u

  unfoldable pub contain : RefreshToken → Action S LoginResult
  contain rt = do tokens.revoke_all_for_user rt.user_id; λ s. (err invalid_token, s)

  unfoldable pub refresh : Fresh → Text → Action S LoginResult
  refresh fresh token = do
    claims ←
        reads
          (λ _. invalid_unless_ok (parse jwt config.refresh_secret token type_refresh fresh.now))
    rt ← reads (λ s.
        replace_not_found invalid_token (tokens.find_by_jti_hash (crypto.hash_jti claims.jti) s))
    if rt.revoked then contain rt else rotate fresh claims rt

  -- What `Logout` does with what the repository found.
  unfoldable pub end_session : Result RefreshToken → Action S (Unit {0})
  end_session (err not_found) s = (ok tt, s)
  end_session (err e) s = (err e, s)
  end_session (ok rt) s = if rt.revoked then (ok tt, s) else tokens.revoke rt.id s

  unfoldable pub logout : Time → Text → Action S (Unit {0})
  logout now token s = elim (parse jwt config.refresh_secret token type_refresh now) [
    | err _ ↦ (ok tt, s)
    | ok claims ↦ end_session (tokens.find_by_jti_hash (crypto.hash_jti claims.jti) s) s
  ]

  unfoldable pub request_password_reset : Text → Action S (Unit {0})
  request_password_reset email s =
      let ignored = users.find_by_email (normalize_email crypto email) s in (ok tt, s)
