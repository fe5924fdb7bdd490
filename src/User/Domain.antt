-- ===== src/User/Domain.antt =====
-- services/user-service/internal/domain: users, settings, refresh tokens and the repositories.
use finora.Base.{Bool, Text, Result, Action}
use finora.Golang.Time.{Time}

pub record User : Type 0 where
  pub id : Text
  pub email : Text
  pub password_hash : Text
  pub name : Text
  pub created_at : Time
  pub updated_at : Time

pub record Settings : Type 0 where
  pub user_id : Text
  pub currency : Text
  pub timezone : Text
  pub updated_at : Time

pub record RefreshToken : Type 0 where
  pub id : Text
  pub user_id : Text
  pub jti_hash : Text
  pub expires_at : Time
  pub revoked : Bool
  pub created_at : Time

pub record RegisterInput : Type 0 where
  pub email : Text
  pub password : Text
  pub name : Text

pub record LoginResult : Type 0 where
  pub access_token : Text
  pub refresh_token : Text
  pub user : User

pub record UpdateSettingsInput : Type 0 where
  pub currency : Text
  pub timezone : Text

pub record UserRepository (S : Type 0) : Type 0 where
  pub create : User → Action S (Unit {0})
  pub find_by_email : Text → S → Result User
  pub find_by_id : Text → S → Result User
  pub update : User → Action S (Unit {0})

pub record SettingsRepository (S : Type 0) : Type 0 where
  pub find_by_user_id : Text → S → Result Settings
  pub upsert : Settings → Action S (Unit {0})

pub record RefreshTokenRepository (S : Type 0) : Type 0 where
  pub create : RefreshToken → Action S (Unit {0})
  pub find_by_jti_hash : Text → S → Result RefreshToken
  pub revoke : Text → Action S (Unit {0})
  pub revoke_all_for_user : Text → Action S (Unit {0})
