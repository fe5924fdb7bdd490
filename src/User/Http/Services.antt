-- ===== src/User/Http/Services.antt =====
-- services/user-service/internal/domain/service.go: the interfaces of the services, which the
-- handlers call, and the services that fill them.
use finora.Base.{Bool, Text, Result, Action}
use finora.Golang.Time.{Time}
use finora.Jwt.{JwtLibrary}
use finora.User.Domain.{
  User, Settings, RegisterInput, LoginResult, UpdateSettingsInput, UserRepository,
  SettingsRepository, RefreshTokenRepository,
}
use finora.User.Auth
use finora.User.Auth.{Crypto, Fresh, TokenConfig}
use finora.User.Profile

pub record AuthService (S : Type 0) : Type 0 where
  pub register : RegisterInput → Action S User
  pub login : Text → Text → Action S LoginResult
  pub refresh : Text → Action S LoginResult
  pub logout : Text → Action S (Unit {0})
  pub request_password_reset : Text → Action S (Unit {0})

pub record UserService (S : Type 0) : Type 0 where
  pub get_profile : Text → S → Result User
  pub update_profile : Text → Text → Action S User
  pub get_settings : Text → S → Result Settings
  pub update_settings : Text → UpdateSettingsInput → Action S Settings

-- `NewAuthService` and `NewUserService`, for one call.
abbrev pub auth_service :
    {S : Type 0}
    → UserRepository S
    → SettingsRepository S
    → RefreshTokenRepository S
    → Crypto
    → JwtLibrary
    → TokenConfig
    → Fresh
    → AuthService S
auth_service users settings tokens crypto jwt config fresh = record {
  register = Auth.register users settings tokens crypto jwt config fresh;
  login = Auth.login users settings tokens crypto jwt config fresh;
  refresh = Auth.refresh users settings tokens crypto jwt config fresh;
  logout = Auth.logout users settings tokens crypto jwt config fresh.now;
  request_password_reset = Auth.request_password_reset users settings tokens crypto jwt config;
}

abbrev pub user_service :
    {S : Type 0} → UserRepository S → SettingsRepository S → (Text → Bool) → Time → UserService S
user_service users settings load_location now = record {
  get_profile = Profile.get_profile users settings load_location now;
  update_profile = Profile.update_profile users settings load_location now;
  get_settings = Profile.get_settings users settings load_location now;
  update_settings = Profile.update_settings users settings load_location now;
}
