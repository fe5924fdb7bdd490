-- ===== src/User/Auth/Renewal.antt =====
-- `Login` and then `Refresh` of auth_service.go, over refresh_token_repository.go and jwtx.go.
use finora.Base.{◌≡◌, false, Text, ok, arith}
use finora.Golang.Time.{Time}
use finora.Jwt.{JwtLibrary, Claims, parse, type_refresh}
use finora.User.Domain.{
  User, RefreshToken, UserRepository, SettingsRepository, RefreshTokenRepository,
}
use finora.User.Auth.{Crypto, TokenConfig, Fresh, invalid_unless_ok, rotate, refresh}
use finora.User.Store.{find_by_jti_hash}

module _ {S : Type 0} (users : UserRepository S) (settings : SettingsRepository S)
    (tokens : RefreshTokenRepository S) (crypto : Crypto) (jwt : JwtLibrary)
    (config : TokenConfig) where
  -- A refresh with a token that is valid and not revoked rotates it.
  pub refresh-live :
      (later : Fresh) (token : Text) (claims : Claims) (rt : RefreshToken) (s : S)
      → parse jwt config.refresh_secret token type_refresh later.now ≡ ok claims
      → tokens.find_by_jti_hash (crypto.hash_jti claims.jti) s ≡ ok rt
      → rt.revoked ≡ false
      → refresh users settings tokens crypto jwt config later token s
        ≡ rotate users settings tokens crypto jwt config later claims rt s
  unfolding refresh invalid_unless_ok
  refresh-live later token claims rt s parsed read live = ground arith
