-- ===== src/User/Auth/Access.antt =====
-- `Login` and `Register` of auth_service.go.
use finora.Base.{◌≡◌, ◌⊎◌, inl, inr, false, Text, not_found, invalid_credentials, ok, err, arith}
use finora.Jwt.{JwtLibrary}
use finora.User.Domain.{
  User, RegisterInput, UserRepository, SettingsRepository, RefreshTokenRepository,
}
use finora.User.Auth.{Crypto, TokenConfig, Fresh, normalize_email, email_taken, register, login}

module _ {S : Type 0} (users : UserRepository S) (settings : SettingsRepository S)
    (tokens : RefreshTokenRepository S) (crypto : Crypto) (jwt : JwtLibrary)
    (config : TokenConfig) where
  -- A login with an unknown address and one with a wrong password are told the same, and neither
  -- writes anything.
  pub login-refused :
      (fresh : Fresh) (email password : Text) (s : S)
      → (users.find_by_email (normalize_email crypto email) s ≡ err not_found)
        ⊎ ((u : User) × (users.find_by_email (normalize_email crypto email) s ≡ ok u)
            × (crypto.compare_hash_and_password u.password_hash password ≡ false))
      → login users settings tokens crypto jwt config fresh email password s
        ≡ (err invalid_credentials, s)
  unfolding login
  login-refused fresh email password s (inl unknown) = ground arith
  login-refused fresh email password s (inr (u, known, wrong)) = ground arith

  -- A registration that succeeds had an address that no user had, and gives back a user under the
  -- normalized address, with the hash of the password, not the password.
  pub register-new :
      (fresh : Fresh) (input : RegisterInput) (s : S) (u : User)
      → (register users settings tokens crypto jwt config fresh input s).0 ≡ ok u
      → (users.find_by_email (normalize_email crypto input.email) s ≡ err not_found)
        × (u.email ≡ normalize_email crypto input.email)
        × (crypto.generate_from_password input.password ≡ ok u.password_hash)
  unfolding register email_taken
  register-new fresh input s u h = ground arith
