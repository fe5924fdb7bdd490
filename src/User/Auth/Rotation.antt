-- ===== src/User/Auth/Rotation.antt =====
-- The steps of `Refresh` of auth_service.go, over any repositories.
use finora.Base.{◌≡◌, true, false, Text, invalid_token, ok, err, outcome, success, failure, arith}
use finora.Golang.Time.{Time}
use finora.Jwt.{JwtLibrary, Claims, parse, type_refresh}
use finora.User.Domain.{
  RefreshToken, LoginResult, UserRepository, SettingsRepository, RefreshTokenRepository,
}
use finora.User.Auth.{
  Crypto, TokenConfig, Fresh, invalid_unless_ok, new_token, issue_token_pair, rotate, contain,
  refresh,
}

-- What a token says does not depend on when it is read.
abbrev pub IsSigned : JwtLibrary → Type 0
IsSigned jwt =
    (secret token : Text) (t u : Time) (c d : Claims)
    → jwt.parse_with_claims secret token t ≡ ok c
    → jwt.parse_with_claims secret token u ≡ ok d
    → c ≡ d

module _ {S : Type 0} (users : UserRepository S) (settings : SettingsRepository S)
    (tokens : RefreshTokenRepository S) (crypto : Crypto) (jwt : JwtLibrary) (config : TokenConfig)
    (fresh : Fresh) (token : Text) (s : S) where
  pub refresh-contain :
      (claims : Claims) (rt : RefreshToken)
      → parse jwt config.refresh_secret token type_refresh fresh.now ≡ ok claims
      → tokens.find_by_jti_hash (crypto.hash_jti claims.jti) s ≡ ok rt
      → rt.revoked ≡ true
      → refresh users settings tokens crypto jwt config fresh token s
        ≡ contain users settings tokens crypto jwt config rt s
  unfolding refresh invalid_unless_ok
  refresh-contain claims rt parsed read told = ground arith

  pub contain-revoked :
      (rt : RefreshToken)
      → (tokens.revoke_all_for_user rt.user_id s).0 ≡ ok tt
      → contain users settings tokens crypto jwt config rt s
        ≡ (err invalid_token, (tokens.revoke_all_for_user rt.user_id s).1)
  unfolding contain
  contain-revoked rt revoked = ground arith

  -- A refresh that succeeds found a token that was not revoked, and rotated it.
  pub refresh-rotate :
      (r : LoginResult)
      → (refresh users settings tokens crypto jwt config fresh token s).0 ≡ ok r
      → (claims : Claims) × (rt : RefreshToken) × (parse jwt config.refresh_secret token
            type_refresh fresh.now
          ≡ ok claims)
        × (tokens.find_by_jti_hash (crypto.hash_jti claims.jti) s ≡ ok rt)
        × (rt.revoked ≡ false)
        × (refresh users settings tokens crypto jwt config fresh token s
            ≡ rotate users settings tokens crypto jwt config fresh claims rt s)
  unfolding refresh invalid_unless_ok contain
  refresh-rotate r h =
      elim (outcome (parse jwt config.refresh_secret token type_refresh fresh.now)) [
        | failure e bad ↦ absurd (ground arith)
        | success claims parsed ↦
            elim (outcome (tokens.find_by_jti_hash (crypto.hash_jti claims.jti) s)) [
              | failure e bad ↦ absurd (ground arith)
              | success rt read ↦ (claims, rt, parsed, read, ground arith, ground arith)
            ]
      ]

  -- A rotation that succeeds revoked the token, and then stored the new one.
  pub rotate-state :
      (claims : Claims) (rt : RefreshToken) (r : LoginResult)
      → (rotate users settings tokens crypto jwt config fresh claims rt s).0 ≡ ok r
      → (new : RefreshToken) × ((tokens.revoke rt.id s).0 ≡ ok tt)
        × ((tokens.create new (tokens.revoke rt.id s).1).0 ≡ ok tt)
        × ((rotate users settings tokens crypto jwt config fresh claims rt s).1
            ≡ (tokens.create new (tokens.revoke rt.id s).1).1)
  unfolding rotate issue_token_pair
  rotate-state claims rt r h = elim (outcome (users.find_by_id claims.user_id s)) [
    | failure e bad ↦ absurd (ground arith)
    | success u read ↦ (
      new_token users settings tokens crypto jwt config fresh u,
      ground arith,
      ground arith,
      ground arith,
    )
  ]

pub parse-same :
    (jwt : JwtLibrary)
    → IsSigned jwt
    → (secret token type : Text) (t u : Time) (c d : Claims) → parse jwt secret token type t ≡ ok c
    → parse jwt secret token type u ≡ ok d
    → c ≡ d
unfolding parse
parse-same jwt signed secret token type t u c d h k =
    elim (outcome (jwt.parse_with_claims secret token t)) [
      | failure e bad ↦ absurd (ground arith)
      | success c' read ↦ elim (outcome (jwt.parse_with_claims secret token u)) [
        | failure e bad ↦ absurd (ground arith)
        | success d' again ↦ ground (arith, signed secret token t u c' d' read again)
      ]
    ]
