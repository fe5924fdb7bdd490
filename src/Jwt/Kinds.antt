-- ===== src/Jwt/Kinds.antt =====
-- The two kinds of tokens of jwtx.go.
use finora.Base.{◌+◌, ◌<◌, ◌≡◌, refl, [], Text, ok, err}
use finora.Golang.Text.{text_eq}
use finora.Golang.Time.{Time}
use finora.Jwt.{
  numeric_date, JwtLibrary, Claims, type_access, type_refresh, wrong_type, generate_access_token,
  generate_refresh_token, parse,
}

-- A token that was signed with a secret, for whole seconds, and has not expired is read back with
-- it.
abbrev pub IsFaithful : JwtLibrary → Type 0
IsFaithful jwt =
    (secret token : Text) (c : Claims) (issued expires now : Time)
    → c.issued_at ≡ numeric_date issued
    → c.expires_at ≡ numeric_date expires
    → jwt.sign secret c ≡ ok token
    → now < c.expires_at
    → jwt.parse_with_claims secret token now ≡ ok c

module _ (jwt : JwtLibrary) (faithful : IsFaithful jwt) where
  -- An access token is read back, until it expires, with the user and the address it was made for,
  -- and is not accepted as a refresh token, even under one secret.
  pub access_token-parse :
      (secret user_id email token : Text) (ttl now later : Time)
      → generate_access_token jwt secret user_id email ttl now ≡ ok token
      → later < numeric_date (now + ttl)
      → (parse jwt secret token type_access later
          ≡ ok (record {
            user_id = user_id;
            email = email;
            type = type_access;
            jti = [];
            issued_at = numeric_date now;
            expires_at = numeric_date (now + ttl);
          }))
        × (parse jwt secret token type_refresh later ≡ err wrong_type)
  unfolding generate_access_token parse text_eq
  access_token-parse secret user_id email token ttl now later made early =
      rw (faithful secret token _ now (now + ttl) later refl refl made early, parse) (refl, refl)

  -- A refresh token is read back, until it expires, with the user and the identifier it was made
  -- for, and is not accepted as an access token, even under one secret.
  pub refresh_token-parse :
      (secret user_id jti token : Text) (ttl now later : Time)
      → generate_refresh_token jwt secret user_id jti ttl now ≡ ok token
      → later < numeric_date (now + ttl)
      → (parse jwt secret token type_refresh later
          ≡ ok (record {
            user_id = user_id;
            email = [];
            type = type_refresh;
            jti = jti;
            issued_at = numeric_date now;
            expires_at = numeric_date (now + ttl);
          }))
        × (parse jwt secret token type_access later ≡ err wrong_type)
  unfolding generate_refresh_token parse text_eq
  refresh_token-parse secret user_id jti token ttl now later made early =
      rw (faithful secret token _ now (now + ttl) later refl refl made early, parse) (refl, refl)
