-- ===== src/Jwt.antt =====
-- shared/jwtx/jwtx.go: the tokens that the user service issues and the gateway checks. Signing
-- and checking a signature are the JWT library's, which the repository does not hold: parameters.
pub mod Kinds
pub mod Tests
use finora.Base.{◌+◌, ◌*◌, ◌/◌, ◌^◌, [], Text, str, Error, failed, Result, ok, err, if◌then◌else◌}
use finora.Golang.Text.{text_eq}
use finora.Golang.Time.{Time}

abbrev pub type_access : Text
type_access = str "access"

abbrev pub type_refresh : Text
type_refresh = str "refresh"

pub record Claims : Type 0 where
  pub user_id : Text
  pub email : Text
  pub type : Text
  pub jti : Text
  pub issued_at : Time
  pub expires_at : Time

-- `SignedString` with HS256, and `ParseWithClaims` at a time, which fails on a bad signature and
-- on an expired token.
pub record JwtLibrary : Type 0 where
  pub sign : Text → Claims → Result Text
  pub parse_with_claims : Text → Text → Time → Result Claims

-- `jwt.NewNumericDate`, which keeps the whole seconds of a time.
unfoldable pub numeric_date : Time → Time
numeric_date t = t / 10 ^ 9 * 10 ^ 9

abbrev pub wrong_type : Error
wrong_type = failed (str "unexpected token type")

module _ (jwt : JwtLibrary) where
  unfoldable pub generate_access_token : Text → Text → Text → Time → Time → Result Text
  generate_access_token secret user_id email ttl now = jwt.sign secret (record {
    user_id = user_id;
    email = email;
    type = type_access;
    jti = [];
    issued_at = numeric_date now;
    expires_at = numeric_date (now + ttl);
  })

  unfoldable pub generate_refresh_token : Text → Text → Text → Time → Time → Result Text
  generate_refresh_token secret user_id jti ttl now = jwt.sign secret (record {
    user_id = user_id;
    email = [];
    type = type_refresh;
    jti = jti;
    issued_at = numeric_date now;
    expires_at = numeric_date (now + ttl);
  })

  unfoldable pub parse : Text → Text → Text → Time → Result Claims
  parse secret token expected_type now = elim (jwt.parse_with_claims secret token now) [
    | err e ↦ err e
    | ok claims ↦ if text_eq claims.type expected_type then ok claims else err wrong_type
  ]
