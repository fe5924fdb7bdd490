-- ===== src/Jwt/Tests.antt =====
-- A library of tokens for the tests, one that writes the claims down unsigned.
use finora.Base.{◌≡◌, refl, sym, ap, ◌∙◌, [], ◌∷◌, ◌++◌, Text, Result, ok, err, length, take, drop}
use finora.Golang.Time.{Time}
use finora.Jwt.{JwtLibrary, Claims, wrong_type}
use finora.Jwt.Kinds.{IsFaithful}

-- A text with its length before it, and the rest.
abbrev put : Text → Text → Text
put t rest = length t ∷ t ++ rest

abbrev head_of : Text → Text
head_of [] = []
head_of (n ∷ s) = take n s

abbrev rest_of : Text → Text
rest_of [] = []
rest_of (n ∷ s) = drop n s

take-append : (xs ys : Text) → take (length xs) (xs ++ ys) ≡ xs
unfolding take
take-append [] ys = refl
take-append (x ∷ xs) ys = ap (λ l. x ∷ l) (take-append xs ys)

drop-append : (xs ys : Text) → drop (length xs) (xs ++ ys) ≡ ys
unfolding drop
drop-append [] ys = refl
drop-append (x ∷ xs) ys = drop-append xs ys

abbrev pub write : Claims → Text
write c = c.issued_at ∷ c.expires_at ∷ put c.user_id (put c.email (put c.type (put c.jti [])))

abbrev read_texts : Time → Time → Text → Claims
read_texts issued expires s = record {
  user_id = head_of s;
  email = head_of (rest_of s);
  type = head_of (rest_of (rest_of s));
  jti = head_of (rest_of (rest_of (rest_of s)));
  issued_at = issued;
  expires_at = expires;
}

abbrev read : Text → Result Claims
read (issued ∷ expires ∷ s) = ok (read_texts issued expires s)
read _ = err wrong_type

abbrev pub unsigned : JwtLibrary
unsigned = record {
  sign = λ secret c. ok (write c);
  parse_with_claims = λ secret token now. read token;
}

read-write : (c : Claims) → read (write c) ≡ ok c
read-write c =
    rw
      (
        take-append c.user_id _,
        drop-append c.user_id _,
        take-append c.email _,
        drop-append c.email _,
        take-append c.type _,
        drop-append c.type _,
        take-append c.jti _,
      )
      refl

pub unsigned-IsFaithful : IsFaithful unsigned
unsigned-IsFaithful secret token c issued expires now from until signed early =
    let same : write c ≡ token = cc in ap read (sym same) ∙ read-write c
