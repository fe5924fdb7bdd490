-- ===== src/Base/Effects.antt =====
-- How a Go method is read: it takes the state of the databases and gives back a value or an
-- error, with the state it leaves. Texts are Go strings, that is lists of bytes.
use Prim.Native.Nat.{ℕ}
use Prim.Native.Char.{code}
use Prim.Native.String.{String}
use mathlib.Core.Path.{◌≡◌, refl}
use mathlib.Core.Option.{Option, none, some}
use mathlib.Core.List.{List, [], ◌∷◌}

abbrev pub Text : Type 0
Text = List ℕ

-- The bytes of an ASCII literal.
abbrev pub str : String → Text
str String.[] = []
str (String.◌∷◌ c s) = code c ∷ str s

-- `failed` is any error that the services do not tell apart, with its text.
pub data Error : Type 0 where
  validation : Text → Text → Error
  not_found : Error
  duplicate_email : Error
  invalid_credentials : Error
  invalid_token : Error
  failed : Text → Error

pub data Result (A : Type 0) : Type 0 where
  ok : A → Result A
  err : Error → Result A

abbrev pub Action : Type 0 → Type 0 → Type 0
Action S A = S → Result A × S

infixl 5 ◌>>=◌ ◌>>◌
abbrev pub ◌>>=◌ : {S A B : Type 0} → Action S A → (A → Action S B) → Action S B
◌>>=◌ m f s = let (r, s') = m s in elim r [ ok a ↦ f a s' | err e ↦ (err e, s') ]

abbrev pub ◌>>◌ : {S A B : Type 0} → Action S A → Action S B → Action S B
m >> k = m >>= λ _. k

module _ {S : Type 0} where
  abbrev pub pure : {A : Type 0} → A → Action S A
  pure a s = (ok a, s)

  -- A read: the state stays.
  abbrev pub reads : {A : Type 0} → (S → Result A) → Action S A
  reads r s = (r s, s)

  -- `if err != nil { return err }`
  abbrev pub check : Option Error → Action S (Unit {0})
  check none s = (ok tt, s)
  check (some e) s = (err e, s)

abbrev pub map_ok : {A B : Type 0} → (A → B) → Result A → Result B
map_ok f (ok a) = ok (f a)
map_ok f (err e) = err e

-- `if err == ErrNotFound { return e }; return err`
abbrev pub replace_not_found : {A : Type 0} → Error → Result A → Result A
replace_not_found e (ok a) = ok a
replace_not_found e (err not_found) = err e
replace_not_found e (err other) = err other

pub replace_not_found-ok :
    {A : Type 0} (e : Error) (r : Result A) (a : A) → replace_not_found e r ≡ ok a → r ≡ ok a
replace_not_found-ok e (ok b) a h = h
replace_not_found-ok e (err (validation f m)) a h = absurd cc
replace_not_found-ok e (err not_found) a h = absurd cc
replace_not_found-ok e (err duplicate_email) a h = absurd cc
replace_not_found-ok e (err invalid_credentials) a h = absurd cc
replace_not_found-ok e (err invalid_token) a h = absurd cc
replace_not_found-ok e (err (failed m)) a h = absurd cc

-- To split on a result and keep the equation.
pub data Outcome {A : Type 0} (r : Result A) : Type 0 where
  success : (a : A) → r ≡ ok a → Outcome r
  failure : (e : Error) → r ≡ err e → Outcome r

pub outcome : {A : Type 0} (r : Result A) → Outcome r
outcome (ok a) = success a refl
outcome (err e) = failure e refl

-- What an action leaves and the next one keeps, the two together leave.
pub then-keeps :
    {S A B : Type 0} (P : S → Type 0) (m : Action S B) (k : Action S A) (s : S)
    → P (m s).1
    → ((s' : S) → P s' → P (k s').1)
    → P ((m >> k) s).1
then-keeps P m k s left keeps = elim (outcome (m s).0) [
  | success b e ↦ rw (◌>>◌, ◌>>=◌, e) (keeps (m s).1 left)
  | failure e bad ↦ rw (◌>>◌, ◌>>=◌, bad) left
]

-- A write followed by an answer: the error of the write, or the answer.
pub then_pure :
    {S A B : Type 0} (m : Action S B) (a : A) (s : S)
    → (m >> pure a) s ≡ (map_ok (λ _. a) (m s).0, (m s).1)
then_pure m a s = elim (outcome (m s).0) [
  | success b e ↦ rw (◌>>◌, ◌>>=◌, e) refl
  | failure e bad ↦ rw (◌>>◌, ◌>>=◌, bad) refl
]

pub map_ok-ok :
    {A B : Type 0} (f : A → B) (r : Result A) (b : B)
    → map_ok f r ≡ ok b
    → (a : A) × (r ≡ ok a) × (b ≡ f a)
map_ok-ok f (ok a) b h = (a, refl, cc)
map_ok-ok f (err e) b h = absurd cc

-- An error that the services do not tell apart, as the driver's are.
abbrev pub IsFailed : Error → Type 0
IsFailed e = (m : Text) × (e ≡ failed m)
