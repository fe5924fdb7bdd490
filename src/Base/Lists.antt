-- ===== src/Base/Lists.antt =====
-- Lists measured by native numbers, predicates on all their members, and the list functions
-- that a document collection is described by.
use Prim.Native.Nat.{ℕ, zero, suc, ◌+◌, ◌≤◌, ◌<◌}
use mathlib.Core.Path.{ap, ◌≡◌, refl}
use mathlib.Core.Logic.{inl, inr}
use mathlib.Core.Bool.{Bool, true, false}
use mathlib.Core.Option.{Option, none, some}
use mathlib.Core.List.{List, [], ◌∷◌, ◌++◌}
use native.Mathlib.Omega.{arith}
use native.Mathlib.Nat.{zero-add, suc-add}
use finora.Base.Tests.{Bool-cases, if◌then◌else◌}

module _ {ℓ} {A : Type ℓ} where
  abbrev pub length : List A → ℕ
  length [] = 0
  length (x ∷ xs) = suc (length xs)

  unfoldable pub take : ℕ → List A → List A
  take zero xs = []
  take (suc n) [] = []
  take (suc n) (x ∷ xs) = x ∷ take n xs

  unfoldable pub drop : ℕ → List A → List A
  drop zero xs = xs
  drop (suc n) [] = []
  drop (suc n) (x ∷ xs) = drop n xs

  abbrev pub get_elem? : List A → ℕ → Option A
  get_elem? [] i = none
  get_elem? (x ∷ xs) zero = some x
  get_elem? (x ∷ xs) (suc i) = get_elem? xs i

  -- The members that pass a test, in order.
  abbrev pub select : (A → Bool) → List A → List A
  select p [] = []
  select p (x ∷ xs) = let rest = select p xs in if p x then x ∷ rest else rest

  -- The first member that passes a test.
  abbrev pub find_first : (A → Bool) → List A → Option A
  find_first p [] = none
  find_first p (x ∷ xs) = let rest = find_first p xs in if p x then some x else rest

  -- The list with its first member that passes a test changed.
  abbrev pub update_first : (A → Bool) → (A → A) → List A → List A
  update_first p f [] = []
  update_first p f (x ∷ xs) = let rest = x ∷ update_first p f xs in if p x then f x ∷ xs else rest

  -- The list with every member that passes a test changed.
  abbrev pub update_all : (A → Bool) → (A → A) → List A → List A
  update_all p f [] = []
  update_all p f (x ∷ xs) = (if p x then f x else x) ∷ update_all p f xs

  -- The list without its first member that passes a test.
  abbrev pub delete_first : (A → Bool) → List A → List A
  delete_first p [] = []
  delete_first p (x ∷ xs) = let rest = x ∷ delete_first p xs in if p x then xs else rest

  pub length-append : (xs ys : List A) → length (xs ++ ys) ≡ length xs + length ys
  length-append [] ys = omega arith
  length-append (x ∷ xs) ys = omega (arith, length-append xs ys)

  pub length-take-le : (n : ℕ) (xs : List A) → length (take n xs) ≤ n
  unfolding take
  length-take-le zero xs = omega arith
  length-take-le (suc n) [] = omega arith
  length-take-le (suc n) (x ∷ xs) = omega (arith, length-take-le n xs)

  pub take-zero : (xs : List A) → take 0 xs ≡ []
  unfolding take
  take-zero xs = refl

  pub drop-zero : (xs : List A) → drop 0 xs ≡ xs
  unfolding drop
  drop-zero xs = refl

  pub take-nil : (n : ℕ) → take n [] ≡ []
  unfolding take
  take-nil zero = refl
  take-nil (suc n) = refl

  pub take-add : (m n : ℕ) (xs : List A) → take (m + n) xs ≡ take m xs ++ take n (drop m xs)
  unfolding take drop
  take-add zero n xs = rw zero-add
  take-add (suc m) n [] = rw (take-nil (suc m + n), take-nil n) refl
  take-add (suc m) n (x ∷ xs) = rw (suc-add m n, take-add m n xs) refl

  pub drop-add : (m n : ℕ) (xs : List A) → drop (m + n) xs ≡ drop n (drop m xs)
  unfolding drop
  drop-add zero n xs = rw zero-add
  drop-add (suc m) zero [] = rw (suc-add m zero) refl
  drop-add (suc m) (suc n) [] = rw (suc-add m (suc n)) refl
  drop-add (suc m) n (x ∷ xs) = rw (suc-add m n, drop-add m n xs) refl

  -- A list that is shorter than what was taken of it has nothing more.
  pub take-short : (m n : ℕ) (xs : List A) → length (take m xs) < m → take (m + n) xs ≡ take m xs
  unfolding take
  take-short zero n xs h = elim h [ ]
  take-short (suc m) n [] h = rw (take-nil (suc m + n)) refl
  take-short (suc m) n (x ∷ xs) h = rw (suc-add m n, take-short m n xs (omega arith)) refl

  pub take-all : (n : ℕ) (xs : List A) → length xs ≤ n → take n xs ≡ xs
  unfolding take
  take-all zero [] h = refl
  take-all zero (x ∷ xs) h = elim h [ ]
  take-all (suc n) [] h = refl
  take-all (suc n) (x ∷ xs) h = rw (take-all n xs (omega arith)) refl

  -- A member that passes is found behind those that do not.
  pub find_first-snoc :
      (p : A → Bool) (x : A) (xs : List A)
      → p x ≡ true
      → find_first p xs ≡ none
      → find_first p (xs ++ x ∷ []) ≡ some x
  find_first-snoc p x [] h lacks = rw h refl
  find_first-snoc p x (y ∷ xs) h lacks = elim (Bool-cases (p y)) [
    | inl e ↦ absurd (let wrong : some y ≡ none = (rw e at lacks) in cc)
    | inr e ↦ rw e (find_first-snoc p x xs h (rw e at lacks))
  ]

  -- A change of the first member that passes is a change of this one.
  pub update_first-found :
      (p : A → Bool) (f : A → A) (d : A) (xs : List A)
      → find_first p xs ≡ some d
      → update_first p f xs ≡ update_first p (λ _. f d) xs
  update_first-found p f d [] h = refl
  update_first-found p f d (x ∷ xs) h = elim (Bool-cases (p x)) [
    | inl e ↦ let same : some x ≡ some d = (rw e at h) in rw e (ap (λ y. f y ∷ xs) cc)
    | inr e ↦ rw e (ap (λ ys. x ∷ ys) (update_first-found p f d xs (rw e at h)))
  ]

  pub find_first-passes :
      (p : A → Bool) (xs : List A) (y : A) → find_first p xs ≡ some y → p y ≡ true
  find_first-passes p [] y h = cc
  find_first-passes p (x ∷ xs) y h = elim (Bool-cases (p x)) [
    | inl e ↦ let same : some x ≡ some y = rw e at h in let head : x ≡ y = cc in rw (← head) e
    | inr e ↦ find_first-passes p xs y (rw e at h)
  ]

module _ {ℓ κ} {A : Type ℓ} (P : A → Type κ) where
  abbrev pub All : List A → Type κ
  All [] = Unit
  All (x ∷ xs) = P x × All xs

  pub All-append : (xs ys : List A) → All xs → All ys → All (xs ++ ys)
  All-append [] ys h k = k
  All-append (x ∷ xs) ys (p, h) k = (p, All-append xs ys h k)

-- What a test sees of a list stays, when the list changes only where the test fails.
module _ {ℓ} {A : Type ℓ} (q : A → Bool) where
  pub select-append : (xs ys : List A) → select q (xs ++ ys) ≡ select q xs ++ select q ys
  select-append [] ys = refl
  select-append (x ∷ xs) ys = ground (arith, select-append xs ys)

  pub select-append_hidden :
      (xs : List A) (y : A) → q y ≡ false → select q (xs ++ y ∷ []) ≡ select q xs
  select-append_hidden [] y h = ground arith
  select-append_hidden (x ∷ xs) y h = ground (arith, select-append_hidden xs y h)

  pub select-update_first :
      (p : A → Bool) (f : A → A) (xs : List A)
      → ((x : A) → p x ≡ true → q x ≡ false)
      → ((x : A) → p x ≡ true → q (f x) ≡ false)
      → select q (update_first p f xs) ≡ select q xs
  select-update_first p f [] h k = refl
  select-update_first p f (x ∷ xs) h k = ground (arith, h x, k x, select-update_first p f xs h k)

  pub select-update_all :
      (p : A → Bool) (f : A → A) (xs : List A)
      → ((x : A) → p x ≡ true → q x ≡ false)
      → ((x : A) → p x ≡ true → q (f x) ≡ false)
      → select q (update_all p f xs) ≡ select q xs
  select-update_all p f [] h k = refl
  select-update_all p f (x ∷ xs) h k = ground (arith, h x, k x, select-update_all p f xs h k)

  pub select-delete_first :
      (p : A → Bool) (xs : List A)
      → ((x : A) → p x ≡ true → q x ≡ false)
      → select q (delete_first p xs) ≡ select q xs
  select-delete_first p [] h = refl
  select-delete_first p (x ∷ xs) h = ground (arith, h x, select-delete_first p xs h)
