-- ===== src/Mongo.antt =====
-- The MongoDB driver, which the repository does not hold: a collection of documents `D` in the
-- databases `S`, with the operations that the services call, as parameters. A filter is read as
-- the test that it puts to a document, a `$set` as the function that it applies.
pub mod Laws
pub mod Memory
pub mod Owned
use finora.Base.{
  All, ◌≤◌, ℕ, ◌≡◌, ◌⊎◌, Bool, true, false, List, [], ◌∷◌, ◌++◌, Option, none, some, Text, Error,
  not_found, ◌==◌, ◌*◌, ◌/◌, ◌^◌, if◌then◌else◌, Result, ok, err, Action, select, find_first,
  update_first, update_all, delete_first, length, take, drop,
}
use mathlib.Core.List.{Permᴰ}
use finora.Golang.Float.Int.{ℤ, pos}
use finora.Golang.Time.{Time}

-- What a BSON date keeps of a time, that is its whole milliseconds.
unfoldable pub bson_date : Time → Time
bson_date t = t / 10 ^ 6 * 10 ^ 6

-- A filtered, sorted and cut query: how far to skip, and how many documents to give at most. The
-- server refuses to skip a negative number.
pub record Cut : Type 0 where
  pub skip : ℤ
  pub limit : ℕ

pub record Collection (S D : Type 0) : Type 0 where
  -- The documents in the collection.
  pub docs : S → List D
  pub insert_one : D → Action S (Unit {0})
  -- `none` is `ErrNoDocuments`.
  pub find_one : (D → Bool) → S → Result (Option D)
  pub find : (D → Bool) → S → Result (List D)
  -- Sorted by the number given for a document, greatest first, and cut.
  pub find_sorted : (D → Bool) → (D → ℕ) → Cut → S → Result (List D)
  -- Sorted in the same way, and not cut.
  pub find_all_sorted : (D → Bool) → (D → ℕ) → S → Result (List D)
  pub count_documents : (D → Bool) → S → Result ℕ
  -- These give back how many documents matched.
  pub update_one : (D → Bool) → (D → D) → Action S ℕ
  pub update_many : (D → Bool) → (D → D) → Action S ℕ
  pub delete_one : (D → Bool) → Action S ℕ
  -- Gives the updated document back, `none` if no document matched.
  pub find_one_and_update : (D → Bool) → (D → D) → Action S (Option D)
  -- Replaces the first match, or inserts the document where there is none.
  pub replace_upsert : (D → Bool) → D → Action S (Unit {0})
  -- Replaces the first match only; gives back how many documents matched.
  pub replace_one : (D → Bool) → D → Action S ℕ

-- A write that succeeds is applied, one that fails may have been applied or not: a change of one
-- document is atomic.
abbrev pub Applied : {A D : Type 0} → Result A → List D → List D → List D → Type 0
Applied (ok _) old new now = now ≡ new
Applied (err _) old new now = (now ≡ old) ⊎ (now ≡ new)

abbrev pub upsert_first : {D : Type 0} → (D → Bool) → D → List D → List D
upsert_first p d docs = elim (find_first p docs) [
  | none ↦ docs ++ d ∷ []
  | some _ ↦ update_first p (λ _. d) docs
]

-- Greatest first, by the number given for a member.
abbrev pub Descending : {D : Type 0} → (D → ℕ) → List D → Type 0
Descending by [] = Unit
Descending by (d ∷ docs) = All (λ e. by e ≤ by d) docs × Descending by docs

-- A list of which some members that pass a test were changed.
abbrev pub Partly : {D : Type 0} → (D → Bool) → (D → D) → List D → List D → Type 0
Partly p f [] [] = Unit
Partly p f [] (e ∷ now) = true ≡ false
Partly p f (d ∷ old) [] = true ≡ false
Partly p f (d ∷ old) (e ∷ now) = ((e ≡ d) ⊎ ((p d ≡ true) × (e ≡ f d))) × Partly p f old now

-- What the driver's documentation says of these operations.
pub record IsCollection {S D : Type 0} (c : Collection S D) : Type 0 where
  pub insert_one-docs :
      (d : D) (s : S)
      → Applied (c.insert_one d s).0 (c.docs s) (c.docs s ++ d ∷ []) (c.docs (c.insert_one d s).1)
  pub find_one-docs :
      (p : D → Bool) (s : S) (o : Option D) → c.find_one p s ≡ ok o → o ≡ find_first p (c.docs s)
  pub find-docs : (p : D → Bool) (s : S) (l : List D) → c.find p s ≡ ok l → l ≡ select p (c.docs s)
  pub count_documents-docs :
      (p : D → Bool) (s : S) (n : ℕ)
      → c.count_documents p s ≡ ok n
      → n ≡ length (select p (c.docs s))
  pub find_sorted-docs :
      (p : D → Bool) (by : D → ℕ) (cut : Cut) (s : S) (l : List D)
      → c.find_sorted p by cut s ≡ ok l
      → (sorted : List D) × Permᴰ sorted (select p (c.docs s))
        × (skip : ℕ) × (cut.skip ≡ pos skip)
        × (l ≡ take cut.limit (drop skip sorted))
  pub find_all_sorted-docs :
      (p : D → Bool) (by : D → ℕ) (s : S) (l : List D)
      → c.find_all_sorted p by s ≡ ok l
      → Permᴰ l (select p (c.docs s)) × Descending by l
  pub update_one-docs :
      (p : D → Bool) (f : D → D) (s : S)
      → Applied
          (c.update_one p f s).0
          (c.docs s)
          (update_first p f (c.docs s))
          (c.docs (c.update_one p f s).1)
  pub update_one-matched :
      (p : D → Bool) (f : D → D) (s : S) (n : ℕ)
      → (c.update_one p f s).0 ≡ ok n
      → (n ≡ 0) ⊎ ((d : D) × (find_first p (c.docs s) ≡ some d))
  pub update_many-docs :
      (p : D → Bool) (f : D → D) (s : S) (n : ℕ)
      → (c.update_many p f s).0 ≡ ok n
      → c.docs (c.update_many p f s).1 ≡ update_all p f (c.docs s)
  -- An update of many documents is not atomic: where it fails, some may have been changed.
  pub update_many-partly :
      (p : D → Bool) (f : D → D) (s : S) → Partly p f (c.docs s) (c.docs (c.update_many p f s).1)
  pub delete_one-docs :
      (p : D → Bool) (s : S)
      → Applied
          (c.delete_one p s).0
          (c.docs s)
          (delete_first p (c.docs s))
          (c.docs (c.delete_one p s).1)
  pub find_one_and_update-docs :
      (p : D → Bool) (f : D → D) (s : S)
      → Applied
          (c.find_one_and_update p f s).0
          (c.docs s)
          (update_first p f (c.docs s))
          (c.docs (c.find_one_and_update p f s).1)
  pub replace_upsert-docs :
      (p : D → Bool) (d : D) (s : S)
      → Applied
          (c.replace_upsert p d s).0
          (c.docs s)
          (upsert_first p d (c.docs s))
          (c.docs (c.replace_upsert p d s).1)
  pub replace_one-docs :
      (p : D → Bool) (d : D) (s : S)
      → Applied
          (c.replace_one p d s).0
          (c.docs s)
          (update_first p (λ _. d) (c.docs s))
          (c.docs (c.replace_one p d s).1)
  pub replace_one-matched :
      (p : D → Bool) (d : D) (s : S) (n : ℕ)
      → (c.replace_one p d s).0 ≡ ok n
      → (n ≡ 0) ⊎ ((e : D) × (find_first p (c.docs s) ≡ some e))

-- The answer of a repository to a count of matches: `ErrNotFound` where it is 0.
abbrev pub matched : Result ℕ → Result (Unit {0})
matched (err e) = err e
matched (ok n) = if n == 0 then err not_found else ok tt

-- The answer to a query for one document, `ErrNotFound` where there is none.
abbrev pub found : {D A : Type 0} → (D → A) → Result (Option D) → Result A
found f (err e) = err e
found f (ok none) = err not_found
found f (ok (some d)) = ok (f d)

-- The package `primitive`: object ids, and their hexadecimal form.
pub record ObjectIds (O : Type 0) : Type 0 where
  pub from_hex : Text → Option O
  pub hex : O → Text
  pub id_eq : O → O → Bool
  pub from_hex-hex : (o : O) → from_hex (hex o) ≡ some o
  pub id_eq_iff : (a b : O) → id_eq a b ≡ Bool.true → a ≡ b
  pub id_eq-refl : (a : O) → id_eq a a ≡ Bool.true
