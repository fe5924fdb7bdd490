-- ===== src/Mongo/Laws.antt =====
-- Collections seen through a test, before and after a write.
use finora.Base.{
  Error, not_found, ◌⊎◌, ◌==◌, ◌∙◌, Bool-cases, map_ok, ℕ, ◌≡◌, refl, sym, ap, Option, none, some,
  find_first-passes, inl, inr, Bool, true, false, List, Result, ok, err, select, arith,
  select-append_hidden, select-update_first, select-delete_first,
}
use mathlib.Core.Path.{subst}
use finora.Mongo.{Collection, IsCollection, Applied, found, matched}

-- Whether a write was applied or not, what both outcomes keep is kept.
pub Applied-keeps :
    {A D B : Type 0} (view : List D → B) (r : Result A) (old new now : List D)
    → Applied r old new now
    → view new ≡ view old
    → view now ≡ view old
Applied-keeps view (ok a) old new now h same = rw h same
Applied-keeps view (err e) old new now (inl h) same = ap view h
Applied-keeps view (err e) old new now (inr h) same = rw h same

pub found-ok :
    {D A : Type 0} (f : D → A) (r : Result (Option D)) (a : A)
    → found f r ≡ ok a
    → (d : D) × (r ≡ ok (some d)) × (f d ≡ a)
found-ok f (ok none) a h = cc
found-ok f (ok (some d)) a h = (d, refl, ground arith)
found-ok f (err e) a h = cc

-- What holds before a write and after it when it is applied, holds after it.
pub Applied-either :
    {A D : Type 0} (P : List D → Type 0) (r : Result A) (old new now : List D)
    → Applied r old new now
    → P old
    → P new
    → P now
Applied-either P (ok a) old new now h before after = subst P (sym h) after
Applied-either P (err e) old new now (inl h) before after = subst P (sym h) before
Applied-either P (err e) old new now (inr h) before after = subst P (sym h) after

-- A write that succeeds is applied.
pub Applied-ok :
    {A D : Type 0} (r : Result A) (a : A) (old new now : List D)
    → Applied r old new now
    → r ≡ ok a
    → now ≡ new
Applied-ok (ok b) a old new now h e = h
Applied-ok (err b) a old new now h e = absurd cc

-- A write seen through a test.
pub Applied-select :
    {A D : Type 0} (q : D → Bool) (r : Result A) (old new now view : List D)
    → Applied r old new now
    → select q new ≡ view
    → Applied r (select q old) view (select q now)
Applied-select q (ok a) old new now view h e = ap (select q) h ∙ e
Applied-select q (err x) old new now view (inl h) e = inl (ap (select q) h)
Applied-select q (err x) old new now view (inr h) e = inr (ap (select q) h ∙ e)

-- A write that matched nothing, and is reported as an error, is read as one that was applied.
pub Applied-matched :
    {D : Type 0} (r : Result ℕ) (old new now : List D)
    → Applied r old new now
    → Applied (matched r) old new now
Applied-matched (ok n) old new now h = elim (Bool-cases (n == 0)) [
  | inl e ↦ rw (e, matched) (inr h)
  | inr e ↦ rw (e, matched) h
]
Applied-matched (err x) old new now h = h

pub Applied-map_ok :
    {A B D : Type 0} (f : A → B) (r : Result A) (old new now : List D)
    → Applied r old new now
    → Applied (map_ok f r) old new now
Applied-map_ok f (ok a) old new now h = h
Applied-map_ok f (err x) old new now h = h

-- The cases of a query for one document.
pub found-cases :
    {D A : Type 0} (f : D → A) (r : Result (Option D))
    → ((d : D) × (r ≡ ok (some d)) × (found f r ≡ ok (f d)))
      ⊎ ((r ≡ ok none) × (found f r ≡ err not_found))
      ⊎ ((e : Error) × (r ≡ err e) × (found f r ≡ err e))
found-cases f (ok (some d)) = inl (d, refl, refl)
found-cases f (ok none) = inr (inl (refl, refl))
found-cases f (err e) = inr (inr (e, refl, refl))

pub matched-ok : (r : Result ℕ) → matched r ≡ ok tt → (n : ℕ) × (r ≡ ok n)
matched-ok (ok n) h = (n, refl)
matched-ok (err e) h = absurd cc

-- A document that `FindOne` gives passes the filter.
pub find_one-passes :
    {S D : Type 0} (c : Collection S D)
    → IsCollection c
    → (p : D → Bool) (s : S) (d : D) → c.find_one p s ≡ ok (some d)
    → p d ≡ true
find_one-passes c laws p s d h =
    find_first-passes p (c.docs s) d (sym (laws.find_one-docs p s (some d) h))

module _ {S D : Type 0} (c : Collection S D) (laws : IsCollection c) (q : D → Bool) where
  pub insert_one-hidden :
      (d : D) (s : S) → q d ≡ false → select q (c.docs (c.insert_one d s).1) ≡ select q (c.docs s)
  insert_one-hidden d s h =
      Applied-keeps (select q) _ (c.docs s) _ _ (laws.insert_one-docs d s)
        (select-append_hidden q (c.docs s) d h)

  pub update_one-hidden :
      (p : D → Bool) (f : D → D) (s : S)
      → ((d : D) → p d ≡ true → q d ≡ false)
      → ((d : D) → p d ≡ true → q (f d) ≡ false)
      → select q (c.docs (c.update_one p f s).1) ≡ select q (c.docs s)
  update_one-hidden p f s h k =
      Applied-keeps (select q) _ (c.docs s) _ _ (laws.update_one-docs p f s)
        (select-update_first q p f (c.docs s) h k)

  pub find_one_and_update-hidden :
      (p : D → Bool) (f : D → D) (s : S)
      → ((d : D) → p d ≡ true → q d ≡ false)
      → ((d : D) → p d ≡ true → q (f d) ≡ false)
      → select q (c.docs (c.find_one_and_update p f s).1) ≡ select q (c.docs s)
  find_one_and_update-hidden p f s h k =
      Applied-keeps (select q) _ (c.docs s) _ _ (laws.find_one_and_update-docs p f s)
        (select-update_first q p f (c.docs s) h k)

  pub delete_one-hidden :
      (p : D → Bool) (s : S)
      → ((d : D) → p d ≡ true → q d ≡ false)
      → select q (c.docs (c.delete_one p s).1) ≡ select q (c.docs s)
  delete_one-hidden p s h =
      Applied-keeps (select q) _ (c.docs s) _ _ (laws.delete_one-docs p s)
        (select-delete_first q p (c.docs s) h)
