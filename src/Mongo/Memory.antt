-- ===== src/Mongo/Memory.antt =====
-- A collection that is a list in memory, beside any other data: the driver's operations as they
-- are documented, to run the services on.
use finora.Base.{
  Bool, err, failed, str, Result, All-weaken, All-Perm, Bool-cases, leb, ◌≤◌, arith, if◌then◌else◌,
  ℕ, ◌≡◌, refl, ◌⊎◌, inl, inr, List, [], ◌∷◌, ◌++◌, Option, none, some, Text, ok, select,
  find_first, update_first, update_all, delete_first, length, take, drop,
}
use finora.Golang.Float.Int.{ℤ, pos, negsuc}
use mathlib.Core.List.{Permᴰ}
use mathlib.Core.List.Permᴰ
use finora.Golang.Text.{text_eq}
use finora.Golang.Text.Laws.{text_eq_refl, eq_of_text_eq}
use finora.Mongo.{Collection, Descending, IsCollection, ObjectIds, Partly, upsert_first}

-- Whether there was a match, as a number.
abbrev count_of : {D : Type 0} → Option D → ℕ
count_of none = 0
count_of (some _) = 1

-- A list sorted by insertion, greatest first.
abbrev insert_by : {D : Type 0} → (D → ℕ) → D → List D → List D
insert_by by d [] = d ∷ []
insert_by by d (e ∷ docs) =
    let rest = e ∷ insert_by by d docs in if leb (by e) (by d) then d ∷ e ∷ docs else rest

abbrev sort_by : {D : Type 0} → (D → ℕ) → List D → List D
sort_by by [] = []
sort_by by (d ∷ docs) = insert_by by d (sort_by by docs)

abbrev cut_to : {D : Type 0} → ℤ → ℕ → List D → Result (List D)
cut_to (pos n) limit docs = ok (take limit (drop n docs))
cut_to (negsuc n) limit docs = err (failed (str "the skip must not be negative"))

cut_to-ok :
    {D : Type 0} (skip : ℤ) (limit : ℕ) (docs l : List D)
    → cut_to skip limit docs ≡ ok l
    → (n : ℕ) × (skip ≡ pos n) × (l ≡ take limit (drop n docs))
cut_to-ok (pos n) limit docs l h = (n, refl, cc)
cut_to-ok (negsuc n) limit docs l h = absurd cc

abbrev pub memory : {D B : Type 0} → Collection (List D × B) D
memory = record {
  docs = λ s. s.0;
  insert_one = λ d s. (ok tt, (s.0 ++ d ∷ [], s.1));
  find_one = λ p s. ok (find_first p s.0);
  find = λ p s. ok (select p s.0);
  find_sorted = λ p by cut s. cut_to cut.skip cut.limit (select p s.0);
  find_all_sorted = λ p by s. ok (sort_by by (select p s.0));
  count_documents = λ p s. ok (length (select p s.0));
  update_one = λ p f s. (ok (count_of (find_first p s.0)), (update_first p f s.0, s.1));
  update_many = λ p f s. (ok (length (select p s.0)), (update_all p f s.0, s.1));
  delete_one = λ p s. (ok (count_of (find_first p s.0)), (delete_first p s.0, s.1));
  find_one_and_update =
      λ p f s. (ok (find_first p (update_first p f s.0)), (update_first p f s.0, s.1));
  replace_upsert = λ p d s. (ok tt, (upsert_first p d s.0, s.1));
  replace_one = λ p d s. (ok (count_of (find_first p s.0)), (update_first p (λ _. d) s.0, s.1));
}

insert_by-Perm :
    {D : Type 0} (by : D → ℕ) (d : D) (docs : List D) → Permᴰ (insert_by by d docs) (d ∷ docs)
insert_by-Perm by d [] = Permᴰ.refl _
insert_by-Perm by d (e ∷ docs) = elim (Bool-cases (leb (by e) (by d))) [
  | inl h ↦ rw h (Permᴰ.refl _)
  | inr h ↦ rw h (Permᴰ.trans (Permᴰ.cons refl (insert_by-Perm by d docs)) (Permᴰ.swap refl refl))
]

sort_by-Perm : {D : Type 0} (by : D → ℕ) (docs : List D) → Permᴰ (sort_by by docs) docs
sort_by-Perm by [] = Permᴰ.nil
sort_by-Perm by (d ∷ docs) =
    Permᴰ.trans (insert_by-Perm by d (sort_by by docs)) (Permᴰ.cons refl (sort_by-Perm by docs))

insert_by-Descending :
    {D : Type 0} (by : D → ℕ) (d : D) (docs : List D)
    → Descending by docs
    → Descending by (insert_by by d docs)
insert_by-Descending by d [] h = (tt, tt)
insert_by-Descending by d (e ∷ docs) (top, h) = elim (Bool-cases (leb (by e) (by d))) [
  | inl small ↦
      let below : by e ≤ by d = ground arith in
      rw small (
        (below, All-weaken (λ x. by x ≤ by e) (λ x. by x ≤ by d) (λ x le. omega arith) docs top),
        (top, h),
      )
  | inr large ↦
      let above : by d ≤ by e = ground arith in
      rw large (
        All-Perm (λ x. by x ≤ by e) (insert_by-Perm by d docs) (above, top),
        insert_by-Descending by d docs h,
      )
]

sort_by-Descending : {D : Type 0} (by : D → ℕ) (docs : List D) → Descending by (sort_by by docs)
sort_by-Descending by [] = tt
sort_by-Descending by (d ∷ docs) = insert_by-Descending by d _ (sort_by-Descending by docs)

-- Sorting keeps the members.
found_sorted :
    {D : Type 0} (by : D → ℕ) (docs l : List D)
    → l ≡ sort_by by docs
    → Permᴰ l docs × Descending by l
found_sorted by docs l h = rw h (sort_by-Perm by docs, sort_by-Descending by docs)

update_all-Partly :
    {D : Type 0} (p : D → Bool) (f : D → D) (docs : List D) → Partly p f docs (update_all p f docs)
update_all-Partly p f [] = tt
update_all-Partly p f (d ∷ docs) = elim (Bool-cases (p d)) [
  | inl e ↦ rw e (inr (refl, refl), update_all-Partly p f docs)
  | inr e ↦ rw e (inl refl, update_all-Partly p f docs)
]

ok_inj : {A : Type 0} (a b : A) → ok a ≡ ok b → b ≡ a
ok_inj a b h = cc

count-matched :
    {D : Type 0} (o : Option D) (n : ℕ)
    → ok (count_of o) ≡ ok n
    → (n ≡ 0) ⊎ ((d : D) × (o ≡ some d))
count-matched none n h = inl (ok_inj 0 n h)
count-matched (some d) n h = inr (d, refl)

pub memory-IsCollection : {D B : Type 0} → IsCollection (memory {D = D} {B = B})
memory-IsCollection = record {
  insert_one-docs = λ d s. refl;
  find_one-docs = λ p s o h. ok_inj _ _ h;
  find-docs = λ p s l h. ok_inj _ _ h;
  count_documents-docs = λ p s n h. ok_inj _ _ h;
  find_sorted-docs = λ p by cut s l h.
      let (n, same, given) = cut_to-ok cut.skip cut.limit (select p s.0) l h in
      (select p s.0, Permᴰ.refl _, n, same, given);
  find_all_sorted-docs = λ p by s l h. found_sorted by (select p s.0) l (ok_inj _ _ h);
  update_one-docs = λ p f s. refl;
  update_one-matched = λ p f s n h. count-matched (find_first p s.0) n h;
  update_many-docs = λ p f s n h. refl;
  update_many-partly = λ p f s. update_all-Partly p f s.0;
  delete_one-docs = λ p s. refl;
  find_one_and_update-docs = λ p f s. refl;
  replace_upsert-docs = λ p d s. refl;
  replace_one-docs = λ p d s. refl;
  replace_one-matched = λ p d s n h. count-matched (find_first p s.0) n h;
}

-- Object ids that are their own hexadecimal form.
abbrev pub text_ids : ObjectIds Text
text_ids = record {
  from_hex = some;
  hex = λ o. o;
  id_eq = text_eq;
  from_hex-hex = λ o. refl;
  id_eq_iff = eq_of_text_eq;
  id_eq-refl = text_eq_refl;
}
