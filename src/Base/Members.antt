-- ===== src/Base/Members.antt =====
-- Predicates that hold of every member of a list, through the functions on lists.
use Prim.Native.Nat.{ℕ, zero, suc}
use mathlib.Core.Path.{◌≡◌, refl, sym, subst}
use mathlib.Core.Logic.{inl, inr}
use mathlib.Core.Bool.{Bool, true}
use mathlib.Core.List.{List, [], ◌∷◌, map, Permᴰ}
use native.Mathlib.Omega.{arith}
use finora.Base.Tests.{Bool-cases}
use finora.Base.Lists.{All, length, take, drop, select, update_first}

pub All-select :
    {A : Type 0} (P : A → Type 0) (q : A → Bool) (xs : List A) → All P xs → All P (select q xs)
All-select P q [] h = tt
All-select P q (x ∷ xs) (p, h) = elim (Bool-cases (q x)) [
  | inl e ↦ rw e (p, All-select P q xs h)
  | inr e ↦ rw e (All-select P q xs h)
]

pub All-update_first :
    {A : Type 0} (P : A → Type 0) (p : A → Bool) (f : A → A) (xs : List A)
    → All (λ x. p x ≡ true → P (f x)) xs
    → All P xs
    → All P (update_first p f xs)
All-update_first P p f [] h k = tt
All-update_first P p f (x ∷ xs) (here, h) (px, k) = elim (Bool-cases (p x)) [
  | inl e ↦ rw e (here e, k)
  | inr e ↦ rw e (px, All-update_first P p f xs h k)
]

pub All-take : {A : Type 0} (P : A → Type 0) (n : ℕ) (xs : List A) → All P xs → All P (take n xs)
unfolding take
All-take P zero xs h = tt
All-take P (suc n) [] h = tt
All-take P (suc n) (x ∷ xs) (p, h) = (p, All-take P n xs h)

pub All-drop : {A : Type 0} (P : A → Type 0) (n : ℕ) (xs : List A) → All P xs → All P (drop n xs)
unfolding drop
All-drop P zero xs h = h
All-drop P (suc n) [] h = tt
All-drop P (suc n) (x ∷ xs) (p, h) = All-drop P n xs h

pub All-select_passes :
    {A : Type 0} (q : A → Bool) (xs : List A) → All (λ x. q x ≡ true) (select q xs)
All-select_passes q [] = tt
All-select_passes q (x ∷ xs) = elim (Bool-cases (q x)) [
  | inl e ↦ rw e (e, All-select_passes q xs)
  | inr e ↦ rw e (All-select_passes q xs)
]

pub All-map :
    {A B : Type 0} (P : B → Type 0) (f : A → B) (xs : List A)
    → All (λ x. P (f x)) xs
    → All P (map f xs)
All-map P f [] h = tt
All-map P f (x ∷ xs) (p, h) = (p, All-map P f xs h)

pub All-weaken :
    {A : Type 0} (P Q : A → Type 0) → ((x : A) → P x → Q x) → (xs : List A) → All P xs → All Q xs
All-weaken P Q f [] h = tt
All-weaken P Q f (x ∷ xs) (p, h) = (f x p, All-weaken P Q f xs h)

pub length-map : {A B : Type 0} (f : A → B) (xs : List A) → length (map f xs) ≡ length xs
length-map f [] = refl
length-map f (x ∷ xs) = omega (arith, length-map f xs)

pub All-Perm : {A : Type 0} (P : A → Type 0) {xs ys : List A} → Permᴰ xs ys → All P ys → All P xs
All-Perm P Permᴰ.nil k = tt
All-Perm P (Permᴰ.cons e h) (p, k) = (subst P (sym e) p, All-Perm P h k)
All-Perm P (Permᴰ.swap e d) (p, (q, k)) = (subst P (sym e) q, (subst P (sym d) p, k))
All-Perm P (Permᴰ.trans h g) k = All-Perm P h (All-Perm P g k)
