-- ===== src/Golang/Text/Laws.antt =====
-- Comparing texts, and taking a prefix off.
use finora.Base.{
  ◌≡◌, ◌≢◌, refl, sym, ◌∙◌, inl, inr, false, Bool-cases, ◌↔◌, true, [], ◌∷◌, ◌++◌, arith, Text,
  length, drop,
}
use finora.Golang.Text.{text_eq, has_prefix}

pub text_eq_refl : (s : Text) → text_eq s s ≡ true
unfolding text_eq
text_eq_refl [] = refl
text_eq_refl (x ∷ s) = ground (arith, text_eq_refl s)

pub eq_of_text_eq : (s t : Text) → text_eq s t ≡ true → s ≡ t
unfolding text_eq
eq_of_text_eq [] [] h = refl
eq_of_text_eq (x ∷ s) (y ∷ t) h = ground (arith, eq_of_text_eq s t)
eq_of_text_eq [] (y ∷ t) h = cc
eq_of_text_eq (x ∷ s) [] h = cc

pub text_eq_iff : (s t : Text) → (text_eq s t ≡ true) ↔ (s ≡ t)
text_eq_iff s t = (eq_of_text_eq s t, λ e. ground (arith, text_eq_refl s))

-- A prefix, and the text after it.
pub has_prefix-append : (p s : Text) → has_prefix (p ++ s) p ≡ true
unfolding has_prefix
has_prefix-append [] s = refl
has_prefix-append (x ∷ p) s = ground (arith, has_prefix-append p s)

pub append-of_has_prefix : (s p : Text) → has_prefix s p ≡ true → p ++ drop (length p) s ≡ s
unfolding has_prefix drop
append-of_has_prefix s [] h = refl
append-of_has_prefix (x ∷ s) (y ∷ p) h = ground (arith, append-of_has_prefix s p)
append-of_has_prefix [] (y ∷ p) h = cc

-- A text equal to one of two different texts is not equal to the other.
pub text_eq-disjoint : (a s t : Text) → s ≢ t → text_eq a s ≡ true → text_eq a t ≡ false
text_eq-disjoint a s t h e = elim (Bool-cases (text_eq a t)) [
  | inl k ↦ absurd (h (sym (eq_of_text_eq a s e) ∙ eq_of_text_eq a t k))
  | inr k ↦ k
]

pub ne_of_text_eq : (s t : Text) → text_eq s t ≡ false → s ≢ t
ne_of_text_eq s t h e =
    let other : text_eq t t ≡ false = rw e at h in
    let both : true ≡ false = sym (text_eq_refl t) ∙ other in cc
