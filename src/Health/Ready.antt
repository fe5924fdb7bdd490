-- ===== src/Health/Ready.antt =====
-- health.go: when a service is ready.
use finora.Base.{
  ◌≡◌, ◌↔◌, refl, true, false, Bool, List, [], ◌∷◌, All, Text, map, if◌then◌else◌, Bool-cases, inl,
  inr, arith,
}
use finora.Health.{Checker, passes, result_of, check_all, run_checks, ready}

check_all-results : (cs : List Checker) (b : Bool) → (check_all cs b).0 ≡ map result_of cs
unfolding check_all
check_all-results [] b = refl
check_all-results (ch ∷ cs) b = rw (check_all-results cs (if passes ch then b else false)) refl

check_all-failed : (cs : List Checker) → (check_all cs false).1 ≡ false
unfolding check_all
check_all-failed [] = refl
check_all-failed (ch ∷ cs) = elim (Bool-cases (passes ch)) [
  | inl e ↦ rw e (check_all-failed cs)
  | inr e ↦ rw e (check_all-failed cs)
]

check_all-passing :
    (cs : List Checker) → All (λ ch. passes ch ≡ true) cs → (check_all cs true).1 ≡ true
unfolding check_all
check_all-passing [] h = refl
check_all-passing (ch ∷ cs) (fine, h) = rw fine (check_all-passing cs h)

passing-check_all :
    (cs : List Checker) → (check_all cs true).1 ≡ true → All (λ ch. passes ch ≡ true) cs
unfolding check_all
passing-check_all [] h = tt
passing-check_all (ch ∷ cs) h = elim (Bool-cases (passes ch)) [
  | inl fine ↦ (fine, passing-check_all cs (rw (fine, check_all) at h))
  | inr broken ↦
      let wrong : (check_all cs false).1 ≡ true = rw (broken, check_all) at h in
      absurd (ground (arith, check_all-failed cs))
]

-- A service answers that it is ready, with 200, exactly where every one of its dependencies passes
-- its check, and the answer lists the result of each check, in their order.
pub ready_iff :
    (service : Text) (cs : List Checker)
    → (((ready service cs).code ≡ 200) ↔ All (λ ch. passes ch ≡ true) cs)
      × ((ready service cs).checks ≡ map result_of cs)
unfolding ready run_checks
ready_iff service cs = elim (Bool-cases (check_all cs true).1) [
  | inl fine ↦ (
    (λ code. passing-check_all cs fine, λ all. rw (fine, ready) refl),
    rw (fine, ready) (check_all-results cs true),
  )
  | inr broken ↦ (
    (
      λ code. let wrong : 503 ≡ 200 = rw (broken, ready) at code in absurd (ground arith),
      λ all. let fine = check_all-passing cs all in absurd (ground arith),
    ),
    rw (broken, ready) (check_all-results cs true),
  )
]
