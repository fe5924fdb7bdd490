-- ===== src/Golang/Float/Laws.antt =====
-- The facts about `float64` that the services rely on.
use finora.Base.{◌≡◌, refl, ◌∙◌, arith}
use finora.Golang.Float.{Float, nan, pos_inf, neg_inf, fin, lt, zero_float, Rounding, add, sub}
use finora.Golang.Float.Int.{ℤ, pos, ◌+ℤ◌, neg_ℤ, ltb_ℤ}

ltb-diff : (a b : ℤ) → ltb_ℤ (a +ℤ neg_ℤ b) (pos 0) ≡ ltb_ℤ a b
ltb-diff a b = ground arith

-- Rounding never changes the outcome of `a - b < 0`.
pub lt-sub : (r : Rounding) (a b : Float) → lt (sub r a b) zero_float ≡ lt a b
unfolding sub add
lt-sub r (fin a) (fin b) = r.lt-round (a +ℤ neg_ℤ b) ∙ ltb-diff a b
lt-sub r nan b = refl
lt-sub r pos_inf nan = refl
lt-sub r pos_inf pos_inf = refl
lt-sub r pos_inf neg_inf = refl
lt-sub r pos_inf (fin b) = refl
lt-sub r neg_inf nan = refl
lt-sub r neg_inf pos_inf = refl
lt-sub r neg_inf neg_inf = refl
lt-sub r neg_inf (fin b) = refl
lt-sub r (fin a) nan = refl
lt-sub r (fin a) pos_inf = refl
lt-sub r (fin a) neg_inf = refl
