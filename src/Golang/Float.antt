-- ===== src/Golang/Float.antt =====
-- Go's `float64`. Every finite value is an integer multiple of 2^-1074, and `fin z` stands for
-- `z` of these units: comparisons, negation and `math.Abs` are exact on them. (The two zeros
-- are one value here; no comparison of the services tells them apart.) A sum is rounded, and
-- how it is rounded is a parameter, with the one law of the standard that is relied on.
pub mod Int
pub mod Laws
use finora.Base.{ℕ, ◌*◌, ◌^◌, ◌≡◌, Bool, true, false, not, if◌then◌else◌}
use finora.Golang.Float.Int.{ℤ, pos, negsuc, ◌+ℤ◌, neg_ℤ, ltb_ℤ, abs_ℤ}

pub data Float : Type 0 where
  nan pos_inf neg_inf : Float
  fin : ℤ → Float

-- `a < b`: false as soon as one side is not a number.
abbrev pub lt : Float → Float → Bool
lt nan _ = false
lt pos_inf _ = false
lt neg_inf nan = false
lt neg_inf neg_inf = false
lt neg_inf pos_inf = true
lt neg_inf (fin _) = true
lt (fin _) nan = false
lt (fin _) neg_inf = false
lt (fin _) pos_inf = true
lt (fin a) (fin b) = ltb_ℤ a b

abbrev pub is_nan : Float → Bool
is_nan nan = true
is_nan _ = false

-- `a <= b`
abbrev pub le : Float → Float → Bool
le a b = if is_nan a then false else if is_nan b then false else not (lt b a)

abbrev pub zero_float : Float
zero_float = fin (pos 0)

-- The whole number `n`.
abbrev pub whole : ℕ → Float
whole n = fin (pos (n * 2 ^ 1074))

abbrev pub neg : Float → Float
neg nan = nan
neg pos_inf = neg_inf
neg neg_inf = pos_inf
neg (fin a) = fin (neg_ℤ a)

-- `math.Abs`
abbrev pub abs : Float → Float
abs nan = nan
abs pos_inf = pos_inf
abs neg_inf = pos_inf
abs (fin a) = fin (abs_ℤ a)

-- How an exact result is rounded to a `float64`. A difference that is not zero is at least one
-- unit, so rounding keeps its sign.
pub record Rounding : Type 0 where
  pub round : ℤ → Float
  pub lt-round : (z : ℤ) → lt (round z) zero_float ≡ ltb_ℤ z (pos 0)

module _ (r : Rounding) where
  -- `a + b`
  unfoldable pub add : Float → Float → Float
  add nan _ = nan
  add pos_inf nan = nan
  add pos_inf neg_inf = nan
  add pos_inf _ = pos_inf
  add neg_inf nan = nan
  add neg_inf pos_inf = nan
  add neg_inf _ = neg_inf
  add (fin _) nan = nan
  add (fin _) pos_inf = pos_inf
  add (fin _) neg_inf = neg_inf
  add (fin a) (fin b) = r.round (a +ℤ b)

  -- `a - b`
  unfoldable pub sub : Float → Float → Float
  unfolding add
  sub a b = add a (neg b)
