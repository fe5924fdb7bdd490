-- ===== src/Golang/Time/Calendar.antt =====
-- The calendar: the year and the month that a day falls in, and the first day of each.
use finora.Base.{
  ℕ, suc, ◌+◌, ◌-◌, ◌*◌, ◌/◌, ◌%◌, ◌≤◌, ◌<◌, ◌≡◌, refl, sym, ◌∙◌, ap, List, [], ◌∷◌, arith,
}
use native.Mathlib.Decide.{dec_lt}
use finora.Golang.Time.{
  Time, day_ns, days_before, year_of_day, is_leap, month_lengths, find_month, months_length,
  day_number, year, year_day, month, day, weekday, date,
}

year_of_day-le : (d : ℕ) → days_before (year_of_day d) ≤ d
unfolding days_before year_of_day
year_of_day-le d = omega arith

year_of_day-lt : (d : ℕ) → d < days_before (suc (year_of_day d))
unfolding days_before year_of_day
year_of_day-lt d = omega arith

days_before_mono : (y z : ℕ) → y ≤ z → days_before y ≤ days_before z
unfolding days_before
days_before_mono y z h = omega arith

-- The year of a day is the only one that begins at or before it and ends after it.
year_of_day_unique : (d y : ℕ) → days_before y ≤ d → d < days_before (suc y) → year_of_day d ≡ y
year_of_day_unique d y lo hi = elim (dec_lt (year_of_day d) y) [
  | yes p ↦
      absurd
        (omega (arith, year_of_day-lt d, days_before_mono (suc (year_of_day d)) y (omega arith)))
  | no p ↦ elim (dec_lt y (year_of_day d)) [
    | yes q ↦
        absurd
          (omega (arith, year_of_day-le d, days_before_mono (suc y) (year_of_day d) (omega arith)))
    | no q ↦ omega arith
  ]
]

-- The months before the one found have passed.
find_month-le : (ns : List ℕ) (d : ℕ) → months_length (find_month ns d) ns ≤ d
unfolding find_month months_length
find_month-le [] d = omega arith
find_month-le (n ∷ ns) d = ground (arith, find_month-le ns (d - n))

-- A day between the first of that month and the day falls in the same month.
find_month-same :
    (ns : List ℕ) (d e : ℕ)
    → months_length (find_month ns d) ns ≤ e
    → e ≤ d
    → find_month ns e ≡ find_month ns d
unfolding find_month months_length
find_month-same [] d e lo hi = refl
find_month-same (n ∷ ns) d e lo hi = ground (arith, find_month-same ns (d - n) (e - n))

day_of_date : (k : ℕ) → day_number (k * day_ns) ≡ k
unfolding day_number
day_of_date k = omega arith

date-day :
    (y m d : ℕ)
    → day_number (date y m d)
      ≡ days_before y + months_length (m - 1) (month_lengths (is_leap y)) + (d - 1)
unfolding date
date-day y m d = day_of_date _

day_number-bounds : (t : Time) → (day_number t * day_ns ≤ t) × (t < suc (day_number t) * day_ns)
unfolding day_number
day_number-bounds t = omega arith

day_number_mono : (t u : Time) → t ≤ u → day_number t ≤ day_number u
unfolding day_number
day_number_mono t u h = omega arith

-- The definitions with their helpers shut.
lengths : Time → List ℕ
lengths t = month_lengths (is_leap (year_of_day (day_number t)))

month-eq : (t : Time) → month t ≡ suc (find_month (lengths t) (year_day t))
unfolding month lengths
month-eq t = refl

day-eq :
    (t : Time)
    → day t ≡ suc (year_day t - months_length (find_month (lengths t) (year_day t)) (lengths t))
unfolding day lengths
day-eq t = refl

year-eq : (t : Time) → year t ≡ year_of_day (day_number t)
unfolding year
year-eq t = refl

date-eq :
    (y m d : ℕ)
    → date y m d
      ≡ (days_before y + months_length (m - 1) (month_lengths (is_leap y)) + (d - 1)) * day_ns
unfolding date
date-eq y m d = refl

date_in_year-eq :
    (t : Time) (m d : ℕ)
    → date (year t) m d
      ≡ (days_before (year_of_day (day_number t)) + months_length (m - 1) (lengths t) + (d - 1))
        * day_ns
unfolding lengths
date_in_year-eq t m d = rw (year-eq t) (date-eq (year_of_day (day_number t)) m d)

year_day-add : (t : Time) → days_before (year_of_day (day_number t)) + year_day t ≡ day_number t
unfolding year_day
year_day-add t = omega (arith, year_of_day-le (day_number t))

suc-pred : (n : ℕ) → suc n - 1 ≡ n
suc-pred n = omega arith

-- The number of the first day of the month.
month_start : Time → ℕ
month_start t =
    days_before (year_of_day (day_number t))
    + months_length (find_month (lengths t) (year_day t)) (lengths t)

date_in_month-eq :
    (t : Time) (d : ℕ) → date (year t) (month t) d ≡ (month_start t + (d - 1)) * day_ns
unfolding month_start
date_in_month-eq t d =
    rw (date_in_year-eq t (month t) d, month-eq t, suc-pred (find_month (lengths t) (year_day t)))

month_start-le : (t : Time) → month_start t ≤ day_number t
unfolding month_start
month_start-le t = omega (arith, year_day-add t, find_month-le (lengths t) (year_day t))

-- Midnight of the day of a moment.
pub date-of_day : (t : Time) → date (year t) (month t) (day t) ≡ t / day_ns * day_ns
unfolding day_number month_start
date-of_day t =
    rw (date_in_month-eq t (day t), day-eq t)
      (omega (arith, year_day-add t, find_month-le (lengths t) (year_day t)))

first_of_year-eq :
    (t : Time) → date (year t) 1 1 ≡ days_before (year_of_day (day_number t)) * day_ns
unfolding months_length
first_of_year-eq t = rw (date_in_year-eq t 1 1) (omega arith)

pub first_of_year-le : (t : Time) → date (year t) 1 1 ≤ t
first_of_year-le t =
    omega (arith, first_of_year-eq t, year_of_day-le (day_number t), day_number-bounds t)

pub first_of_month-le : (t : Time) → date (year t) (month t) 1 ≤ t
first_of_month-le t = omega (arith, date_in_month-eq t 1, month_start-le t, day_number-bounds t)

year_of_day-same :
    (t u : Time)
    → days_before (year_of_day (day_number t)) ≤ day_number u
    → u ≤ t
    → year_of_day (day_number u) ≡ year_of_day (day_number t)
year_of_day-same t u lo hi =
    year_of_day_unique (day_number u) (year_of_day (day_number t)) lo
      (omega (arith, year_of_day-lt (day_number t), day_number_mono u t hi))

pub year-same : (t u : Time) → date (year t) 1 1 ≤ u → u ≤ t → year u ≡ year t
year-same t u lo hi =
    rw (year-eq u, year-eq t)
      (year_of_day-same t u (omega (arith, first_of_year-eq t, day_number-bounds u)) hi)

pub month-same :
    (t u : Time) → date (year t) (month t) 1 ≤ u → u ≤ t → (year u ≡ year t) × (month u ≡ month t)
unfolding lengths month_start
month-same t u lo hi =
    let start : month_start t ≤ day_number u =
      omega (arith, date_in_month-eq t 1, day_number-bounds u) in
    let same : year_of_day (day_number u) ≡ year_of_day (day_number t) =
      year_of_day-same t u (omega arith) hi in
    let same_days : days_before (year_of_day (day_number u))
        ≡ days_before (year_of_day (day_number t)) =
      ap days_before same in
    let same_lengths : lengths u ≡ lengths t = ap (λ y. month_lengths (is_leap y)) same in
    (
      rw (year-eq u, year-eq t) same,
      month-eq u
          ∙ ap suc (
              rw same_lengths (
                find_month-same (lengths t) (year_day t) (year_day u)
                  (omega (arith, year_day-add u, same_days))
                  (omega (
                    arith,
                    year_day-add u,
                    year_day-add t,
                    same,
                    same_days,
                    day_number_mono u t hi,
                  ))))
          ∙ sym (month-eq t),
    )

pub weekday-eq : (t : Time) → weekday t ≡ (t / day_ns + 1) % 7
unfolding weekday
weekday-eq t = refl
