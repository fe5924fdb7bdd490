-- ===== src/Golang/Time.antt =====
-- Go's `time` package in UTC. A moment is its number of nanoseconds since the start of the year
-- -292277022399, a Monday, which no `time.Time` precedes; this year is 1 modulo 400, so the
-- pattern of the leap years begins with it. `year` counts the years from there.
pub mod Calendar
use finora.Base.{
  ℕ, zero, suc, ◌+◌, ◌-◌, ◌*◌, ◌/◌, ◌%◌, ◌^◌, Bool, true, false, not, ◌&&◌, ◌||◌, List, [], ◌∷◌,
  ltb, ◌==◌, if◌then◌else◌,
}
use Prim.Native.Nat.{min}

abbrev pub Time : Type 0
Time = ℕ

abbrev pub day_ns : ℕ
day_ns = 86400 * 10 ^ 9

-- The zero `time.Time`: the first of January of the year 1, 730692556 cycles of 400 years on.
abbrev pub zero_time : Time
zero_time = 730692556 * 146097 * (86400 * 10 ^ 9)

-- `t.IsZero()`
abbrev pub is_zero : Time → Bool
is_zero t = t == zero_time

-- `t.Before(u)`
abbrev pub before : Time → Time → Bool
before t u = ltb t u

-- The days of the years before a year.
days_before : ℕ → ℕ
days_before y = 365 * y + y / 4 + y / 400 - y / 100

-- The year that a day falls in: whole cycles of 400, 100, 4 and 1 years.
year_of_day : ℕ → ℕ
year_of_day d =
    let r = d % 146097 in
    let c = min (r / 36524) 3 in
    let s = r - 36524 * c in
    let u = s % 1461 in 400 * (d / 146097) + 100 * c + 4 * (s / 1461) + min (u / 365) 3

is_leap : ℕ → Bool
is_leap y = suc y % 4 == 0 && (not (suc y % 100 == 0) || suc y % 400 == 0)

month_lengths : Bool → List ℕ
month_lengths leap =
    31 ∷ (if leap then 29 else 28) ∷ 31 ∷ 30 ∷ 31 ∷ 30 ∷ 31 ∷ 31 ∷ 30 ∷ 31 ∷ 30 ∷ 31 ∷ []

-- The month, counted from 0, that a day of the year falls in.
find_month : List ℕ → ℕ → ℕ
find_month [] d = 0
find_month (n ∷ ns) d = let later = suc (find_month ns (d - n)) in if ltb d n then 0 else later

-- The days of the first `m` months.
months_length : ℕ → List ℕ → ℕ
months_length zero ns = 0
months_length (suc m) [] = 0
months_length (suc m) (n ∷ ns) = n + months_length m ns

day_number : Time → ℕ
day_number t = t / (86400 * 10 ^ 9)

-- `t.Year()`, counted from the first year
unfoldable pub year : Time → ℕ
unfolding day_number year_of_day
year t = year_of_day (day_number t)

-- The day of the year of `t`, counted from 0
year_day : Time → ℕ
unfolding day_number year_of_day days_before
year_day t = day_number t - days_before (year_of_day (day_number t))

-- `t.Month()`
unfoldable pub month : Time → ℕ
unfolding year year_day is_leap month_lengths find_month
month t = suc (find_month (month_lengths (is_leap (year t))) (year_day t))

-- `t.Day()`
unfoldable pub day : Time → ℕ
unfolding year year_day is_leap month_lengths find_month months_length
day t =
    let lengths = month_lengths (is_leap (year t)) in
    suc (year_day t - months_length (find_month lengths (year_day t)) lengths)

-- `t.Weekday()`, with Sunday = 0
unfoldable pub weekday : Time → ℕ
unfolding day_number
weekday t = (day_number t + 1) % 7

-- `time.Date(y, m, d, 0, 0, 0, 0, time.UTC)`
unfoldable pub date : ℕ → ℕ → ℕ → Time
unfolding days_before is_leap month_lengths months_length
date y m d = (days_before y + months_length (m - 1) (month_lengths (is_leap y)) + (d - 1)) * day_ns

-- `t.AddDate(0, 0, -n)` for a midnight `t`
unfoldable pub back_days : Time → ℕ → Time
back_days t n = t - n * day_ns
