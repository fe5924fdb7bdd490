-- ===== src/Budget/Period/Stable.antt =====
-- The start of a period in overspend_service.go, as a key for the period.
use finora.Base.{◌+◌, ◌*◌, ◌/◌, ◌%◌, ◌≤◌, ◌<◌, ◌≡◌, ap, ◌∙◌, arith, inl, inr, Bool-cases}
use mathlib.Core.Path.{ap₂}
use finora.Golang.Text.{text_eq}
use finora.Golang.Time.{Time, day_ns, year, month, day, weekday, date, back_days}
use finora.Golang.Time.Calendar.{
  date-of_day, first_of_year-le, first_of_month-le, year-same, month-same, weekday-eq,
}
use finora.Budget.Period.{Period, current_period_start, period_weekly, period_yearly}

-- The Monday of the week of a moment.
monday_of : Time → Time
monday_of t = t / (7 * day_ns) * (7 * day_ns)

week-eq :
    (t : Time) → back_days (date (year t) (month t) (day t)) ((weekday t + 6) % 7) ≡ monday_of t
unfolding back_days monday_of
week-eq t = rw (date-of_day t, weekday-eq t) (omega arith)

-- The period's start is never after the moment itself.
pub current_period_start-le : (p : Period) (t : Time) → current_period_start p t ≤ t
unfolding current_period_start monday_of
current_period_start-le p t = ground (arith, week-eq t, first_of_year-le t, first_of_month-le t)

-- Every moment from the start of the current period up to now has the same period start.
pub current_period_start-same :
    (p : Period) (t u : Time)
    → current_period_start p t ≤ u
    → u ≤ t
    → current_period_start p u ≡ current_period_start p t
unfolding current_period_start monday_of
current_period_start-same p t u lo hi = elim (Bool-cases (text_eq p period_weekly)) [
  | inl w ↦ rw (w, week-eq u, week-eq t) (omega (arith, week-eq t, (rw w at lo)))
  | inr w ↦ elim (Bool-cases (text_eq p period_yearly)) [
    | inl y ↦ rw (w, y) (ap (λ z. date z 1 1) (year-same t u (rw (w, y) at lo) hi))
    | inr m ↦
        let (years, months) = month-same t u (rw (w, m) at lo) hi in
        rw (w, m) (ap₂ (λ y m. date y m 1) years months)
  ]
]

-- A weekly budget's period starts on a Monday, less than seven days before the moment.
pub current_period_start-weekly :
    (t : Time)
    → (weekday (current_period_start period_weekly t) ≡ 1)
      × (t < current_period_start period_weekly t + 7 * day_ns)
unfolding current_period_start monday_of text_eq
current_period_start-weekly t =
    rw (week-eq t) (weekday-eq (t / (7 * day_ns) * (7 * day_ns)) ∙ omega arith, omega arith)
