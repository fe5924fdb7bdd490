-- ===== src/Budget/Period.antt =====
-- services/budget-service/internal/domain/budget.go and the period of overspend_service.go: the
-- cadence of a budget and the start of the period that a moment falls in.
pub mod Stable
use finora.Base.{ℕ, ◌+◌, ◌%◌, ◌≡◌, Bool, true, false, Text, str, if◌then◌else◌}
use finora.Golang.Text.{text_eq}
use finora.Golang.Time.{Time, year, month, day, weekday, date, back_days}

-- `Period` is a string in the source, and a stored budget may hold any.
abbrev pub Period : Type 0
Period = Text

abbrev pub period_weekly : Period
period_weekly = str "weekly"

abbrev pub period_monthly : Period
period_monthly = str "monthly"

abbrev pub period_yearly : Period
period_yearly = str "yearly"

unfoldable pub valid_period : Period → Bool
unfolding text_eq
valid_period p =
    if text_eq p period_weekly
    then true
    else if text_eq p period_monthly
    then true
    else if text_eq p period_yearly
    then true
    else false

unfoldable pub current_period_start : Period → Time → Time
current_period_start period now =
    if text_eq period period_weekly
    then back_days (date (year now) (month now) (day now)) ((weekday now + 6) % 7)
    else if text_eq period period_yearly
    then date (year now) 1 1
    else date (year now) (month now) 1
