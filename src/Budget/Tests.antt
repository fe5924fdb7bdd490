-- ===== src/Budget/Tests.antt =====
-- The theorems on budgets, goals and reports, applied to one user's. The state counts the events
-- that went out and the budgets that were written.
mod Goals
mod Budgets
mod Reports
use finora.Base.{
  ℕ, suc, ◌*◌, ◌+◌, ◌<◌, ◌≤◌, ◌≡◌, refl, ◌⊎◌, inl, inr, Bool, true, false, List, [], ◌∷◌, All,
  Option, none, some, Text, str, Error, not_found, ◌-◌, arith, take, drop, Result, ok, err, length,
}
use finora.Golang.Float.{Float, fin, Rounding, add, sub, lt, whole}
use finora.Golang.Time.{Time, day_ns, weekday}
use finora.Budget.Period.{current_period_start, period_weekly}
use finora.Budget.Period.Stable.{
  current_period_start-le, current_period_start-same, current_period_start-weekly,
}
use finora.Budget.Domain.{
  Budget, BudgetOverspentEvent, BudgetRepository, EventPublisher, ExpenseClient, CategorySummary,
  ReportSummary,
}
use finora.Budget.Overspend.{check_budget, handle_transaction_created, overspent_event}
use finora.Budget.Overspend.Quiet.{handle_transaction_created-quiet, check_budget-idle}
use finora.Budget.Report.{summary}
use finora.Budget.Report.Totals.{Lines, IsSummed, summary-Lines}
use finora.Budget.Client.{TransactionDto}

abbrev pub r : Rounding
r = record { round = fin; lt-round = λ z. refl }

abbrev State : Type 0
State = ℕ × ℕ

abbrev plain : Time → Text
plain t = []

abbrev food : Option Time → Budget
food told = record {
  id = str "b1";
  user_id = str "ann";
  category = str "food";
  amount = whole 10;
  period = period_weekly;
  last_notified_at = told;
  created_at = 1;
  updated_at = 1;
}

-- The start of the second week, and a moment in it.
abbrev monday : Time
monday = 7 * day_ns

abbrev thursday : Time
thursday = 10 * day_ns

abbrev repo_of : Budget → BudgetRepository State
repo_of b = record {
  create = λ new s. (ok new, s);
  list_by_user = λ u s. ok (b ∷ []);
  get_by_id_for_user = λ id u s. ok b;
  update = λ new s. (ok new, (s.0, suc s.1));
  delete_by_id_for_user = λ id u s. (ok tt, s);
}

abbrev client : ExpenseClient State
client = record { sum_expenses_by_category = λ u category from to s. ok (whole 12) }

abbrev publisher : EventPublisher State
publisher = record { publish_budget_overspent = λ e s. (ok tt, (suc s.0, s.1)) }

handle_transaction_created-quiet_example :
    handle_transaction_created r plain
      (repo_of (food (some monday)))
      client
      publisher
      (str "ann")
      (thursday + 5)
      (0, 0)
    ≡ (ok tt, (0, 0))
unfolding current_period_start finora.Golang.Text.text_eq finora.Golang.Time.back_days
    finora.Golang.Time.date finora.Golang.Time.year finora.Golang.Time.month finora.Golang.Time.day
    weekday
handle_transaction_created-quiet_example =
    handle_transaction_created-quiet r plain (repo_of (food (some monday))) client publisher
      (str "ann") thursday (thursday + 5) (food (some monday) ∷ []) (0, 0) refl (omega arith)
      (omega arith, tt) (refl, tt)

abbrev report : ReportSummary
report = record {
  from = [];
  to = [];
  categories =
      record {
        category = str "food";
        period = period_weekly;
        budgeted = whole 10;
        actual = whole 12;
        remaining = sub r (whole 10) (whole 12);
      }
      ∷ [];
  total_budgeted = whole 10;
  total_actual = whole 12;
}

summary-Lines_example :
    Lines r client (str "ann") 3 9 (0, 0) (food none ∷ []) report.categories × IsSummed r report
unfolding summary finora.Budget.Report.add_budgets finora.Budget.Report.add_budget add
summary-Lines_example =
    summary-Lines r plain (repo_of (food none)) client (str "ann") 3 9 (food none ∷ []) report
      (0, 0) refl refl

current_period_start-same_example :
    current_period_start period_weekly (8 * day_ns) ≡ current_period_start period_weekly thursday
unfolding current_period_start finora.Golang.Text.text_eq finora.Golang.Time.back_days
    finora.Golang.Time.date finora.Golang.Time.year finora.Golang.Time.month finora.Golang.Time.day
    weekday
current_period_start-same_example =
    current_period_start-same period_weekly thursday (8 * day_ns) (omega arith) (omega arith)

abbrev bought : List TransactionDto
bought = record { id = str "t1"; type = str "expense"; amount = whole 3 } ∷ []

-- The first page has all, and there is nothing on the others.
abbrev get_page : ℕ → Result (List TransactionDto)
get_page page = ok (take 100 (drop ((page - 1) * 100) bought))
