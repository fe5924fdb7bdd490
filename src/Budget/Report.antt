-- ===== src/Budget/Report.antt =====
-- services/budget-service/internal/service/report_service.go: what was budgeted and what was spent
-- in a range, over any repository and any client. How sums are rounded and how a moment is
-- written are parameters.
pub mod Totals
use finora.Base.{List, [], ◌∷◌, ◌++◌, Text, Result, ok, err}
use finora.Golang.Float.{Float, Rounding, add, sub, zero_float}
use finora.Golang.Time.{Time}
use finora.Budget.Domain.{Budget, BudgetRepository, CategorySummary, ExpenseClient, ReportSummary}

module _ (r : Rounding) (format_rfc3339 : Time → Text) {S : Type 0}
    (budget_repo : BudgetRepository S) (client : ExpenseClient S) where
  -- One round of the loop, with the spending that the client gave.
  unfoldable pub add_budget : ReportSummary → Budget → Float → ReportSummary
  add_budget summary b actual = record summary {
    categories =
        summary.categories
        ++ record {
          category = b.category;
          period = b.period;
          budgeted = b.amount;
          actual = actual;
          remaining = sub r b.amount actual;
        }
          ∷ [];
    total_budgeted = add r summary.total_budgeted b.amount;
    total_actual = add r summary.total_actual actual;
  }

  unfoldable pub add_budgets :
      Text → Time → Time → List Budget → ReportSummary → S → Result ReportSummary
  add_budgets user_id from to [] summary s = ok summary
  add_budgets user_id from to (b ∷ bs) summary s =
      elim (client.sum_expenses_by_category user_id b.category from to s) [
        | err e ↦ err e
        | ok actual ↦ add_budgets user_id from to bs (add_budget summary b actual) s
      ]

  unfoldable pub summary : Text → Time → Time → S → Result ReportSummary
  summary user_id from to s = elim (budget_repo.list_by_user user_id s) [
    | err e ↦ err e
    | ok budgets ↦
        add_budgets user_id from to budgets
          (record {
            from = format_rfc3339 from;
            to = format_rfc3339 to;
            categories = [];
            total_budgeted = zero_float;
            total_actual = zero_float;
          })
          s
  ]
