-- ===== src/Budget/Report/Totals.antt =====
-- The lines and the totals of the report in report_service.go.
use finora.Base.{
  ◌≡◌, refl, sym, ◌∙◌, ap, List, [], ◌∷◌, ◌++◌, Text, ok, outcome, success, failure, arith,
}
use mathlib.Core.Path.{subst}
use mathlib.Core.List.{foldl, foldl-append, append_assoc, append-nil}
use finora.Golang.Float.{Float, Rounding, add, sub, zero_float}
use finora.Golang.Time.{Time}
use finora.Budget.Domain.{Budget, BudgetRepository, CategorySummary, ExpenseClient, ReportSummary}
use finora.Budget.Report.{add_budget, add_budgets, summary}

-- The lines of a report are those of the budgets, in order, each with what the client gave as
-- spent and the difference to the budget.
module _ (r : Rounding) {S : Type 0} (client : ExpenseClient S) (u : Text) (from to : Time)
    (s : S) where
  pub data Lines : List Budget → List CategorySummary → Type 0 where
    none_left : Lines [] []
    line :
        {b : Budget} {bs : List Budget} {c : CategorySummary} {cs : List CategorySummary}
        → client.sum_expenses_by_category u b.category from to s ≡ ok c.actual
        → c.category ≡ b.category
        → c.period ≡ b.period
        → c.budgeted ≡ b.amount
        → c.remaining ≡ sub r b.amount c.actual
        → Lines bs cs
        → Lines (b ∷ bs) (c ∷ cs)

-- A report whose totals are the sums of its lines, added in order.
pub record IsSummed (r : Rounding) (report : ReportSummary) : Type 0 where
  pub budgeted :
      report.total_budgeted ≡ foldl (λ t c. add r t c.budgeted) zero_float report.categories
  pub actual : report.total_actual ≡ foldl (λ t c. add r t c.actual) zero_float report.categories

module _ (r : Rounding) (format_rfc3339 : Time → Text) {S : Type 0}
    (budget_repo : BudgetRepository S) (client : ExpenseClient S) where
  add_budget-IsSummed :
      (report : ReportSummary) (b : Budget) (actual : Float)
      → IsSummed r report
      → IsSummed r (add_budget r format_rfc3339 budget_repo client report b actual)
  unfolding add_budget
  add_budget-IsSummed report b actual h = record {
    budgeted =
        ap (λ t. add r t b.amount) h.budgeted ∙ sym (foldl-append _ zero_float report.categories _);
    actual =
        ap (λ t. add r t actual) h.actual ∙ sym (foldl-append _ zero_float report.categories _);
  }

  add_budget-cats :
      (report : ReportSummary) (b : Budget) (actual : Float) (cs : List CategorySummary)
      → (add_budget r format_rfc3339 budget_repo client report b actual).categories ++ cs
        ≡ report.categories
          ++ (record {
            category = b.category;
            period = b.period;
            budgeted = b.amount;
            actual = actual;
            remaining = sub r b.amount actual;
          }
              ∷ cs)
  unfolding add_budget
  add_budget-cats report b actual cs = append_assoc report.categories _ cs

  -- What the loop has made of a report that it began with.
  abbrev Extends : Text → Time → Time → S → List Budget → ReportSummary → ReportSummary → Type 0
  Extends u from to s bs old new =
      IsSummed r new
      × ((cs : List CategorySummary) × (new.categories ≡ old.categories ++ cs)
          × Lines r client u from to s bs cs)

  add_budgets-Extends :
      (u : Text) (from to : Time) (bs : List Budget) (old new : ReportSummary) (s : S)
      → add_budgets r format_rfc3339 budget_repo client u from to bs old s ≡ ok new
      → IsSummed r old
      → Extends u from to s bs old new
  unfolding add_budgets
  add_budgets-Extends u from to [] old new s h summed =
      let same : old ≡ new = cc in
      rw (← same) (summed, ([], sym (append-nil old.categories), none_left))
  add_budgets-Extends u from to (b ∷ bs) old new s h summed =
      elim (outcome (client.sum_expenses_by_category u b.category from to s)) [
        | failure e bad ↦ absurd (ground arith)
        | success actual read ↦
            let mid = add_budget r format_rfc3339 budget_repo client old b actual in
            let (summed', (cs, cats, lines)) =
              add_budgets-Extends u from to bs mid new s (rw (read, add_budgets) at h)
                (add_budget-IsSummed old b actual summed) in
            (
              summed',
              (
                record {
                  category = b.category;
                  period = b.period;
                  budgeted = b.amount;
                  actual = actual;
                  remaining = sub r b.amount actual;
                }
                    ∷ cs,
                cats ∙ add_budget-cats old b actual cs,
                line read refl refl refl refl lines,
              ),
            )
      ]

  -- A report that succeeds has one line for each budget, in order, with the spending that the
  -- client gave for its category and the difference to the budget; its totals are the sums of its
  -- lines.
  pub summary-Lines :
      (u : Text) (from to : Time) (bs : List Budget) (report : ReportSummary) (s : S)
      → budget_repo.list_by_user u s ≡ ok bs
      → summary r format_rfc3339 budget_repo client u from to s ≡ ok report
      → Lines r client u from to s bs report.categories × IsSummed r report
  unfolding summary
  summary-Lines u from to bs report s listed h =
      let (summed, (cs, cats, lines)) =
        add_budgets-Extends u from to bs _ report s (rw (listed, summary) at h)
          (record { budgeted = refl; actual = refl }) in
      (subst (Lines r client u from to s bs) (sym cats) lines, summed)
