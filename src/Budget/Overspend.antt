-- ===== src/Budget/Overspend.antt =====
-- services/budget-service/internal/service/overspend_service.go: each event of a transaction has
-- the user's budgets checked for the current period. Log lines are left out; the current time is
-- an argument, as in the source.
pub mod Quiet
use finora.Base.{
  Bool, true, false, ◌==◌, List, [], ◌∷◌, Option, none, some, Text, Result, ok, err, Action,
  if◌then◌else◌,
}
use finora.Golang.Float.{Float, lt, zero_float, Rounding, sub}
use finora.Golang.Time.{Time}
use finora.Budget.Period.{current_period_start}
use finora.Budget.Domain.{
  Budget, BudgetOverspentEvent, BudgetRepository, EventPublisher, ExpenseClient,
}

-- `b.LastNotifiedAt != nil && b.LastNotifiedAt.Equal(from)`
unfoldable pub already_notified : Option Time → Time → Bool
already_notified none from = false
already_notified (some at) from = at == from

unfoldable pub overspent_event : (Time → Text) → Text → Budget → Float → Time → BudgetOverspentEvent
overspent_event format_rfc3339 user_id b actual from = record {
  budget_id = b.id;
  user_id = user_id;
  category = b.category;
  period = b.period;
  budgeted = b.amount;
  actual = actual;
  period_start = format_rfc3339 from;
}

module _ (r : Rounding) (format_rfc3339 : Time → Text) {S : Type 0}
    (budget_repo : BudgetRepository S) (client : ExpenseClient S)
    (publisher : EventPublisher S) where
  unfoldable pub notify_if_overspent : Text → Budget → Float → Time → S → S
  notify_if_overspent user_id b actual from s =
      if already_notified b.last_notified_at from
      then s
      else let (sent, s') =
          publisher.publish_budget_overspent (overspent_event format_rfc3339 user_id b actual from)
            s in
        elim sent [
          | err e ↦ s'
          | ok _ ↦ (budget_repo.update (record b { last_notified_at = some from }) s').1
        ]

  -- One round of the loop.
  unfoldable pub check_budget : Text → Time → Budget → S → S
  check_budget user_id now b s =
      let from = current_period_start b.period now in
      elim (client.sum_expenses_by_category user_id b.category from now s) [
        | err e ↦ s
        | ok actual ↦
            if lt (sub r b.amount actual) zero_float
            then notify_if_overspent user_id b actual from s
            else s
      ]

  unfoldable pub check_budgets : Text → Time → List Budget → S → S
  check_budgets user_id now [] s = s
  check_budgets user_id now (b ∷ bs) s = check_budgets user_id now bs (check_budget user_id now b s)

  unfoldable pub handle_transaction_created : Text → Time → Action S (Unit {0})
  handle_transaction_created user_id now s = elim (budget_repo.list_by_user user_id s) [
    | err e ↦ (err e, s)
    | ok budgets ↦ (ok tt, check_budgets user_id now budgets s)
  ]
