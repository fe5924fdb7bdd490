-- ===== src/Budget/Overspend/Quiet.antt =====
-- When overspend_service.go sends an event and when it does not.
use finora.Base.{
  ◌≡◌, ◌≤◌, refl, ◌∙◌, ap, ◌⊎◌, inl, inr, true, false, ==_iff, List, [], ◌∷◌, All, some, Text,
  Error, ok, err, arith, outcome, success, failure, if◌then◌else◌,
}
use finora.Golang.Float.{Float, lt, Rounding}
use finora.Golang.Float.Laws.{lt-sub}
use finora.Golang.Time.{Time}
use finora.Budget.Period.{current_period_start}
use finora.Budget.Period.Stable.{current_period_start-same}
use finora.Budget.Domain.{Budget, BudgetRepository, EventPublisher, ExpenseClient}
use finora.Budget.Overspend.{
  already_notified, notify_if_overspent, check_budget, check_budgets, handle_transaction_created,
}

already_notified_self : (t : Time) → already_notified (some t) t ≡ true
unfolding already_notified
already_notified_self t = (==_iff t t).1 refl

module _ (r : Rounding) (format_rfc3339 : Time → Text) {S : Type 0}
    (budget_repo : BudgetRepository S) (client : ExpenseClient S)
    (publisher : EventPublisher S) where
  -- The budget was notified for the period that `now` falls in.
  abbrev pub IsNotified : Time → Budget → Type 0
  IsNotified now b = b.last_notified_at ≡ some (current_period_start b.period now)

  check_budget-told :
      (u : Text) (now : Time) (b : Budget) (s : S)
      → already_notified b.last_notified_at (current_period_start b.period now) ≡ true
      → check_budget r format_rfc3339 budget_repo client publisher u now b s ≡ s
  unfolding check_budget notify_if_overspent
  check_budget-told u now b s told =
      elim (outcome
        (client.sum_expenses_by_category u b.category (current_period_start b.period now) now s)) [
          | failure e bad ↦ rw (bad, check_budget)
          | success actual read ↦ ground arith
        ]

  check_budget-notified :
      (u : Text) (now : Time) (b : Budget) (s : S)
      → IsNotified now b
      → check_budget r format_rfc3339 budget_repo client publisher u now b s ≡ s
  check_budget-notified u now b s h =
      check_budget-told u now b s (rw h (already_notified_self (current_period_start b.period now)))

  check_budgets-notified :
      (u : Text) (now : Time) (bs : List Budget) (s : S)
      → All (IsNotified now) bs
      → check_budgets r format_rfc3339 budget_repo client publisher u now bs s ≡ s
  unfolding check_budgets
  check_budgets-notified u now [] s h = refl
  check_budgets-notified u now (b ∷ bs) s (p, h) =
      rw (check_budget-notified u now b s p) (check_budgets-notified u now bs s h)

  IsNotified-later :
      (t now : Time) (bs : List Budget)
      → t ≤ now
      → All (λ (b : Budget). current_period_start b.period now ≤ t) bs
      → All (IsNotified t) bs
      → All (IsNotified now) bs
  IsNotified-later t now [] le since h = tt
  IsNotified-later t now (b ∷ bs) le (p, since) (q, h) = (
    q ∙ ap some (current_period_start-same b.period now t p le),
    IsNotified-later t now bs le since h,
  )

  -- Once all of a user's budgets were notified for the period of an earlier moment, no event in
  -- the same period writes or publishes anything.
  pub handle_transaction_created-quiet :
      (u : Text) (t now : Time) (bs : List Budget) (s : S)
      → budget_repo.list_by_user u s ≡ ok bs
      → t ≤ now
      → All (λ (b : Budget). current_period_start b.period now ≤ t) bs
      → All (IsNotified t) bs
      → handle_transaction_created r format_rfc3339 budget_repo client publisher u now s
        ≡ (ok tt, s)
  unfolding handle_transaction_created
  handle_transaction_created-quiet u t now bs s listed le since h =
      rw (listed, handle_transaction_created)
        (ap (λ s'. (ok tt, s'))
          (check_budgets-notified u now bs s (IsNotified-later t now bs le since h)))

  -- The test of the difference is the comparison of what was spent with the budget.
  check_budget-read :
      (u : Text) (now : Time) (b : Budget) (s : S) (actual : Float)
      → let from = current_period_start b.period now in
        client.sum_expenses_by_category u b.category from now s ≡ ok actual
        → check_budget r format_rfc3339 budget_repo client publisher u now b s ≡ (
            if lt b.amount actual
            then notify_if_overspent r format_rfc3339 budget_repo client publisher u b actual from s
            else s)
  unfolding check_budget
  check_budget-read u now b s actual read = rw (read, check_budget, lt-sub r b.amount actual) refl

  -- A round leaves the state as it is if the sum cannot be read, if not more than the budget was
  -- spent, or if its period was notified.
  pub check_budget-idle :
      (u : Text) (now : Time) (b : Budget) (s : S)
      → let from = current_period_start b.period now in
        let actual = client.sum_expenses_by_category u b.category from now s in
        ((e : Error) × (actual ≡ err e))
          ⊎ ((a : Float) × (actual ≡ ok a) × (lt b.amount a ≡ false))
          ⊎ (already_notified b.last_notified_at from ≡ true)
        → check_budget r format_rfc3339 budget_repo client publisher u now b s ≡ s
  unfolding check_budget notify_if_overspent
  check_budget-idle u now b s (inl (e, bad)) = rw (bad, check_budget) refl
  check_budget-idle u now b s (inr (inl (actual, read, within))) =
      rw (check_budget-read u now b s actual read, within) refl
  check_budget-idle u now b s (inr (inr told)) = check_budget-told u now b s told
