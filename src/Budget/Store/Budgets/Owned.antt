-- ===== src/Budget/Store/Budgets/Owned.antt =====
-- overspend_service.go over the repository of mongo_budget_repository.go, and ownership.
use finora.Base.{
  ◌≡◌, ◌≢◌, refl, sym, ◌∙◌, ap, true, List, [], ◌∷◌, All, All-map, All-weaken, All-select_passes,
  Option-cases, inl, inr, Text, ok, map, select, outcome, success, failure, arith, Bool-cases, some,
}
use finora.Golang.Text.Laws.{text_eq-disjoint, eq_of_text_eq}
use finora.Golang.Float.{Rounding, lt, sub, zero_float, Float}
use finora.Golang.Time.{Time}
use finora.Mongo.{Collection, IsCollection, ObjectIds}
use finora.Mongo.Laws.{find_one_and_update-hidden}
use finora.Budget.Domain.{Budget, BudgetOverspentEvent, EventPublisher, ExpenseClient}
use finora.Budget.Period.{current_period_start}
use finora.Budget.Overspend.{
  already_notified, notify_if_overspent, check_budget, check_budgets, handle_transaction_created,
  overspent_event,
}
use finora.Budget.Store.Budgets.{
  BudgetDocument, of_user, to_domain, by_id_for_user, set_fields, list_by_user, update, repository,
}

ok_inj : {A : Type 0} (a b : A) → ok a ≡ ok b → a ≡ b
ok_inj a b h = cc

abbrev pub owned :
    {S O : Type 0} → Collection S (BudgetDocument O) → Text → S → List (BudgetDocument O)
owned col v s = select (of_user v) (col.docs s)

module _ {S O : Type 0} (ids : ObjectIds O) (col : Collection S (BudgetDocument O))
    (laws : IsCollection col) (new_id : S → O) (at : Time) where
  update-owned :
      (b : Budget) (v : Text) (s : S)
      → b.user_id ≢ v
      → owned col v (update ids col at b s).1 ≡ owned col v s
  unfolding update by_id_for_user set_fields
  update-owned b v s other = elim (Option-cases (ids.from_hex b.id)) [
    | inl bad ↦ rw (bad, update) refl
    | inr (oid, named) ↦
        rw (named, update)
          (find_one_and_update-hidden col laws (of_user v) _ (set_fields ids col at b) s
            (λ d e. text_eq-disjoint d.user_id b.user_id v other (ground arith))
            (λ d e. text_eq-disjoint d.user_id b.user_id v other (ground arith)))
  ]

  -- The budgets that are listed are the user's.
  list_by_user-owned :
      (u : Text) (s : S) (bs : List Budget)
      → list_by_user ids col u s ≡ ok bs
      → All (λ (b : Budget). b.user_id ≡ u) bs
  unfolding list_by_user to_domain
  list_by_user-owned u s bs h = elim (outcome (col.find (of_user u) s)) [
    | failure e bad ↦ absurd (ground arith)
    | success docs read ↦
        let same : map (to_domain ids col) docs ≡ bs = ok_inj _ _ (rw (read, list_by_user) at h) in
        rw (← same) (
          All-map (λ b. b.user_id ≡ u) (to_domain ids col) docs
            (All-weaken (λ d. of_user u d ≡ true) _ (λ d. eq_of_text_eq d.user_id u) docs
              (rw (laws.find-docs (of_user u) s docs read)
                (All-select_passes (of_user u) (col.docs s)))))
  ]

  module _ (r : Rounding) (format_rfc3339 : Time → Text) (client : ExpenseClient S)
      (publisher : EventPublisher S)
      (alone : (e : BudgetOverspentEvent) (s : S)
        → col.docs (publisher.publish_budget_overspent e s).1 ≡ col.docs s) where
    notify-owned :
        (u v : Text) (b : Budget) (actual : Float) (from : Time) (s : S)
        → b.user_id ≢ v
        → owned col v (
            notify_if_overspent r format_rfc3339
              (repository ids col new_id at)
              client
              publisher
              u
              b
              actual
              from
              s)
          ≡ owned col v s
    unfolding notify_if_overspent repository
    notify-owned u v b actual from s other =
        let event = overspent_event format_rfc3339 u b actual from in
        let sent = publisher.publish_budget_overspent event s in
        let kept : owned col v sent.1 ≡ owned col v s = ap (select (of_user v)) (alone event s) in
        elim (Bool-cases (already_notified b.last_notified_at from)) [
          | inl told ↦ rw told refl
          | inr fresh ↦ elim (outcome sent.0) [
            | failure e bad ↦ rw (fresh, bad, notify_if_overspent) kept
            | success u took ↦
                rw (fresh, took, notify_if_overspent)
                  (update-owned (record b { last_notified_at = some from }) v sent.1 other ∙ kept)
          ]
        ]

    check_budget-owned :
        (u v : Text) (now : Time) (b : Budget) (s : S)
        → b.user_id ≢ v
        → owned col v (
            check_budget r format_rfc3339 (repository ids col new_id at) client publisher u now b s)
          ≡ owned col v s
    unfolding check_budget
    check_budget-owned u v now b s other =
        elim (outcome (
          client.sum_expenses_by_category u b.category (current_period_start b.period now) now s)) [
            | failure e bad ↦ rw (bad, check_budget) refl
            | success actual read ↦ elim (Bool-cases (lt (sub r b.amount actual) zero_float)) [
              | inl over ↦ rw (read, over, check_budget) (notify-owned u v b actual _ s other)
              | inr within ↦ rw (read, within, check_budget) refl
            ]
          ]

    check_budgets-owned :
        (u v : Text) (now : Time) (bs : List Budget) (s : S)
        → u ≢ v
        → All (λ (b : Budget). b.user_id ≡ u) bs
        → owned col v (
            check_budgets r format_rfc3339
              (repository ids col new_id at)
              client
              publisher
              u
              now
              bs
              s)
          ≡ owned col v s
    unfolding check_budgets
    check_budgets-owned u v now [] s other h = refl
    check_budgets-owned u v now (b ∷ bs) s other (mine, h) =
        check_budgets-owned u v now bs _ other h
        ∙ check_budget-owned u v now b s (λ same. other (sym mine ∙ same))

    -- An event of one user's transaction leaves the budgets of every other user as they are, where
    -- publishing leaves the collection of budgets alone.
    pub handle_transaction_created-owned :
        (u v : Text) (now : Time) (s : S)
        → u ≢ v
        → owned col v
            (handle_transaction_created r format_rfc3339
              (repository ids col new_id at)
              client
              publisher
              u
              now
              s).1
          ≡ owned col v s
    unfolding handle_transaction_created repository
    handle_transaction_created-owned u v now s other = elim (outcome (list_by_user ids col u s)) [
      | failure e bad ↦ rw (bad, handle_transaction_created) refl
      | success bs read ↦
          rw (read, handle_transaction_created)
            (check_budgets-owned u v now bs s other (list_by_user-owned u s bs read))
    ]
