-- ===== src/Pipeline.antt =====
-- The events from one service to the next: the publishers of expense-service and budget-service, and
-- the consumers of budget-service and notification-service. The JSON codec is a parameter; its law is
-- that what one service writes the other reads with the same fields, since their tags are the same.
mod Tests
use finora.Base.{
  ◌≡◌, refl, sym, ◌∙◌, ap, true, List, [], ◌∷◌, ◌++◌, Option, none, some, Text, Result, ok, err,
  outcome, success, failure, arith,
}
use finora.Golang.Float.{Float, Rounding}
use finora.Golang.Time.{Time}
use finora.Mongo.{bson_date, Collection, IsCollection, ObjectIds}
use finora.Mongo.Laws.{Applied-ok}
use finora.Outbox.{Event, Message, enqueue, is_unpublished}
use finora.Eventbus.{verdict_of, consume}
use finora.Expense.Domain.{Transaction}
use finora.Expense.Events as ExpenseEvents
use finora.Expense.Events.{event_of, publish_transaction_created}
use finora.Budget.Domain.{BudgetOverspentEvent, EventPublisher, BudgetRepository, ExpenseClient}
use finora.Budget.Events.{transaction_created_subject, on_transaction_created}
use finora.Budget.Events as BudgetEvents
use finora.Budget.Overspend.{handle_transaction_created}
use finora.Notification.Domain

-- One more event waits in the outbox.
abbrev pub Queued : {S O : Type 0} → Collection S (Event O) → S → S → Event O → Type 0
Queued col s s' e = (col.docs s' ≡ col.docs s ++ e ∷ []) × (is_unpublished e ≡ true)

-- The same event, as notification-service reads it.
abbrev pub as_read : BudgetOverspentEvent → Domain.BudgetOverspentEvent
as_read e = record {
  budget_id = e.budget_id;
  user_id = e.user_id;
  category = e.category;
  period = e.period;
  budgeted = e.budgeted;
  actual = e.actual;
  period_start = e.period_start;
}

module _ {S O : Type 0} (ids : ObjectIds O) (col : Collection S (Event O)) (laws : IsCollection col)
    (new_id : S → O) (now : Time) where
  -- The event that `Enqueue` inserts.
  abbrev queued : S → Message → Event O
  queued s m = record {
    id = new_id s;
    subject = m.subject;
    msg_id = m.msg_id;
    payload = m.payload;
    created_at = bson_date now;
    published_at = none;
  }

  enqueue-Queued :
      (m : Message) (s : S)
      → (enqueue ids col (new_id s) now m s).0 ≡ ok tt
      → Queued col s (enqueue ids col (new_id s) now m s).1 (queued s m)
  unfolding enqueue
  enqueue-Queued m s done = (Applied-ok _ tt _ _ _ (laws.insert_one-docs (queued s m) s) done, refl)

  module _ (format_rfc3339 : Time → Text)
      (marshal : ExpenseEvents.TransactionCreatedEvent → Result Text)
      (unmarshal : Text → Option BudgetEvents.TransactionCreatedEvent) where
    -- A transaction whose event is published waits in the outbox under the subject that
    -- budget-service subscribes to and under the transaction's id, and budget-service handles its
    -- message for the user of the transaction, acknowledging it if that succeeds. The codec keeps the
    -- user.
    pub transaction_created-reaches :
        {T : Type 0} (r : Rounding) (repo : BudgetRepository T) (client : ExpenseClient T)
        (publisher : EventPublisher T) (later : Time) (tx : Transaction) (s : S) (t : T)
        → ((e : ExpenseEvents.TransactionCreatedEvent) (payload : Text)
            → marshal e ≡ ok payload
            → (b : BudgetEvents.TransactionCreatedEvent) × (unmarshal payload ≡ some b)
              × (b.user_id ≡ e.user_id))
        → (publish_transaction_created format_rfc3339 marshal ids col new_id now tx s).0 ≡ ok tt
        → (e : Event O) × Queued col s
            (publish_transaction_created format_rfc3339 marshal ids col new_id now tx s).1
            e
          × (e.subject ≡ transaction_created_subject)
          × (e.msg_id ≡ tx.id)
          × (consume
                (on_transaction_created r format_rfc3339 repo client publisher unmarshal later)
                e.subject
                e.payload
                t
              ≡ (
                verdict_of
                    (handle_transaction_created r format_rfc3339 repo client publisher tx.user_id
                      later t).0,
                (handle_transaction_created r format_rfc3339 repo client publisher tx.user_id later
                    t).1,
              ))
    unfolding publish_transaction_created event_of on_transaction_created consume
    transaction_created-reaches r repo client publisher later tx s t wire sent =
        elim (outcome (marshal (event_of format_rfc3339 marshal tx))) [
          | failure e bad ↦ absurd (ground arith)
          | success payload encoded ↦
              let (b, decoded, same) = wire (event_of format_rfc3339 marshal tx) payload encoded in
              let m : Message = record {
                subject = transaction_created_subject;
                payload = payload;
                msg_id = tx.id;
              } in
              let added = enqueue-Queued m s (rw (encoded, publish_transaction_created) at sent) in
              (
                queued s m,
                rw (encoded, publish_transaction_created) added,
                refl,
                refl,
                rw (decoded, same, consume, on_transaction_created) refl,
              )
        ]
