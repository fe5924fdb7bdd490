-- ===== src/Expense/Events.antt =====
-- services/expense-service/internal/events/publisher.go and domain/event.go: the event of a
-- transaction, put in the outbox. `json.Marshal` and `Format` are parameters.
use finora.Base.{Option, Text, str, Result, ok, err, Action}
use finora.Golang.Float.{Float}
use finora.Golang.Time.{Time}
use finora.Mongo.{Collection, ObjectIds}
use finora.Outbox.{Event, enqueue}
use finora.Expense.Domain.{Transaction, TransactionType, EventPublisher}

abbrev pub transaction_created_subject : Text
transaction_created_subject = str "finora.transaction.created"

pub record TransactionCreatedEvent : Type 0 where
  pub transaction_id : Text
  pub user_id : Text
  pub account_id : Text
  pub category_id : Option Text
  pub type : TransactionType
  pub amount : Float
  pub currency : Text
  pub date : Text

module _ (format_rfc3339 : Time → Text) (marshal : TransactionCreatedEvent → Result Text) where
  unfoldable pub event_of : Transaction → TransactionCreatedEvent
  event_of tx = record {
    transaction_id = tx.id;
    user_id = tx.user_id;
    account_id = tx.account_id;
    category_id = tx.category_id;
    type = tx.type;
    amount = tx.amount;
    currency = tx.currency;
    date = format_rfc3339 tx.date;
  }

  module _ {S O : Type 0} (ids : ObjectIds O) (col : Collection S (Event O)) (new_id : S → O)
      (now : Time) where
    unfoldable pub publish_transaction_created : Transaction → Action S (Unit {0})
    unfolding event_of
    publish_transaction_created tx s = elim (marshal (event_of tx)) [
      | err e ↦ (err e, s)
      | ok payload ↦
          enqueue ids col (new_id s) now
            (record { subject = transaction_created_subject; payload = payload; msg_id = tx.id }) s
    ]

    -- `OutboxPublisher`
    abbrev pub outbox_publisher : EventPublisher S
    outbox_publisher = record { publish_transaction_created = publish_transaction_created }
