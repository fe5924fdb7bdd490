-- ===== src/Budget/Events.antt =====
-- services/budget-service/internal/events/publisher.go and domain/event.go: the event of an overspent
-- budget, put in the outbox; and the consumer of the events of transactions in cmd/server/main.go.
-- `json.Marshal` and `json.Unmarshal` are parameters.
use finora.Base.{Option, none, some, ◌++◌, Text, str, Result, ok, err, Action}
use finora.Golang.Float.{Float, Rounding}
use finora.Golang.Time.{Time}
use finora.Mongo.{Collection, ObjectIds}
use finora.Outbox.{Event, enqueue}
use finora.Eventbus.{Handler}
use finora.Budget.Domain.{BudgetOverspentEvent, EventPublisher, BudgetRepository, ExpenseClient}
use finora.Budget.Overspend.{handle_transaction_created}

abbrev pub transaction_created_subject : Text
transaction_created_subject = str "finora.transaction.created"

abbrev pub budget_overspent_subject : Text
budget_overspent_subject = str "finora.budget.overspent"

pub record TransactionCreatedEvent : Type 0 where
  pub transaction_id : Text
  pub user_id : Text
  pub account_id : Text
  pub category_id : Option Text
  pub type : Text
  pub amount : Float
  pub currency : Text
  pub date : Text

module _ (marshal : BudgetOverspentEvent → Result Text) {S O : Type 0} (ids : ObjectIds O)
    (col : Collection S (Event O)) (new_id : S → O) (now : Time) where
  unfoldable pub publish_budget_overspent : BudgetOverspentEvent → Action S (Unit {0})
  publish_budget_overspent event s = elim (marshal event) [
    | err e ↦ (err e, s)
    | ok payload ↦
        enqueue ids col (new_id s) now
          (record {
            subject = budget_overspent_subject;
            payload = payload;
            msg_id = event.budget_id ++ (str ":" ++ event.period_start);
          })
          s
  ]

  -- `OutboxPublisher`
  abbrev pub outbox_publisher : EventPublisher S
  outbox_publisher = record { publish_budget_overspent = publish_budget_overspent }

module _ (r : Rounding) (format_rfc3339 : Time → Text) {S : Type 0} (repo : BudgetRepository S)
    (client : ExpenseClient S) (publisher : EventPublisher S)
    (unmarshal : Text → Option TransactionCreatedEvent) (now : Time) where
  -- The function that `main` subscribes: an event that does not parse is discarded.
  unfoldable pub on_transaction_created : Handler S
  on_transaction_created subject payload s = elim (unmarshal payload) [
    | none ↦ (ok tt, s)
    | some event ↦
        handle_transaction_created r format_rfc3339 repo client publisher event.user_id now s
  ]
