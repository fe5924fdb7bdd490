-- ===== src/Pipeline/Tests.antt =====
-- The events of a transaction and of a budget, over outboxes in memory and services that know one
-- user.
use finora.Base.{◌≡◌, refl, List, [], Option, none, some, Text, str, Result, ok, err, not_found}
use finora.Golang.Float.{Rounding, fin, whole}
use finora.Mongo.{Collection}
use finora.Mongo.Memory.{memory, memory-IsCollection, text_ids}
use finora.Outbox.{Event}
use finora.Eventbus.{verdict_of, consume}
use finora.Expense.Domain.{Transaction, expense}
use finora.Expense.Events as ExpenseEvents
use finora.Expense.Events.{publish_transaction_created}
use finora.Budget.Domain.{BudgetOverspentEvent, BudgetRepository, ExpenseClient, EventPublisher}
use finora.Budget.Events as BudgetEvents
use finora.Budget.Events.{
  transaction_created_subject, on_transaction_created, publish_budget_overspent,
}
use finora.Budget.Overspend.{handle_transaction_created}
use finora.Notification.Domain
use finora.Notification.Domain.{NotificationRepository, EmailSender}
use finora.Pipeline.{Queued, transaction_created-reaches}

abbrev State : Type 0
State = List (Event Text) × Unit {0}

abbrev outbox : Collection State (Event Text)
outbox = memory

abbrev empty : State
empty = ([], tt)

abbrev new_id : State → Text
new_id s = str "e1"

abbrev r : Rounding
r = record { round = fin; lt-round = λ z. refl }

abbrev tx : Transaction
tx = record {
  id = str "t1";
  user_id = str "ann";
  account_id = str "acc";
  category_id = none;
  type = expense;
  amount = whole 3;
  currency = str "USD";
  date = 5;
  note = [];
  created_at = 5;
  updated_at = 5;
}

-- The payload is the user's id.
abbrev marshal : ExpenseEvents.TransactionCreatedEvent → Result Text
marshal e = ok e.user_id

abbrev unmarshal : Text → Option BudgetEvents.TransactionCreatedEvent
unmarshal t = some (record {
  transaction_id = [];
  user_id = t;
  account_id = [];
  category_id = none;
  type = [];
  amount = whole 0;
  currency = [];
  date = [];
})

wire :
    (e : ExpenseEvents.TransactionCreatedEvent) (payload : Text)
    → marshal e ≡ ok payload
    → (b : BudgetEvents.TransactionCreatedEvent) × (unmarshal payload ≡ some b)
      × (b.user_id ≡ e.user_id)
wire e payload h = (_, refl, cc)

abbrev budgets : BudgetRepository (Unit {0})
budgets = record {
  create = λ new s. (ok new, s);
  list_by_user = λ u s. ok [];
  get_by_id_for_user = λ id u s. err not_found;
  update = λ new s. (ok new, s);
  delete_by_id_for_user = λ id u s. (ok tt, s);
}

abbrev client : ExpenseClient (Unit {0})
client = record { sum_expenses_by_category = λ u category from to s. ok (whole 12) }

abbrev publisher : EventPublisher (Unit {0})
publisher = record { publish_budget_overspent = λ e s. (ok tt, s) }

transaction_created-reaches_example :
    (e : Event Text) × Queued outbox empty
      (publish_transaction_created (λ t. []) marshal text_ids outbox new_id 4 tx empty).1
      e
    × (e.subject ≡ transaction_created_subject)
    × (e.msg_id ≡ tx.id)
    × (consume
          (on_transaction_created r (λ t. []) budgets client publisher unmarshal 9)
          e.subject
          e.payload
          tt
        ≡ (
          verdict_of
              (handle_transaction_created r (λ t. []) budgets client publisher (str "ann") 9 tt).0,
          (handle_transaction_created r (λ t. []) budgets client publisher (str "ann") 9 tt).1,
        ))
unfolding publish_transaction_created finora.Outbox.enqueue
transaction_created-reaches_example =
    transaction_created-reaches text_ids outbox memory-IsCollection new_id 4 (λ t. []) marshal
      unmarshal r budgets client publisher 9 tx empty tt wire refl

abbrev over : BudgetOverspentEvent
over = record {
  budget_id = str "b1";
  user_id = str "ann";
  category = str "food";
  period = str "weekly";
  budgeted = whole 10;
  actual = whole 12;
  period_start = [];
}

-- A codec that knows one event.
abbrev written : BudgetOverspentEvent → Result Text
written e = ok []

abbrev read : Text → Option Domain.BudgetOverspentEvent
read payload = some (record {
  budget_id = str "b1";
  user_id = str "ann";
  category = str "food";
  period = str "weekly";
  budgeted = whole 10;
  actual = whole 12;
  period_start = [];
})

abbrev notifications : NotificationRepository (Unit {0})
notifications = record {
  create = λ n s. (ok n, s);
  list_by_user = λ u f s. err not_found;
  mark_read = λ u id s. (err not_found, s);
}

abbrev email : EmailSender (Unit {0})
email = record { send = λ u title message s. (ok tt, s) }
