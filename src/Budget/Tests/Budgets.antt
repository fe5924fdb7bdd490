-- ===== src/Budget/Tests/Budgets.antt =====
-- Overspend detection over a store in memory with the budgets of two users.
use finora.Base.{◌*◌, ◌≡◌, ◌≢◌, refl, List, [], ◌∷◌, none, Text, str, ok}
use finora.Golang.Text.{text_eq}
use finora.Golang.Text.Laws.{ne_of_text_eq}
use finora.Golang.Float.{whole}
use finora.Golang.Time.{day_ns}
use finora.Mongo.Memory.{memory, memory-IsCollection, text_ids}
use finora.Budget.Period.{period_weekly}
use finora.Budget.Domain.{EventPublisher, ExpenseClient}
use finora.Budget.Overspend.{handle_transaction_created}
use finora.Budget.Store.Budgets.{BudgetDocument, repository}
use finora.Budget.Store.Budgets.Owned.{owned, handle_transaction_created-owned}
use finora.Budget.Tests.{r}

abbrev State : Type 0
State = List (BudgetDocument Text) × Unit {0}

abbrev food : Text → Text → BudgetDocument Text
food id user_id = record {
  id = id;
  user_id = user_id;
  category = str "food";
  amount = whole 10;
  period = period_weekly;
  created_at = 1;
  updated_at = 1;
  last_notified_at = none;
}

abbrev state : State
state = (food (str "b1") (str "ann") ∷ food (str "b2") (str "bob") ∷ [], tt)

abbrev client : ExpenseClient State
client = record { sum_expenses_by_category = λ u category from to s. ok (whole 12) }

abbrev publisher : EventPublisher State
publisher = record { publish_budget_overspent = λ e s. (ok tt, s) }

abbrev new_id : State → Text
new_id s = str "b3"

ann-bob : str "ann" ≢ str "bob"
unfolding text_eq
ann-bob = ne_of_text_eq (str "ann") (str "bob") refl

handle_transaction_created-owned_example :
    owned memory
      (str "bob")
      (handle_transaction_created r
        (λ t. [])
        (repository text_ids memory new_id 9)
        client
        publisher
        (str "ann")
        (10 * day_ns)
        state).1
    ≡ owned memory (str "bob") state
handle_transaction_created-owned_example =
    handle_transaction_created-owned text_ids memory memory-IsCollection new_id 9 r (λ t. []) client
      publisher (λ e s. refl) (str "ann") (str "bob") (10 * day_ns) state ann-bob
