-- ===== src/Expense/Tests.antt =====
-- The theorems on transactions, applied to a store in memory with the transactions
-- of two users.
mod Imports
mod Accounts
mod Http
use finora.Base.{
  ◌≡◌, ◌≢◌, ◌⊎◌, refl, inl, inr, Bool, true, false, List, [], ◌∷◌, Option, none, some, Text, str,
  Error, validation, not_found, Result, ok, err, length, if◌then◌else◌,
}
use finora.Golang.Text.{text_eq, is_empty, trim_space}
use finora.Golang.Text.Laws.{ne_of_text_eq}
use finora.Golang.Float.{Float, fin, nan, lt, zero_float, abs, whole}
use finora.Golang.Float.Int.{pos, negsuc}
use finora.Golang.Time.{Time}
use finora.Mongo.Memory.{memory, memory-IsCollection, text_ids}
use finora.Expense.Domain.{
  Account, Category, Transaction, TransactionInput, AccountRepository, CategoryRepository,
  TransactionRepository, EventPublisher, income, expense,
}
use finora.Expense.Transactions.{create, update, built, validate_input, no_account}
use finora.Expense.Transactions.Creating.{
  HasCategory, create-stored, create-publisher, create-failed,
}
use finora.Expense.Store.Transactions.{
  TransactionDoc, repository, get_by_id_for_user, delete_by_id_for_user,
}
use finora.Expense.Store.Transactions.Owned.{owned, get-owned, delete-owned}
use finora.Expense.Store.Isolation.{service_create-owned, service_update-owned}

abbrev pub State : Type 0
State = List (TransactionDoc Text) × Unit {0}

abbrev doc : Text → Text → TransactionDoc Text
doc id user_id = record {
  id = id;
  user_id = user_id;
  account_id = str "acc";
  category_id = none;
  type = expense;
  amount = whole 3;
  currency = str "USD";
  date = 5;
  note = [];
  created_at = 5;
  updated_at = 5;
}

abbrev pub state : State
state = (doc (str "t1") (str "ann") ∷ doc (str "t2") (str "bob") ∷ [], tt)

abbrev pub new_id : State → Text
new_id s = str "t3"

abbrev pub account : Account
account = record {
  id = str "acc";
  user_id = str "ann";
  name = str "Main";
  type = str "cash";
  currency = str "USD";
  balance = zero_float;
  created_at = 1;
  updated_at = 1;
}

abbrev pub accounts : AccountRepository State
accounts = record {
  create = λ a s. (ok a, s);
  list_by_user = λ u s. ok (account ∷ []);
  get_by_id_for_user = λ id u s. if text_eq u (str "ann") then ok account else err not_found;
  update = λ a s. (ok tt, s);
  delete_by_id_for_user = λ id u s. (ok tt, s);
}

abbrev pub categories : CategoryRepository State
categories = record {
  create = λ c s. (ok c, s);
  list_by_user = λ u s. ok [];
  get_by_id_for_user = λ id u s. err not_found;
}

abbrev pub publisher : EventPublisher State
publisher = record { publish_transaction_created = λ tx s. (ok tt, s) }

abbrev pub transactions : TransactionRepository State
unfolding repository
transactions = repository text_ids memory new_id

abbrev input : TransactionInput
input = record {
  account_id = str "acc";
  category_id = none;
  type = income;
  amount = whole 7;
  currency = str "USD";
  date = 8;
  note = str "pay";
}

abbrev made : Transaction
made = record {
  id = str "t3";
  user_id = str "ann";
  account_id = str "acc";
  category_id = none;
  type = income;
  amount = whole 7;
  currency = str "USD";
  date = 8;
  note = str "pay";
  created_at = 9;
  updated_at = 9;
}

pub ann-bob : str "ann" ≢ str "bob"
unfolding text_eq
ann-bob = ne_of_text_eq (str "ann") (str "bob") refl

service_create-owned_example :
    owned memory
      (str "bob")
      (create
        (repository text_ids memory new_id)
        accounts
        categories
        publisher
        9
        (str "ann")
        input
        state).1
    ≡ owned memory (str "bob") state
service_create-owned_example =
    service_create-owned text_ids memory memory-IsCollection new_id accounts categories publisher 9
      (str "ann") (str "bob") input state (λ tx s. refl) ann-bob

service_update-owned_example :
    owned memory
      (str "bob")
      (update
        (repository text_ids memory new_id)
        accounts
        categories
        9
        (str "ann")
        (str "t2")
        input
        state).1
    ≡ owned memory (str "bob") state
service_update-owned_example =
    service_update-owned text_ids memory memory-IsCollection new_id accounts categories 9
      (str "ann") (str "bob") (str "t2") input state ann-bob

create-stored_example :
    (validate_input input ≡ none)
    × ((a : Account) × (accounts.get_by_id_for_user input.account_id (str "ann") state ≡ ok a))
    × HasCategory categories (str "ann") input.category_id state
    × ((transactions.create (built 9 (str "ann") input) state).0 ≡ ok made)
unfolding create finora.Expense.Transactions.validate_common trim_space
    finora.Expense.Domain.valid_transaction_type text_eq finora.Expense.Transactions.max_amount
    finora.Expense.Transactions.account_owned finora.Expense.Transactions.category_owned
    transactions built
create-stored_example =
    create-stored transactions accounts categories publisher 9 (str "ann") input state made refl
