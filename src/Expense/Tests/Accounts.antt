-- ===== src/Expense/Tests/Accounts.antt =====
-- The theorems on accounts, over a store in memory with the accounts of two users.
use finora.Base.{ok, err, Error, ◌≡◌, ◌⊎◌, List, [], ◌∷◌, some, none, Text, str}
use finora.Golang.Float.{zero_float}
use finora.Mongo.{Collection}
use finora.Mongo.Memory.{memory, memory-IsCollection, text_ids}
use finora.Http.{Context, success_envelope, fail, code_not_found, code_internal, no_details}
use finora.Http.Middleware.{user_id}
use finora.Expense.Store.Accounts.{AccountDoc, repository}
use finora.Expense.Store.Accounts.Book.{
  Call, create_account, update_account, delete_account, list_accounts, book, perform, Step, Holds,
  shown,
}
use finora.Expense.Store.Accounts.Refined.{perform-Step}
use finora.Expense.Store.Accounts.Interleaved.{Turn, own, serve, Runs, serve-Runs}
use finora.Expense.Http.Services.{account_service}
use finora.Expense.Http.Accounts.{account, get}
use finora.Expense.Http.Accounts.Found.{Reads, Lacks, get-answers}

abbrev State : Type 0
State = List (AccountDoc Text) × Unit {0}

abbrev doc : Text → Text → AccountDoc Text
doc id user_id = record {
  id = id;
  user_id = user_id;
  name = str "Main";
  type = str "cash";
  currency = str "USD";
  balance = zero_float;
  created_at = 1;
  updated_at = 1;
}

abbrev state : State
state = (doc (str "a1") (str "ann") ∷ doc (str "b1") (str "bob") ∷ [], tt)

abbrev store : Collection State (AccountDoc Text)
store = memory

abbrev new_id : State → Text
new_id s = str "a2"

-- Ann renames her account.
abbrev rename : Call
rename =
    update_account (str "a1")
      (record { name = str " Wallet "; type = str "cash"; currency = str "EUR"; balance = none })

perform-Step_example :
    Step text_ids 9
      (str "ann")
      rename
      (book store (str "ann") state)
      (perform text_ids store new_id 9 (str "ann") rename state).0
      (book store (str "ann") (perform text_ids store new_id 9 (str "ann") rename state).1)
perform-Step_example =
    perform-Step text_ids store memory-IsCollection new_id 9 (str "ann") rename state

-- Ann deletes an account of Bob's, Bob opens one, and Ann lists hers.
abbrev turns : List Turn
turns =
    record { user = str "ann"; now = 2; call = delete_account (str "b1") }
    ∷ record {
      user = str "bob";
      now = 3;
      call = create_account (record { name = str "Trip"; type = str "cash"; currency = str "EUR" });
    }
    ∷ record { user = str "ann"; now = 4; call = list_accounts }
    ∷ []

serve-Runs_example :
    Runs text_ids
      (own (str "ann") turns)
      (book store (str "ann") state)
      (book store (str "ann") (serve text_ids store new_id turns state))
serve-Runs_example = serve-Runs text_ids store memory-IsCollection new_id (str "ann") turns state

abbrev context : Context
context = record {
  method = str "GET";
  client_ip = [];
  headers = [];
  user_id = some (str "ann");
  request_id = none;
  written = [];
}

get-answers_example :
    ((oid : Text) × (d : AccountDoc Text) × Reads text_ids store memory-IsCollection
        (user_id context)
        (str "b1")
        state
        oid
        (ok (some d))
      × Holds text_ids (book store (user_id context) state) (str "b1") oid d
      × ((get (account_service (repository text_ids store new_id) 9) context (str "b1") state).0
          ≡ success_envelope context 200 (account (shown text_ids d))))
    ⊎ (Lacks text_ids store memory-IsCollection (user_id context) (str "b1") state
        × ((get (account_service (repository text_ids store new_id) 9) context (str "b1") state).0
            ≡ fail context 404 code_not_found (str "resource not found") no_details))
    ⊎ ((oid : Text) × (e : Error) × Reads text_ids store memory-IsCollection
          (user_id context)
          (str "b1")
          state
          oid
          (err e)
        × ((get (account_service (repository text_ids store new_id) 9) context (str "b1") state).0
            ≡ fail context 500 code_internal (str "internal server error") no_details))
get-answers_example =
    get-answers text_ids store memory-IsCollection new_id 9 (λ p s e h. absurd cc) context
      (str "b1") state
