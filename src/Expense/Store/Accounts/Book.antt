-- ===== src/Expense/Store/Accounts/Book.antt =====
-- The accounts of one user as a book, that is a list of documents that no other user shares: what
-- each request may do to it and answer, with no word of owners or of the other documents. And the
-- requests as account_service.go performs them over mongo_account.go.
use finora.Base.{
  ◌≡◌, ◌⊎◌, ◌++◌, Bool, true, false, List, [], ◌∷◌, Option, none, some, map, Text, Result, ok, err,
  map_ok, Action, find_first, select, update_first, delete_first,
}
use finora.Golang.Text.{trim_space, is_empty}
use finora.Golang.Float.{Float, zero_float}
use finora.Golang.Time.{Time}
use finora.Mongo.{bson_date, Collection, ObjectIds, Descending}
use mathlib.Core.List.{Permᴰ}
use finora.Expense.Domain.{
  Account, AccountType, valid_account_type, CreateAccountInput, UpdateAccountInput,
}
use finora.Expense.Accounts
use finora.Expense.Store.Accounts.{AccountDoc, of_user, repository}

pub data Call : Type 0 where
  create_account : CreateAccountInput → Call
  list_accounts : Call
  get_account : Text → Call
  update_account : Text → UpdateAccountInput → Call
  delete_account : Text → Call

pub data Answer : Type 0 where
  accounts : List Account → Answer
  account : Account → Answer
  done : Answer

-- The book of a user in a state of the database.
abbrev pub book : {S O : Type 0} → Collection S (AccountDoc O) → Text → S → List (AccountDoc O)
book col u s = select (of_user u) (col.docs s)

module _ {S O : Type 0} (ids : ObjectIds O) (col : Collection S (AccountDoc O)) where
  unfoldable pub perform : (S → O) → Time → Text → Call → Action S Answer
  perform new_id now u (create_account input) s =
      let (r, s') = Accounts.create (repository ids col new_id) now u input s in
      (map_ok account r, s')
  perform new_id now u list_accounts s =
      (map_ok accounts (Accounts.list (repository ids col new_id) now u s), s)
  perform new_id now u (get_account id) s =
      (map_ok account (Accounts.get (repository ids col new_id) now u id s), s)
  perform new_id now u (update_account id input) s =
      let (r, s') = Accounts.update (repository ids col new_id) now u id input s in
      (map_ok account r, s')
  perform new_id now u (delete_account id) s =
      let (r, s') = Accounts.delete (repository ids col new_id) now u id s in
      (map_ok (λ _. done) r, s')

-- What a request must say of an account: a name and a currency that are not blank, and a type that
-- is one of the four.
abbrev pub Accepted : Text → AccountType → Text → Type 0
Accepted name type currency =
    (is_empty (trim_space name) ≡ false)
    × (valid_account_type type ≡ true)
    × (is_empty (trim_space currency) ≡ false)

-- The balance that an update leaves, where it may give one.
abbrev pub balance_after : Option Float → Float → Float
balance_after none old = old
balance_after (some b) old = b

-- What an update makes of a document.
abbrev pub revised : {O : Type 0} → Time → UpdateAccountInput → AccountDoc O → AccountDoc O
revised now input d = record d {
  name = trim_space input.name;
  type = input.type;
  currency = trim_space input.currency;
  balance = balance_after input.balance d.balance;
  updated_at = bson_date now;
}

-- The document of a new account.
abbrev pub opened : {O : Type 0} → O → Time → Text → CreateAccountInput → AccountDoc O
opened oid now u input = record {
  id = oid;
  user_id = u;
  name = trim_space input.name;
  type = input.type;
  currency = trim_space input.currency;
  balance = zero_float;
  created_at = bson_date now;
  updated_at = bson_date now;
}

module _ {O : Type 0} (ids : ObjectIds O) where
  abbrev pub has_id : O → AccountDoc O → Bool
  has_id oid d = ids.id_eq d.id oid

  -- The account that a document stands for.
  abbrev pub shown : AccountDoc O → Account
  shown d = record {
    id = ids.hex d.id;
    user_id = d.user_id;
    name = d.name;
    type = d.type;
    currency = d.currency;
    balance = d.balance;
    created_at = d.created_at;
    updated_at = d.updated_at;
  }

  abbrev pub Book : Type 0
  Book = List (AccountDoc O)

  -- The book `b` holds the document `d` under the id, which reads as `oid`.
  abbrev pub Holds : Book → Text → O → AccountDoc O → Type 0
  Holds b id oid d = (ids.from_hex id ≡ some oid) × (find_first (has_id oid) b ≡ some d)

  -- What a write makes of the book, whether it is reported or not.
  abbrev pub Wrote : Time → Text → Call → Book → Book → Type 0
  Wrote now u (create_account input) b b' =
      (oid : O) × Accepted input.name input.type input.currency
      × (b' ≡ b ++ opened oid now u input ∷ [])
  Wrote now u list_accounts b b' = b' ≡ b
  Wrote now u (get_account id) b b' = b' ≡ b
  Wrote now u (update_account id input) b b' =
      (oid : O) × (d : AccountDoc O) × Holds b id oid d
      × Accepted input.name input.type input.currency
      × (b' ≡ update_first (has_id oid) (λ _. revised now input d) b)
  Wrote now u (delete_account id) b b' =
      (oid : O) × (ids.from_hex id ≡ some oid) × (b' ≡ delete_first (has_id oid) b)

  -- The answer to a request that succeeds, between the book before it and after it; a time that the
  -- request sets is answered whole, where the book keeps its milliseconds.
  abbrev pub Answers : Time → Text → Call → Book → Answer → Book → Type 0
  Answers now u (create_account input) b a b' =
      (d : AccountDoc O) × (b' ≡ b ++ d ∷ [])
      × (a ≡ account (record (shown d) { created_at = now; updated_at = now }))
  Answers now u list_accounts b a b' =
      (docs : Book) × Permᴰ docs b
      × Descending (λ d. d.created_at) docs
      × (a ≡ accounts (map shown docs))
  Answers now u (get_account id) b a b' =
      (oid : O) × (d : AccountDoc O) × Holds b id oid d × (a ≡ account (shown d))
  Answers now u (update_account id input) b a b' =
      (oid : O) × (d : AccountDoc O) × Holds b id oid d
      × (a ≡ account (record (shown (revised now input d)) { updated_at = now }))
  Answers now u (delete_account id) b a b' = a ≡ done

  -- A request that succeeds answers from the book and writes to it; one that fails may have written
  -- to it or not.
  abbrev pub Step : Time → Text → Call → Book → Result Answer → Book → Type 0
  Step now u call b (ok a) b' = Answers now u call b a b' × Wrote now u call b b'
  Step now u call b (err e) b' = (b' ≡ b) ⊎ Wrote now u call b b'
