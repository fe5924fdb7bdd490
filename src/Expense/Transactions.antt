-- ===== src/Expense/Transactions.antt =====
-- services/expense-service/internal/service/transaction_service.go over any repositories and any
-- publisher. The current time is an argument, and log lines are left out.
pub mod Paging
pub mod Creating
use finora.Base.{
  ℕ, ◌^◌, ◌*◌, ◌≡◌, Bool, true, false, not, ◌||◌, ◌&&◌, List, [], Option, none, some, Text, str,
  Error, validation, Result, ok, err, Action, ◌>>=◌, ◌>>◌, pure, reads, check, replace_not_found,
  map_ok, if◌then◌else◌,
}
use finora.Golang.Text.{text_eq, trim_space, is_empty}
use finora.Golang.Float.{Float, lt, le, zero_float, whole}
use finora.Golang.Float.Int.{ℤ, pos, ltb_ℤ}
use finora.Golang.Time.{Time, is_zero, before}
use finora.Expense.Domain.{
  Transaction, TransactionType, valid_transaction_type, TransactionInput, ListTransactionsInput,
  TransactionFilter, TransactionPage, AccountRepository, CategoryRepository, TransactionRepository,
  EventPublisher,
}

abbrev pub default_page : ℤ
default_page = pos 1

abbrev pub default_page_size : ℤ
default_page_size = pos 20

abbrev pub max_page_size : ℤ
max_page_size = pos 100

unfoldable pub max_amount : Float
max_amount = whole (10 ^ 12)

-- The page that `List` asks for, and its size.
unfoldable pub resolve_page : ℤ → ℤ
resolve_page page = if ltb_ℤ page (pos 1) then default_page else page

unfoldable pub resolve_page_size : ℤ → ℤ
resolve_page_size page_size =
    let size = if ltb_ℤ page_size (pos 1) then default_page_size else page_size in
    if ltb_ℤ max_page_size size then max_page_size else size

unfoldable pub validate_common : Text → TransactionType → Float → Text → Time → Option Error
validate_common account_id type amount currency date =
    if is_empty (trim_space account_id)
    then some (validation (str "account_id") (str "account_id is required"))
    else if not (valid_transaction_type type)
    then some (validation (str "type") (str "type must be one of: income, expense"))
    else if le amount zero_float
    then some (validation (str "amount") (str "amount must be greater than zero"))
    else if lt max_amount amount
    then some (validation (str "amount") (str "amount exceeds the maximum allowed value"))
    else if is_empty (trim_space currency)
    then some (validation (str "currency") (str "currency is required"))
    else if is_zero date
    then some (validation (str "date") (str "date is required"))
    else none

abbrev pub no_account : Error
no_account = validation (str "account_id") (str "account does not exist")

abbrev pub no_category : Error
no_category = validation (str "category_id") (str "category does not exist")

-- `in.From != nil && in.To != nil && in.To.Before(*in.From)`
abbrev pub ends_early : Option Time → Option Time → Bool
ends_early (some from) (some to) = before to from
ends_early _ _ = false

-- The checks that a referenced account and category belong to the caller.
module _ {S : Type 0} (account_repo : AccountRepository S) where
  unfoldable pub account_owned : Text → Text → S → Result (Unit {0})
  account_owned user_id id s =
      map_ok (λ _. tt) (replace_not_found no_account (account_repo.get_by_id_for_user id user_id s))

  -- `if in.AccountID != tx.AccountID { … }`
  unfoldable pub account_moved : Text → Transaction → TransactionInput → S → Result (Unit {0})
  unfolding account_owned
  account_moved user_id tx input s =
      if text_eq input.account_id tx.account_id
      then ok tt
      else account_owned user_id input.account_id s

module _ {S : Type 0} (category_repo : CategoryRepository S) where
  unfoldable pub category_owned : Text → Option Text → S → Result (Unit {0})
  category_owned user_id none s = ok tt
  category_owned user_id (some id) s =
      if is_empty (trim_space id)
      then ok tt
      else map_ok (λ _. tt)
          (replace_not_found no_category (category_repo.get_by_id_for_user id user_id s))

-- `publishCreated`: a failure is logged, and the result is dropped.
unfoldable pub publish_created : {S : Type 0} → EventPublisher S → Transaction → Action S (Unit {0})
publish_created publisher tx s = (ok tt, (publisher.publish_transaction_created tx s).1)

-- The transaction that `Create` hands to the repository.
unfoldable pub built : Time → Text → TransactionInput → Transaction
built now user_id input = record {
  id = [];
  user_id = user_id;
  account_id = input.account_id;
  category_id = input.category_id;
  type = input.type;
  amount = input.amount;
  currency = input.currency;
  date = input.date;
  note = input.note;
  created_at = now;
  updated_at = now;
}

-- The transaction that `Update` stores.
unfoldable pub changed : Time → Transaction → TransactionInput → Transaction
changed now tx input = record tx {
  account_id = input.account_id;
  category_id = input.category_id;
  type = input.type;
  amount = input.amount;
  currency = input.currency;
  date = input.date;
  note = input.note;
  updated_at = now;
}

-- `validateCommon` on the fields of an input
abbrev pub validate_input : TransactionInput → Option Error
validate_input input =
    validate_common input.account_id input.type input.amount input.currency input.date

module _ {S : Type 0} (repo : TransactionRepository S) where
  unfoldable pub list : Text → ListTransactionsInput → S → Result TransactionPage
  list user_id input s =
      let page = resolve_page input.page in
      let page_size = resolve_page_size input.page_size in
      let filter : TransactionFilter = record {
        account_id = input.account_id;
        category = input.category;
        from = input.from;
        to = input.to;
        page = page;
        page_size = page_size;
      } in
      if ends_early input.from input.to
      then err (validation (str "to") (str "to must not be before from"))
      else map_ok {A = TransactionPage}
          (λ result. record result { page = page; page_size = page_size })
          (repo.list_by_user user_id filter s)

  unfoldable pub get : Text → Text → S → Result Transaction
  get user_id id = repo.get_by_id_for_user id user_id

  unfoldable pub delete : Text → Text → Action S (Unit {0})
  delete user_id id = repo.delete_by_id_for_user id user_id

module _ {S : Type 0} (repo : TransactionRepository S) (account_repo : AccountRepository S)
    (category_repo : CategoryRepository S) where
  unfoldable pub create : EventPublisher S → Time → Text → TransactionInput → Action S Transaction
  unfolding publish_created
  create publisher now user_id input = do
    check (validate_input input)
    reads (account_owned account_repo user_id input.account_id)
    reads (category_owned category_repo user_id input.category_id)
    tx ← repo.create (built now user_id input)
    publish_created publisher tx
    pure tx

  unfoldable pub update : Time → Text → Text → TransactionInput → Action S Transaction
  update now user_id id input = do
    tx ← reads (repo.get_by_id_for_user id user_id)
    check (validate_input input)
    reads (account_moved account_repo user_id tx input)
    reads (category_owned category_repo user_id input.category_id)
    repo.update (changed now tx input)
    pure (changed now tx input)
