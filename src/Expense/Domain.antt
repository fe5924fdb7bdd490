-- ===== src/Expense/Domain.antt =====
-- services/expense-service/internal/domain: the records of accounts, categories and transactions,
-- the inputs of the services, and the interfaces of the repositories. A repository works on a
-- state `S`, the databases; `create` gives back the record with the id that it was given.
use finora.Base.{ℕ, Bool, true, false, List, Option, Text, str, Result, Action, if◌then◌else◌}
use finora.Golang.Text.{text_eq}
use finora.Golang.Float.{Float}
use finora.Golang.Float.Int.{ℤ}
use finora.Golang.Time.{Time}

-- The types of accounts and of transactions are strings, as they come in a request.
abbrev pub AccountType : Type 0
AccountType = Text

abbrev pub TransactionType : Type 0
TransactionType = Text

abbrev pub income : TransactionType
income = str "income"

abbrev pub expense : TransactionType
expense = str "expense"

unfoldable pub valid_account_type : AccountType → Bool
unfolding text_eq
valid_account_type t =
    if text_eq t (str "checking")
    then true
    else if text_eq t (str "savings")
    then true
    else if text_eq t (str "credit")
    then true
    else if text_eq t (str "cash")
    then true
    else false

unfoldable pub valid_transaction_type : TransactionType → Bool
valid_transaction_type t =
    if text_eq t income then true else if text_eq t expense then true else false

pub record Account : Type 0 where
  pub id : Text
  pub user_id : Text
  pub name : Text
  pub type : AccountType
  pub currency : Text
  pub balance : Float
  pub created_at : Time
  pub updated_at : Time

pub record Category : Type 0 where
  pub id : Text
  pub user_id : Text
  pub name : Text
  pub type : TransactionType
  pub created_at : Time
  pub updated_at : Time

pub record Transaction : Type 0 where
  pub id : Text
  pub user_id : Text
  pub account_id : Text
  pub category_id : Option Text
  pub type : TransactionType
  pub amount : Float
  pub currency : Text
  pub date : Time
  pub note : Text
  pub created_at : Time
  pub updated_at : Time

pub record CreateAccountInput : Type 0 where
  pub name : Text
  pub type : AccountType
  pub currency : Text

pub record UpdateAccountInput : Type 0 where
  pub name : Text
  pub type : AccountType
  pub currency : Text
  pub balance : Option Float

pub record CreateCategoryInput : Type 0 where
  pub name : Text
  pub type : TransactionType

-- `CreateTransactionInput` and `UpdateTransactionInput` have the same fields.
pub record TransactionInput : Type 0 where
  pub account_id : Text
  pub category_id : Option Text
  pub type : TransactionType
  pub amount : Float
  pub currency : Text
  pub date : Time
  pub note : Text

pub record ListTransactionsInput : Type 0 where
  pub account_id : Text
  pub category : Text
  pub from : Option Time
  pub to : Option Time
  pub page : ℤ
  pub page_size : ℤ

pub record TransactionFilter : Type 0 where
  pub account_id : Text
  pub category : Text
  pub from : Option Time
  pub to : Option Time
  pub page : ℤ
  pub page_size : ℤ

pub record TransactionPage : Type 0 where
  pub transactions : List Transaction
  pub page : ℤ
  pub page_size : ℤ
  pub total : ℕ

pub record AccountRepository (S : Type 0) : Type 0 where
  pub create : Account → Action S Account
  pub list_by_user : Text → S → Result (List Account)
  pub get_by_id_for_user : Text → Text → S → Result Account
  pub update : Account → Action S (Unit {0})
  pub delete_by_id_for_user : Text → Text → Action S (Unit {0})

pub record CategoryRepository (S : Type 0) : Type 0 where
  pub create : Category → Action S Category
  pub list_by_user : Text → S → Result (List Category)
  pub get_by_id_for_user : Text → Text → S → Result Category

pub record TransactionRepository (S : Type 0) : Type 0 where
  pub create : Transaction → Action S Transaction
  pub list_by_user : Text → TransactionFilter → S → Result TransactionPage
  pub get_by_id_for_user : Text → Text → S → Result Transaction
  pub update : Transaction → Action S (Unit {0})
  pub delete_by_id_for_user : Text → Text → Action S (Unit {0})

-- `PublishTransactionCreated`.
pub record EventPublisher (S : Type 0) : Type 0 where
  pub publish_transaction_created : Transaction → Action S (Unit {0})
