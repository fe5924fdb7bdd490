-- ===== src/Expense/Http/Services.antt =====
-- services/expense-service/internal/domain: the interfaces of the services, which the handlers
-- call, and the services that fill them.
use finora.Base.{List, Text, Result, Action}
use finora.Golang.Time.{Time}
use finora.Expense.Domain.{
  Account, CreateAccountInput, UpdateAccountInput, AccountRepository, Category, CreateCategoryInput,
  CategoryRepository, Transaction, TransactionInput, ListTransactionsInput, TransactionPage,
  TransactionRepository, EventPublisher,
}
use finora.Expense.Accounts
use finora.Expense.Categories
use finora.Expense.Transactions
use finora.Expense.Import
use finora.Expense.Import.{ImportResult}
use finora.Expense.Import.Amounts.{Library, ImportRow}

pub record AccountService (S : Type 0) : Type 0 where
  pub create : Text → CreateAccountInput → Action S Account
  pub list : Text → S → Result (List Account)
  pub get : Text → Text → S → Result Account
  pub update : Text → Text → UpdateAccountInput → Action S Account
  pub delete : Text → Text → Action S (Unit {0})

pub record CategoryService (S : Type 0) : Type 0 where
  pub create : Text → CreateCategoryInput → Action S Category
  pub list : Text → S → Result (List Category)

pub record TransactionService (S : Type 0) : Type 0 where
  pub create : Text → TransactionInput → Action S Transaction
  pub list : Text → ListTransactionsInput → S → Result TransactionPage
  pub get : Text → Text → S → Result Transaction
  pub update : Text → Text → TransactionInput → Action S Transaction
  pub delete : Text → Text → Action S (Unit {0})
  pub import : Text → Text → List ImportRow → Action S ImportResult

-- `NewAccountService`, `NewCategoryService` and `NewTransactionService`, at a moment.
abbrev pub account_service : {S : Type 0} → AccountRepository S → Time → AccountService S
account_service repo now = record {
  create = Accounts.create repo now;
  list = Accounts.list repo now;
  get = Accounts.get repo now;
  update = Accounts.update repo now;
  delete = Accounts.delete repo now;
}

abbrev pub category_service : {S : Type 0} → CategoryRepository S → Time → CategoryService S
category_service repo now = record {
  create = Categories.create repo now;
  list = Categories.list repo now;
}

module _ {S : Type 0} (lib : Library) where
  abbrev pub transaction_service :
      TransactionRepository S
      → AccountRepository S
      → CategoryRepository S
      → EventPublisher S
      → Time
      → TransactionService S
  transaction_service repo account_repo category_repo publisher now = record {
    create = Transactions.create repo account_repo category_repo publisher now;
    list = Transactions.list repo;
    get = Transactions.get repo;
    update = Transactions.update repo account_repo category_repo now;
    delete = Transactions.delete repo;
    import = Import.import lib repo account_repo publisher now;
  }
