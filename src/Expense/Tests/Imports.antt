-- ===== src/Expense/Tests/Imports.antt =====
-- The theorems on imports, applied to rows of a statement. The parsers know a few cells.
use finora.Base.{◌≡◌, refl, false, [], ◌∷◌, none, some, Text, str, ok, if◌then◌else◌}
use finora.Golang.Text.{text_eq, is_empty, trim_space}
use finora.Golang.Float.{nan, lt, zero_float, neg, whole}
use finora.Expense.Domain.{Transaction, income, expense}
use finora.Expense.Import.Amounts.{Library, ImportRow, resolve_import_amount}
use finora.Expense.Import.Amounts.Direction.{resolve_import_amount-nonneg}
use finora.Expense.Import.{ImportRowError, ImportResult, import, build_imported_transaction}
use finora.Expense.Import.Stored.{IsImported, build_imported_transaction-IsImported, nan_imported}
use finora.Mongo.Memory.{memory, memory-IsCollection, text_ids}
use finora.Expense.Store.Transactions.{repository}
use finora.Expense.Store.Transactions.Owned.{owned}
use finora.Expense.Store.Imports.{import-owned}
use finora.Expense.Tests.{new_id, ann-bob, state, account, accounts, publisher}

abbrev pub lib : Library
lib = record {
  parse_float = λ t.
      if text_eq t (str "NaN")
      then some nan
      else if text_eq t (str "12")
      then some (whole 12)
      else if text_eq t (str "-5")
      then some (neg (whole 5))
      else none;
  parse_time = λ layout t. some 8;
  to_lower = λ t. t;
  quote = λ t. t;
}

abbrev row : Text → Text → ImportRow
row amount debit = record {
  date = str "2024-01-02";
  description = str "shop";
  amount = amount;
  debit = debit;
  credit = [];
  type = [];
}

abbrev shop : Transaction
shop = record {
  id = [];
  user_id = str "ann";
  account_id = str "acc";
  category_id = none;
  type = expense;
  amount = whole 5;
  currency = str "USD";
  date = 8;
  note = str "shop";
  created_at = 9;
  updated_at = 9;
}

build_imported_transaction-IsImported_example : IsImported (str "ann") account 9 shop
unfolding build_imported_transaction finora.Expense.Import.Amounts.parse_import_date trim_space
    resolve_import_amount finora.Expense.Import.Amounts.parse_import_amount
    finora.Golang.Text.has_prefix text_eq finora.Expense.Domain.valid_transaction_type
    finora.Expense.Transactions.max_amount finora.Expense.Import.cut_note
build_imported_transaction-IsImported_example =
    build_imported_transaction-IsImported lib (str "ann") account (row (str "-5") []) 9 shop refl

nan_imported_example :
    (tx : Transaction) × (build_imported_transaction lib (str "ann") account (row (str "NaN") []) 9
      ≡ ok tx)
    × (tx.amount ≡ nan)
unfolding finora.Expense.Import.Amounts.parse_import_date trim_space
    finora.Expense.Import.Amounts.parse_import_amount finora.Golang.Text.has_prefix text_eq
    finora.Expense.Domain.valid_transaction_type
nan_imported_example =
    nan_imported lib (str "ann") account (row (str "NaN") []) 9 8 refl refl refl refl

resolve_import_amount-nonneg_example : lt (whole 5) zero_float ≡ false
unfolding resolve_import_amount trim_space finora.Expense.Import.Amounts.parse_import_amount
    finora.Golang.Text.has_prefix text_eq
resolve_import_amount-nonneg_example =
    resolve_import_amount-nonneg lib (row (str "-5") []) (whole 5) expense refl

import-owned_example :
    owned memory
      (str "bob")
      (import lib
        (repository text_ids memory new_id)
        accounts
        publisher
        9
        (str "ann")
        (str "acc")
        (row (str "12") [] ∷ [])
        state).1
    ≡ owned memory (str "bob") state
import-owned_example =
    import-owned text_ids memory memory-IsCollection new_id accounts lib publisher (λ tx s. refl) 9
      (str "ann") (str "bob") (str "acc") (row (str "12") [] ∷ []) state ann-bob
