-- ===== src/Expense/Tests/Http.antt =====
-- The theorems on the handlers of transactions, applied to requests and to a small file.
use finora.Base.{◌≡◌, refl, List, [], ◌∷◌, map, some, none, Text, str, ok, length}
use finora.Golang.Time.{Time}
use finora.Http.{Context, success_envelope}
use finora.Http.Middleware.{user_id}
use finora.Expense.Domain.{Account, CategoryRepository, income}
use finora.Expense.Import.{ImportResult}
use finora.Expense.Import.Counts.{IsTally, skips_of}
use finora.Expense.Http.Transactions.{TransactionRequest}
use finora.Expense.Http.Import.{Read, fields, opened, row_of, layout_of, import_csv}
use finora.Expense.Http.Import.Tally.{import_csv-IsTally}
use finora.Golang.Float.{whole}
use finora.Expense.Tests.{state, accounts, categories, transactions, publisher}
use finora.Expense.Tests.Imports.{lib}

abbrev context : Context
context = record {
  method = str "POST";
  client_ip = [];
  headers = [];
  user_id = some (str "ann");
  request_id = none;
  written = [];
}

abbrev request : TransactionRequest
request = record {
  account_id = str "acc";
  category_id = none;
  type = income;
  amount = whole 7;
  currency = str "USD";
  date = str "2024-01-02";
  note = str "pay";
}

-- A header with a column that stands twice, and three records, of which one is short.
abbrev header : List Text
header = str "date" ∷ str "amount" ∷ str "amount" ∷ []

abbrev file : List Read
file =
    fields header
    ∷ fields (str "2024-01-02" ∷ str "x" ∷ str "12" ∷ [])
    ∷ fields (str "2024-01-03" ∷ [])
    ∷ fields (str "2024-01-04" ∷ str "12" ∷ str "-5" ∷ [])
    ∷ []

abbrev report : ImportResult
report = record {
  imported = 2;
  skipped = 1;
  errors = record { row = 3; message = str "no amount, debit, or credit value for this row" } ∷ [];
}

import_csv-IsTally_example :
    (head : List Text) × (records : List (List Text)) × (opened file
      ≡ opened (fields head ∷ map fields records))
    × (account : Account) × (accounts.get_by_id_for_user (str "acc") (str "ann") state ≡ ok account)
    × IsTally
        (length records)
        (skips_of lib transactions accounts publisher 9
          (str "ann")
          account
          2
          (map (row_of (layout_of (λ t. t) head)) records)
          state)
        report
unfolding import_csv finora.Golang.Text.trim_space finora.Golang.Text.text_eq
    finora.Expense.Http.Import.normalize_header finora.Expense.Http.Import.read_rows
    finora.Expense.Import.import success_envelope finora.Expense.Import.import_row
    finora.Expense.Import.build_imported_transaction finora.Expense.Import.Amounts.parse_import_date
    row_of finora.Expense.Import.Amounts.resolve_import_amount
    finora.Expense.Import.Amounts.parse_import_amount finora.Golang.Text.has_prefix
    finora.Expense.Domain.valid_transaction_type finora.Expense.Transactions.max_amount transactions
    finora.Expense.Import.skip_row finora.Expense.Import.error_text
import_csv-IsTally_example =
    import_csv-IsTally lib transactions accounts categories publisher 9 context (str "acc")
      (opened file) state report refl
