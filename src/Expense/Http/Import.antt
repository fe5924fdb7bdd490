-- ===== src/Expense/Http/Import.antt =====
-- services/expense-service/internal/handler/transaction_import.go: the upload of a statement. What
-- gin gives of the form and what `csv.Reader` gives of the file are arguments; `strings.ToLower` is
-- a parameter.
pub mod Columns
pub mod Tally
use finora.Base.{
  ℕ, ◌+◌, Bool, true, false, ◌||◌, not, List, [], ◌∷◌, ◌++◌, Option, none, some, Text, str, Result,
  ok, err, failed, find_first, get_elem?, if◌then◌else◌, Action, Error, reads,
}
use finora.Golang.Text.{text_eq, is_empty, trim_space}
use finora.Http.{Context, Response, success_envelope, fail, code_validation, keyed, no_details}
use finora.Http.Middleware.{user_id}
use finora.Expense.Import.{ImportResult}
use finora.Expense.Import.Amounts.{ImportRow}
use finora.Expense.Http.{answer}
use finora.Expense.Http.Services.{TransactionService}

-- What a `Read` of the file gives, before its end; `malformed` has the error's text.
pub data Read : Type 0 where
  fields : List Text → Read
  malformed : Text → Read

-- An entry of the map from the names of the columns to their indices.
pub record Column : Type 0 where
  pub name : Text
  pub index : ℕ

-- `importColumnAliases`
abbrev pub date_aliases : List Text
date_aliases = str "date" ∷ str "transaction date" ∷ str "posted date" ∷ []

abbrev pub description_aliases : List Text
description_aliases = str "description" ∷ str "merchant" ∷ str "payee" ∷ str "note" ∷ []

abbrev pub amount_aliases : List Text
amount_aliases = str "amount" ∷ []

abbrev pub debit_aliases : List Text
debit_aliases = str "debit" ∷ []

abbrev pub credit_aliases : List Text
credit_aliases = str "credit" ∷ []

abbrev pub type_aliases : List Text
type_aliases = str "type" ∷ []

abbrev pub is_column : Text → Column → Bool
is_column name column = text_eq column.name name

abbrev pub index_of : Option Column → Option ℕ
index_of none = none
index_of (some column) = some column.index

-- `findColumn`: the index of the first alias that the map has, `none` for -1.
unfoldable pub find_column : List Column → List Text → Option ℕ
find_column columns [] = none
find_column columns (alias ∷ aliases) =
    let rest = find_column columns aliases in
    elim (find_first (is_column alias) columns) [ some column ↦ some column.index | none ↦ rest ]

abbrev pub text_or_blank : Option Text → Text
text_or_blank none = []
text_or_blank (some t) = t

-- `field`: blank where the column is missing or the record is too short.
unfoldable pub field : List Text → Option ℕ → Text
field record_fields none = []
field record_fields (some i) = text_or_blank (get_elem? record_fields i)

abbrev pub is_found : Option ℕ → Bool
is_found none = false
is_found (some i) = true

-- The columns that the rows are read by.
pub record Layout : Type 0 where
  pub date : Option ℕ
  pub description : Option ℕ
  pub amount : Option ℕ
  pub debit : Option ℕ
  pub credit : Option ℕ
  pub type : Option ℕ

unfoldable pub row_of : Layout → List Text → ImportRow
unfolding field
row_of layout cells = record {
  date = field cells layout.date;
  description = field cells layout.description;
  amount = field cells layout.amount;
  debit = field cells layout.debit;
  credit = field cells layout.credit;
  type = field cells layout.type;
}

-- The loop over the records.
unfoldable pub read_rows : Layout → List Read → Result (List ImportRow)
read_rows layout [] = ok []
read_rows layout (malformed e ∷ reads) =
    err (failed (str "could not parse the uploaded file as CSV: " ++ e))
read_rows layout (fields cells ∷ reads) = elim (read_rows layout reads) [
  | ok rows ↦ ok (row_of layout cells ∷ rows)
  | err e ↦ err e
]

-- What `FormFile` and `Open` give.
pub data Upload : Type 0 where
  no_file : Upload
  unreadable : Upload
  opened : List Read → Upload

-- The text of an error of `parseImportCSV`.
abbrev pub parse_error : Error → Text
parse_error (failed m) = m
parse_error other = []

module _ (to_lower : Text → Text) where
  unfoldable pub normalize_header : Text → Text
  normalize_header name = to_lower (trim_space name)

  -- The map of the columns: a name that stands twice has its last index.
  unfoldable pub column_index : ℕ → List Text → List Column → List Column
  column_index i [] columns = columns
  column_index i (name ∷ names) columns =
      column_index (i + 1) names (record { name = normalize_header name; index = i } ∷ columns)

  -- The columns of a header.
  unfoldable pub layout_of : List Text → Layout
  unfolding find_column column_index
  layout_of header =
      let columns = column_index 0 header [] in
      record {
        date = find_column columns date_aliases;
        description = find_column columns description_aliases;
        amount = find_column columns amount_aliases;
        debit = find_column columns debit_aliases;
        credit = find_column columns credit_aliases;
        type = find_column columns type_aliases;
      }

  -- `parseImportCSV`; its errors have the text that the answer shows.
  unfoldable pub parse_import_csv : List Read → Result (List ImportRow)
  unfolding layout_of
  parse_import_csv [] = err (failed (str "the uploaded file is empty"))
  parse_import_csv (malformed e ∷ reads) =
      err (failed (str "could not parse the uploaded file as CSV"))
  parse_import_csv (fields header ∷ reads) =
      let layout = layout_of header in
      if not (is_found layout.date)
      then err (failed (str "CSV must include a date column (e.g. \"Date\")"))
      else if not (is_found layout.amount || is_found layout.debit || is_found layout.credit)
      then err (
          failed (
            str
              "CSV must include an amount column (e.g. \"Amount\"), or separate \"Debit\"/\"Credit\" columns"))
      else read_rows layout reads

  module _ {S : Type 0} (svc : TransactionService S) where
    unfoldable pub import_csv : Context → Text → Upload → S → Response ImportResult × S
    unfolding parse_import_csv answer user_id
    import_csv c form_account_id upload s =
        let account_id = trim_space form_account_id in
        if is_empty account_id
        then (
          fail c 400 code_validation (str "account_id is required")
              (keyed (str "field") (str "account_id")),
          s,
        )
        else elim upload [
          | no_file ↦ (
            fail c 400 code_validation (str "a CSV file is required (multipart field \"file\")")
                (keyed (str "field") (str "file")),
            s,
          )
          | unreadable ↦
              (fail c 400 code_validation (str "could not read uploaded file") no_details, s)
          | opened reads ↦ elim (parse_import_csv reads) [
            | err e ↦
                (fail c 400 code_validation (parse_error e) (keyed (str "field") (str "file")), s)
            | ok rows ↦
                let (r, s') = svc.import (user_id c) account_id rows s in
                (answer c 200 (λ result. result) r, s')
          ]
        ]
