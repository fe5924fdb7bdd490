-- ===== src/Expense/Import.antt =====
-- services/expense-service/internal/service/transaction_import.go: a statement's rows become
-- transactions, each on its own. The functions of the standard library that read numbers and
-- dates are parameters; the rows come from the handler.
pub mod Amounts
pub mod Counts
pub mod Stored
use finora.Base.{
  ℕ, suc, ◌+◌, ◌≡◌, Bool, true, false, not, ◌&&◌, ◌||◌, List, [], ◌∷◌, ◌++◌, Option, none, some,
  Text, str, Error, validation, not_found, duplicate_email, invalid_credentials, invalid_token,
  failed, Result, ok, err, Action, ◌>>=◌, ◌>>◌, pure, reads, check, replace_not_found, length, take,
  ltb, leb, ◌==◌, if◌then◌else◌,
}
use finora.Golang.Text.{text_eq, trim_space, is_empty}
use finora.Golang.Float.{Float, lt, le, zero_float, abs}
use finora.Golang.Time.{Time}
use finora.Expense.Domain.{
  Account, Transaction, TransactionType, valid_transaction_type, AccountRepository,
  TransactionRepository, EventPublisher, income, expense,
}
use finora.Expense.Transactions.{max_amount, no_account}
use finora.Expense.Import.Amounts.{Library, ImportRow, parse_import_date, resolve_import_amount}

pub record ImportRowError : Type 0 where
  pub row : ℕ
  pub message : Text

pub record ImportResult : Type 0 where
  pub imported : ℕ
  pub skipped : ℕ
  pub errors : List ImportRowError

abbrev pub max_import_errors : ℕ
max_import_errors = 20

abbrev pub max_import_rows : ℕ
max_import_rows = 5000

abbrev pub max_import_note_length : ℕ
max_import_note_length = 1000

-- `err.Error()`
unfoldable pub error_text : Error → Text
error_text (validation field message) = message
error_text not_found = str "resource not found"
error_text duplicate_email = str "email already registered"
error_text invalid_credentials = str "invalid credentials"
error_text invalid_token = str "invalid or expired token"
error_text (failed message) = message

unfoldable pub append_import_error : ImportResult → ℕ → Text → ImportResult
append_import_error result row message =
    if ltb (length result.errors) max_import_errors
    then record result { errors = result.errors ++ record { row = row; message = message } ∷ [] }
    else result

-- `result.Skipped++` and the error
unfoldable pub skip_row : ImportResult → ℕ → Text → ImportResult
unfolding append_import_error
skip_row result row message =
    append_import_error (record result { skipped = result.skipped + 1 }) row message

module _ (lib : Library) where
  -- The type of a row: the explicit one, or the one that its amount tells.
  abbrev pub row_type : ImportRow → TransactionType → TransactionType
  row_type row inferred =
      let explicit = lib.to_lower (trim_space row.type) in
      if is_empty explicit then inferred else explicit

  unfoldable pub cut_note : Text → Text
  cut_note note =
      if ltb max_import_note_length (length note) then take max_import_note_length note else note

  -- The last part of `buildImportedTransaction`, with the date and the amount read.
  unfoldable pub build_from :
      Text → Account → ImportRow → Time → Time → Float × TransactionType → Result Transaction
  build_from user_id account row now date (abs_amount, inferred) =
      let type = row_type row inferred in
      if not (valid_transaction_type type)
      then err (failed (str "type must be income or expense, got " ++ lib.quote row.type))
      else if le abs_amount zero_float
      then err (failed (str "amount must be greater than zero"))
      else if lt max_amount abs_amount
      then err (failed (str "amount exceeds the maximum allowed value"))
      else ok (record {
        id = [];
        user_id = user_id;
        account_id = account.id;
        category_id = none;
        type = type;
        amount = abs_amount;
        currency = account.currency;
        date = date;
        note = cut_note (trim_space row.description);
        created_at = now;
        updated_at = now;
      })

  unfoldable pub build_imported_transaction : Text → Account → ImportRow → Time → Result Transaction
  unfolding build_from
  build_imported_transaction user_id account row now = elim (parse_import_date lib row.date) [
    | none ↦ err (failed (str "invalid or missing date"))
    | some date ↦ elim (resolve_import_amount lib row) [
      | err e ↦ err e
      | ok amount ↦ build_from user_id account row now date amount
    ]
  ]

  module _ {S : Type 0} (repo : TransactionRepository S) (account_repo : AccountRepository S)
      (publisher : EventPublisher S) (now : Time) where
    -- What follows `s.repo.Create` in a round of the loop.
    unfoldable pub saved : ℕ → ImportResult → Result Transaction × S → ImportResult × S
    saved row_num result (err e, s) =
        (skip_row result row_num (str "failed to save: " ++ error_text e), s)
    saved row_num result (ok tx, s) = (
      record result { imported = result.imported + 1 },
      (publisher.publish_transaction_created tx s).1,
    )

    -- One round of the loop.
    unfoldable pub import_row : Text → Account → ℕ → ImportRow → ImportResult × S → ImportResult × S
    unfolding saved
    import_row user_id account row_num row (result, s) =
        elim (build_imported_transaction user_id account row now) [
          | err e ↦ (skip_row result row_num (error_text e), s)
          | ok tx ↦ saved row_num result (repo.create tx s)
        ]

    unfoldable pub import_rows :
        Text → Account → ℕ → List ImportRow → ImportResult × S → ImportResult × S
    import_rows user_id account row_num [] r = r
    import_rows user_id account row_num (row ∷ rows) r =
        import_rows user_id account (row_num + 1) rows (import_row user_id account row_num row r)

    -- The header is row 1 of the file, so the first of the rows is row 2.
    unfoldable pub import : Text → Text → List ImportRow → Action S ImportResult
    unfolding import_rows
    import user_id account_id rows s =
        if is_empty (trim_space account_id)
        then (err (validation (str "account_id") (str "account_id is required")), s)
        else if ltb max_import_rows (length rows)
        then (
          err (
              validation (str "file")
                (str "file has more than 5000 rows; split it into smaller files")),
          s,
        )
        else elim (replace_not_found no_account
            (account_repo.get_by_id_for_user account_id user_id s)) [
              | err e ↦ (err e, s)
              | ok account ↦
                  let (result, s') =
                    import_rows user_id account 2 rows
                      (record { imported = 0; skipped = 0; errors = [] }, s) in
                  (ok result, s')
            ]
