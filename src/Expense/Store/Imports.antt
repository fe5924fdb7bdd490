-- ===== src/Expense/Store/Imports.antt =====
-- `Import` of transaction_import.go over the repository of mongo_transaction.go, and ownership.
use finora.Base.{
  ◌≡◌, ◌≢◌, refl, sym, ◌∙◌, ap, List, [], ◌∷◌, Text, Result, ok, err, outcome, success, failure, ℕ,
  ◌+◌, replace_not_found, select, Bool-cases, inl, inr, ltb, length,
}
use finora.Golang.Text.{text_eq, is_empty, trim_space}
use finora.Golang.Time.{Time}
use finora.Mongo.{Collection, IsCollection, ObjectIds}
use finora.Expense.Domain.{Account, Transaction, AccountRepository, EventPublisher}
use finora.Expense.Transactions.{no_account}
use finora.Expense.Store.Transactions.{TransactionDoc, repository}
use finora.Expense.Store.Transactions
use finora.Expense.Store.Transactions.Owned.{owned, create-owned}
use finora.Expense.Import.Amounts.{Library, ImportRow}
use finora.Expense.Import.{
  ImportResult, saved, import_row, import_rows, import, build_imported_transaction,
}
use finora.Expense.Import.Stored.{build_imported_transaction-IsImported}

module _ {S O : Type 0} (ids : ObjectIds O) (col : Collection S (TransactionDoc O))
    (laws : IsCollection col) (new_id : S → O) (account_repo : AccountRepository S) (lib : Library)
    (publisher : EventPublisher S)
    (alone : (tx : Transaction) (s : S)
      → col.docs (publisher.publish_transaction_created tx s).1 ≡ col.docs s)
    (now : Time) where
  saved-owned :
      (row_num : ℕ) (r : ImportResult) (v : Text) (made : Result Transaction × S)
      → owned col v
          (saved lib (repository ids col new_id) account_repo publisher now row_num r made).1
        ≡ owned col v made.1
  unfolding saved
  saved-owned row_num r v (err e, s) = refl
  saved-owned row_num r v (ok tx, s) = ap (select (λ d. text_eq d.user_id v)) (alone tx s)

  import_row-owned :
      (u v : Text) (account : Account) (row_num : ℕ) (row : ImportRow) (r : ImportResult × S)
      → u ≢ v
      → owned col v
          (import_row lib
            (repository ids col new_id)
            account_repo
            publisher
            now
            u
            account
            row_num
            row
            r).1
        ≡ owned col v r.1
  unfolding import_row repository
  import_row-owned u v account row_num row (r, s) other =
      elim (outcome (build_imported_transaction lib u account row now)) [
        | failure e bad ↦ rw (bad, import_row) refl
        | success tx read ↦
            rw (read, import_row)
              (saved-owned row_num r v (Transactions.create ids col new_id tx s)
                ∙ create-owned ids col laws new_id tx v s (λ same. other (
                    sym (build_imported_transaction-IsImported lib u account row now tx read).user
                    ∙ same)))
      ]

  import_rows-owned :
      (u v : Text) (account : Account) (row_num : ℕ) (rows : List ImportRow) (r : ImportResult × S)
      → u ≢ v
      → owned col v
          (import_rows lib
            (repository ids col new_id)
            account_repo
            publisher
            now
            u
            account
            row_num
            rows
            r).1
        ≡ owned col v r.1
  unfolding import_rows
  import_rows-owned u v account row_num [] r other = refl
  import_rows-owned u v account row_num (row ∷ rows) r other =
      import_rows-owned u v account (row_num + 1) rows _ other
      ∙ import_row-owned u v account row_num row r other

  -- An import by one user leaves the documents of every other user as they are, where publishing
  -- leaves the collection alone.
  pub import-owned :
      (u v account_id : Text) (rows : List ImportRow) (s : S)
      → u ≢ v
      → owned col v
          (import lib (repository ids col new_id) account_repo publisher now u account_id rows s).1
        ≡ owned col v s
  unfolding import
  import-owned u v account_id rows s other = elim (Bool-cases (is_empty (trim_space account_id))) [
    | inl blank ↦ rw (blank, import) refl
    | inr given ↦ elim (Bool-cases (ltb 5000 (length rows))) [
      | inl long ↦ rw (given, long, import) refl
      | inr fits ↦
          elim (outcome
            (replace_not_found no_account (account_repo.get_by_id_for_user account_id u s))) [
              | failure e bad ↦ rw (given, fits, bad, import) refl
              | success account read ↦
                  rw (given, fits, read, import) (import_rows-owned u v account 2 rows _ other)
            ]
    ]
  ]
