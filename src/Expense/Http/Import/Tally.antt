-- ===== src/Expense/Http/Import/Tally.antt =====
-- The upload of a statement, from the file to the counts that are answered.
use finora.Base.{
  ◌≡◌, inl, inr, List, ◌∷◌, map, some, Text, ok, arith, ap, ◌∙◌, Bool-cases, outcome, success,
  failure, length, length-map,
}
use finora.Golang.Text.{is_empty, trim_space}
use finora.Golang.Time.{Time}
use finora.Http.{Context, payload_of, fail}
use finora.Http.Middleware.{user_id}
use finora.Expense.Domain.{
  Account, AccountRepository, CategoryRepository, TransactionRepository, EventPublisher,
}
use finora.Expense.Import.{ImportResult, import}
use finora.Expense.Import.Amounts.{Library}
use finora.Expense.Import.Counts.{IsTally, skips_of, import-IsTally}
use finora.Expense.Http.Answers.{answer-payload}
use finora.Expense.Http.Services.{transaction_service}
use finora.Expense.Http.Import.{
  fields, Upload, no_file, unreadable, opened, parse_import_csv, import_csv, row_of, layout_of,
}
use finora.Expense.Http.Import.Columns.{parse_import_csv-rows}

module _ {S : Type 0} (lib : Library) (repo : TransactionRepository S)
    (account_repo : AccountRepository S) (category_repo : CategoryRepository S)
    (publisher : EventPublisher S) (now : Time) where
  -- An upload that is answered with counts was a file with a header and an account of the caller's,
  -- and these count each of its records once, as imported or as skipped, where a record is skipped if
  -- it gives no transaction or storing it fails, and list exactly the first twenty of the skipped ones
  -- by the numbers of their rows in the file.
  pub import_csv-IsTally :
      (c : Context) (account_id : Text) (upload : Upload) (s : S) (r : ImportResult)
      → payload_of
          (import_csv lib.to_lower
            (transaction_service lib repo account_repo category_repo publisher now)
            c
            account_id
            upload
            s).0
        ≡ some r
      → (header : List Text) × (records : List (List Text)) × (upload
          ≡ opened (fields header ∷ map fields records))
        × (account : Account) × (account_repo.get_by_id_for_user
              (trim_space account_id)
              (user_id c)
              s
            ≡ ok account)
        × IsTally
            (length records)
            (skips_of lib repo account_repo publisher now
              (user_id c)
              account
              2
              (map (row_of (layout_of lib.to_lower header)) records)
              s)
            r
  unfolding import_csv fail
  import_csv-IsTally c account_id no_file s r h = absurd (ground arith)
  import_csv-IsTally c account_id unreadable s r h = absurd (ground arith)
  import_csv-IsTally c account_id (opened reads) s r h =
      elim (Bool-cases (is_empty (trim_space account_id))) [
        | inl empty ↦ absurd (ground arith)
        | inr given ↦ elim (outcome (parse_import_csv lib.to_lower reads)) [
          | failure e bad ↦ absurd (ground arith)
          | success rows parsed ↦
              let done =
                import lib repo account_repo publisher now (user_id c) (trim_space account_id) rows
                  s in
              let (made, imported, same) =
                answer-payload c 200 (λ result. result) done.0 r
                  (rw (given, parsed, import_csv) at h) in
              let (header, records, whole, read, dated) =
                parse_import_csv-rows lib.to_lower reads rows parsed in
              let (account, owned, tally) =
                import-IsTally lib repo account_repo publisher now (user_id c)
                  (trim_space account_id) rows s r (imported ∙ ap ok same) in
              (
                header,
                records,
                ap opened whole,
                account,
                owned,
                rw (← length-map (row_of (layout_of lib.to_lower header)) records, ← read) tally,
              )
        ]
      ]
