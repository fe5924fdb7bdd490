-- ===== src/Expense/Import/Stored.antt =====
-- The transactions that `buildImportedTransaction` in transaction_import.go makes.
use finora.Base.{
  ◌≤◌, ◌≡◌, refl, true, false, [], none, some, Text, ok, length, length-take-le, arith, ltb, inl,
  inr, Bool-cases, Option-cases, outcome, success, failure,
}
use finora.Golang.Text.{trim_space, is_empty}
use finora.Golang.Float.{Float, nan, lt, le, zero_float}
use finora.Golang.Time.{Time}
use finora.Expense.Domain.{Account, Transaction, TransactionType, valid_transaction_type, income}
use finora.Expense.Transactions.{max_amount}
use finora.Expense.Import.Amounts.{
  Library, ImportRow, parse_import_date, parse_import_amount, resolve_import_amount,
}
use finora.Expense.Import.Amounts.Direction.{resolve_import_amount-nan}
use finora.Expense.Import.{row_type, cut_note, build_from, build_imported_transaction}

-- What the import guarantees of a transaction that it stores.
pub record IsImported (user_id : Text) (account : Account) (now : Time) (tx : Transaction)
    : Type 0 where
  pub user : tx.user_id ≡ user_id
  pub in_account : tx.account_id ≡ account.id
  pub in_currency : tx.currency ≡ account.currency
  pub uncategorised : tx.category_id ≡ none
  pub typed : valid_transaction_type tx.type ≡ true
  pub not_low : le tx.amount zero_float ≡ false
  pub not_high : lt max_amount tx.amount ≡ false
  pub short : length tx.note ≤ 1000
  pub stamped : (tx.created_at ≡ now) × (tx.updated_at ≡ now)

module _ (lib : Library) where
  cut_note-short : (note : Text) → length (cut_note lib note) ≤ 1000
  unfolding cut_note
  cut_note-short note = elim (Bool-cases (ltb 1000 (length note))) [
    | inl long ↦ rw long (length-take-le 1000 note)
    | inr fits ↦ rw fits (ground arith)
  ]

  build_from-IsImported :
      (user_id : Text) (account : Account) (row : ImportRow) (now date : Time) (amount : Float)
      (type : TransactionType) (tx : Transaction)
      → build_from lib user_id account row now date (amount, type) ≡ ok tx
      → IsImported user_id account now tx
  unfolding build_from
  build_from-IsImported user_id account row now date amount type tx h =
      ground (arith, cut_note-short (trim_space row.description))

  -- Every transaction that the import builds is the caller's, in the account and its currency, of
  -- a valid type, neither at most zero nor above the maximum, with a note of 1000 bytes at most.
  pub build_imported_transaction-IsImported :
      (user_id : Text) (account : Account) (row : ImportRow) (now : Time) (tx : Transaction)
      → build_imported_transaction lib user_id account row now ≡ ok tx
      → IsImported user_id account now tx
  unfolding build_imported_transaction
  build_imported_transaction-IsImported user_id account row now tx h =
      elim (Option-cases (parse_import_date lib row.date)) [
        | inl missing ↦ absurd (ground arith)
        | inr (date, dated) ↦ elim (outcome (resolve_import_amount lib row)) [
          | failure e bad ↦ absurd (ground arith)
          | success amount read ↦
              build_from-IsImported user_id account row now date amount.0 amount.1 tx (ground arith)
        ]
      ]

  lt-max_nan : lt max_amount nan ≡ false
  unfolding max_amount
  lt-max_nan = refl

  build_from-nan :
      (user_id : Text) (account : Account) (row : ImportRow) (now date : Time)
      → valid_transaction_type (row_type lib row income) ≡ true
      → build_from lib user_id account row now date (nan, income)
        ≡ ok (record {
          id = [];
          user_id = user_id;
          account_id = account.id;
          category_id = none;
          type = row_type lib row income;
          amount = nan;
          currency = account.currency;
          date = date;
          note = cut_note lib (trim_space row.description);
          created_at = now;
          updated_at = now;
        })
  unfolding build_from
  build_from-nan user_id account row now date typed = rw (typed, lt-max_nan) refl

  -- A cell that the float parser reads as not a number passes both bounds: a row with a valid date
  -- and type is imported with that amount.
  pub nan_imported :
      (user_id : Text) (account : Account) (row : ImportRow) (now date : Time)
      → parse_import_date lib row.date ≡ some date
      → is_empty (trim_space row.amount) ≡ false
      → parse_import_amount lib row.amount ≡ ok nan
      → valid_transaction_type (row_type lib row income) ≡ true
      → (tx : Transaction) × (build_imported_transaction lib user_id account row now ≡ ok tx)
        × (tx.amount ≡ nan)
  unfolding build_imported_transaction
  nan_imported user_id account row now date dated given read typed = (
    record {
      id = [];
      user_id = user_id;
      account_id = account.id;
      category_id = none;
      type = row_type lib row income;
      amount = nan;
      currency = account.currency;
      date = date;
      note = cut_note lib (trim_space row.description);
      created_at = now;
      updated_at = now;
    },
    rw (dated, resolve_import_amount-nan lib row given read, build_imported_transaction)
        (build_from-nan user_id account row now date typed),
    refl,
  )
