-- ===== src/Expense/Import/Amounts/Direction.antt =====
-- How `resolveImportAmount` in transaction_import.go reads the columns of a row.
use finora.Base.{◌≡◌, refl, true, false, arith, ok, inl, inr, Bool-cases, outcome, success, failure}
use finora.Golang.Text.{trim_space, is_empty}
use finora.Golang.Float.{Float, nan, fin, pos_inf, neg_inf, lt, zero_float, abs}
use finora.Expense.Domain.{TransactionType, income, expense}
use finora.Expense.Import.Amounts.{
  Library, ImportRow, parse_import_amount, resolve_import_amount, from_amount, from_credit,
  from_debit, nonzero,
}

abs-nonneg : (a : Float) → lt (abs a) zero_float ≡ false
abs-nonneg nan = refl
abs-nonneg pos_inf = refl
abs-nonneg neg_inf = refl
abs-nonneg (fin a) = ground arith

module _ (lib : Library) where
  from_amount-nonneg : (a : Float) → lt (from_amount lib a).0 zero_float ≡ false
  unfolding from_amount
  from_amount-nonneg a = elim (Bool-cases (lt a zero_float)) [
    | inl low ↦ rw low (abs-nonneg a)
    | inr high ↦ rw high high
  ]

  from_credit-nonneg :
      (row : ImportRow) (a : Float) (t : TransactionType)
      → from_credit lib row ≡ ok (a, t)
      → lt a zero_float ≡ false
  unfolding from_credit
  from_credit-nonneg row a t h = elim (outcome (parse_import_amount lib row.credit)) [
    | failure e bad ↦ absurd (ground arith)
    | success c read ↦ ground (arith, abs-nonneg c)
  ]

  from_debit-nonneg :
      (row : ImportRow) (a : Float) (t : TransactionType)
      → from_debit lib row ≡ ok (a, t)
      → lt a zero_float ≡ false
  unfolding from_debit
  from_debit-nonneg row a t h = elim (outcome (parse_import_amount lib row.debit)) [
    | failure e bad ↦ ground (arith, from_credit-nonneg row a t)
    | success d read ↦ ground (arith, abs-nonneg d, from_credit-nonneg row a t)
  ]

  -- Whatever the columns hold, the amount that is read is never below zero.
  pub resolve_import_amount-nonneg :
      (row : ImportRow) (a : Float) (t : TransactionType)
      → resolve_import_amount lib row ≡ ok (a, t)
      → lt a zero_float ≡ false
  unfolding resolve_import_amount
  resolve_import_amount-nonneg row a t h = elim (outcome (parse_import_amount lib row.amount)) [
    | failure e bad ↦ ground (arith, from_debit-nonneg row a t)
    | success v read ↦ ground (arith, from_amount-nonneg v, from_debit-nonneg row a t)
  ]

  -- A row with no amount and a debit other than zero is an expense of that size, whatever sign the
  -- debit has and whatever the credit column holds.
  pub resolve_import_amount-debit :
      (row : ImportRow) (d : Float)
      → is_empty (trim_space row.amount) ≡ true
      → is_empty (trim_space row.debit) ≡ false
      → parse_import_amount lib row.debit ≡ ok d
      → nonzero d ≡ true
      → resolve_import_amount lib row ≡ ok (abs d, expense)
  unfolding resolve_import_amount from_debit
  resolve_import_amount-debit row d blank given read size =
      rw (blank, given, read, from_debit, size) refl

  pub resolve_import_amount-nan :
      (row : ImportRow)
      → is_empty (trim_space row.amount) ≡ false
      → parse_import_amount lib row.amount ≡ ok nan
      → resolve_import_amount lib row ≡ ok (nan, income)
  unfolding resolve_import_amount from_amount
  resolve_import_amount-nan row given read = rw (given, read, resolve_import_amount) refl
