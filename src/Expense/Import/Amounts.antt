-- ===== src/Expense/Import/Amounts.antt =====
-- The amounts and dates in the cells of a statement: `parseImportAmount`, `resolveImportAmount`
-- and `parseImportDate` of transaction_import.go, and the row of domain/transaction.go.
pub mod Direction
use finora.Base.{
  ℕ, ◌≡◌, Bool, true, false, not, ◌&&◌, ◌||◌, List, [], ◌∷◌, ◌++◌, Option, none, some, Text, str,
  Error, failed, Result, ok, err, ◌==◌, select, if◌then◌else◌,
}
use finora.Golang.Text.{trim_space, is_empty, has_prefix, has_suffix, trim_prefix, trim_suffix}
use finora.Golang.Float.{Float, nan, lt, zero_float, abs, neg, is_nan}
use finora.Golang.Time.{Time}
use finora.Expense.Domain.{TransactionType, income, expense}

-- What is used of the standard library: `strconv.ParseFloat`, `time.Parse` with a layout, both
-- `none` on an error, `strings.ToLower`, and the quoting of `%q`.
pub record Library : Type 0 where
  pub parse_float : Text → Option Float
  pub parse_time : Text → Text → Option Time
  pub to_lower : Text → Text
  pub quote : Text → Text

pub record ImportRow : Type 0 where
  pub date : Text
  pub description : Text
  pub amount : Text
  pub debit : Text
  pub credit : Text
  pub type : Text

abbrev pub import_date_layouts : List Text
import_date_layouts =
    str "2006-01-02T15:04:05Z07:00" ∷ str "2006-01-02" ∷ str "01/02/2006" ∷ str "1/2/2006" ∷ []

-- `amount != 0`: true of a value that is not a number
abbrev pub nonzero : Float → Bool
nonzero a = is_nan a || lt a zero_float || lt zero_float a

-- The replacer that drops "$", "," and " ".
unfoldable pub drop_marks : Text → Text
drop_marks = select (λ c. not (c == b'$' || c == b',' || c == b' '))

unfoldable pub in_parentheses : Text → Bool
in_parentheses v = has_prefix v (str "(") && has_suffix v (str ")")

module _ (lib : Library) where
  first_layout : List Text → Text → Option Time
  first_layout [] v = none
  first_layout (layout ∷ layouts) v =
      let rest = first_layout layouts v in
      elim (lib.parse_time layout v) [ some t ↦ some t | none ↦ rest ]

  unfoldable pub parse_import_date : Text → Option Time
  unfolding first_layout
  parse_import_date cell =
      let v = trim_space cell in if is_empty v then none else first_layout import_date_layouts v

  -- What `parseImportAmount` does with the number that it has read.
  abbrev pub signed : Bool → Float → Float
  signed negative amount = if negative then neg (abs amount) else amount

  unfoldable pub read_amount : Bool → Text → Result Float
  read_amount negative v =
      if is_empty v then err (failed (str "amount is required")) else elim (lib.parse_float v) [
        | none ↦
            err
              (failed (str "amount " ++ (lib.quote (trim_space v) ++ str " is not a valid number")))
        | some amount ↦ ok (signed negative amount)
      ]

  unfoldable pub parse_import_amount : Text → Result Float
  unfolding read_amount in_parentheses drop_marks
  parse_import_amount cell =
      let v = trim_space cell in
      if is_empty v
      then err (failed (str "amount is required"))
      else if in_parentheses v
      then read_amount true (drop_marks (trim_suffix (trim_prefix v (str "(")) (str ")")))
      else read_amount false (drop_marks v)

  -- `fmt.Errorf("debit: %w", err)`
  abbrev pub labelled : Text → Error → Error
  labelled label (failed m) = failed (label ++ m)
  labelled label e = e

  abbrev pub no_amount : Result (Float × TransactionType)
  no_amount = err (failed (str "no amount, debit, or credit value for this row"))

  unfoldable pub from_amount : Float → Float × TransactionType
  from_amount amount = if lt amount zero_float then (abs amount, expense) else (amount, income)

  -- The credit column, which is read where the debit column says nothing.
  unfoldable pub from_credit : ImportRow → Result (Float × TransactionType)
  from_credit row =
      if is_empty (trim_space row.credit)
      then no_amount
      else elim (parse_import_amount row.credit) [
        | err e ↦ err (labelled (str "credit: ") e)
        | ok credit ↦ if nonzero credit then ok (abs credit, income) else no_amount
      ]

  unfoldable pub from_debit : ImportRow → Result (Float × TransactionType)
  unfolding from_credit
  from_debit row =
      if is_empty (trim_space row.debit)
      then from_credit row
      else elim (parse_import_amount row.debit) [
        | err e ↦ err (labelled (str "debit: ") e)
        | ok debit ↦ if nonzero debit then ok (abs debit, expense) else from_credit row
      ]

  unfoldable pub resolve_import_amount : ImportRow → Result (Float × TransactionType)
  unfolding from_amount from_debit
  resolve_import_amount row =
      if is_empty (trim_space row.amount)
      then from_debit row
      else elim (parse_import_amount row.amount) [
        | err e ↦ err e
        | ok amount ↦ ok (from_amount amount)
      ]
