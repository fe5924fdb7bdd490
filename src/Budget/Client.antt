-- ===== src/Budget/Client.antt =====
-- services/budget-service/internal/client/expense_client.go: the spending of a category, summed
-- over the pages of the expense service's list. What `doGet` gives, decoded, is a parameter, and
-- so is `strings.EqualFold`.
pub mod Pages
use finora.Base.{
  ℕ, zero, suc, ◌+◌, Bool, List, [], ◌∷◌, Option, none, some, Text, str, Result, ok, err, length,
  ltb, if◌then◌else◌,
}
use finora.Golang.Text.{text_eq}
use finora.Golang.Float.{Float, Rounding, add, zero_float}
use finora.Golang.Time.{Time}

abbrev pub report_page_size : ℕ
report_page_size = 100

abbrev pub max_report_pages : ℕ
max_report_pages = 50

pub record CategoryDto : Type 0 where
  pub id : Text
  pub name : Text
  pub type : Text

pub record TransactionDto : Type 0 where
  pub id : Text
  pub type : Text
  pub amount : Float

-- The answers of the expense service to one user's requests: its categories, and the page of a
-- number and a size of the transactions of a category in a range.
pub record Remote : Type 0 where
  pub categories : Result (List CategoryDto)
  pub transactions : Text → Time → Time → ℕ → ℕ → Result (List TransactionDto)

module _ (equal_fold : Text → Text → Bool) where
  find_by_name : Text → List CategoryDto → Option Text
  find_by_name name [] = none
  find_by_name name (c ∷ cs) =
      let later = find_by_name name cs in if equal_fold c.name name then some c.id else later

  unfoldable pub find_category_id_by_name : Remote → Text → Result (Option Text)
  unfolding find_by_name
  find_category_id_by_name remote name = elim remote.categories [
    | err e ↦ err e
    | ok cs ↦ ok (find_by_name name cs)
  ]

module _ (r : Rounding) where
  -- `total += tx.Amount` for the expenses of a page
  unfoldable pub add_expenses : Float → List TransactionDto → Float
  add_expenses total [] = total
  add_expenses total (tx ∷ txs) =
      add_expenses (if text_eq tx.type (str "expense") then add r total tx.amount else total) txs

  -- The loop over the pages, with the number of rounds that are left.
  unfoldable pub sum_pages : (ℕ → Result (List TransactionDto)) → ℕ → ℕ → Float → Result Float
  sum_pages get_page zero page total = ok total
  sum_pages get_page (suc rounds) page total = elim (get_page page) [
    | err e ↦ err e
    | ok txs ↦
        let total' = add_expenses total txs in
        let next = sum_pages get_page rounds (page + 1) total' in
        if ltb (length txs) report_page_size then ok total' else next
  ]

module _ (r : Rounding) (equal_fold : Text → Text → Bool) where
  unfoldable pub sum_expenses_by_category : Remote → Text → Time → Time → Result Float
  sum_expenses_by_category remote name from to =
      elim (find_category_id_by_name equal_fold remote name) [
        | err e ↦ err e
        | ok none ↦ ok zero_float
        | ok (some id) ↦
            sum_pages r (λ page. remote.transactions id from to page report_page_size)
              max_report_pages 1 zero_float
      ]
