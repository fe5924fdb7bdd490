-- ===== src/Expense/Http/Transactions.antt =====
-- services/expense-service/internal/handler/transaction_handler.go. What `ShouldBindJSON` makes of a
-- body, the query and the parameters of the path are arguments; `time.Parse` and `strconv.Atoi` are
-- parameters.
pub mod Refused
use finora.Base.{ℕ, List, Option, none, some, Text, str, if◌then◌else◌}
use finora.Golang.Text.{is_empty}
use finora.Golang.Float.{Float}
use finora.Golang.Float.Int.{ℤ, pos}
use finora.Golang.Time.{Time}
use finora.Http.{Context, Response, fail, code_validation, keyed, Bound, bound, unbound}
use finora.Http.Middleware.{user_id}
use finora.Expense.Domain.{Transaction, TransactionInput, ListTransactionsInput, TransactionPage}
use finora.Expense.Http.{answer, answer_deleted, bad_body}
use finora.Expense.Http.Services.{TransactionService}

pub record TransactionRequest : Type 0 where
  pub account_id : Text
  pub category_id : Option Text
  pub type : Text
  pub amount : Float
  pub currency : Text
  pub date : Text
  pub note : Text

-- The payloads: a page with its numbers, or `gin.H{"transaction": tx}`.
pub data Payload : Type 0 where
  page : TransactionPage → Payload
  transaction : Transaction → Payload

abbrev layout_rfc3339 : Text
layout_rfc3339 = str "2006-01-02T15:04:05Z07:00"

abbrev layout_date : Text
layout_date = str "2006-01-02"

-- The answer to a date that does not parse.
abbrev pub bad_date : {D : Type 0} → Context → Text → Text → Response D
bad_date c field message = fail c 400 code_validation message (keyed (str "field") field)

-- `req` with its date, as the service takes it.
abbrev pub input_of : TransactionRequest → Time → TransactionInput
input_of req date = record {
  account_id = req.account_id;
  category_id = req.category_id;
  type = req.type;
  amount = req.amount;
  currency = req.currency;
  date = date;
  note = req.note;
}

module _ (parse_time : Text → Text → Option Time) (atoi : Text → Option ℤ) where
  -- The first layout that reads the text.
  unfoldable pub parse_date : Text → Option Time
  parse_date v = if is_empty v then none else elim (parse_time layout_rfc3339 v) [
    | some t ↦ some t
    | none ↦ elim (parse_time layout_date v) [ some t ↦ some t | none ↦ none ]
  ]

  -- A number of the query: 0 where it is absent or not a number.
  unfoldable pub query_int : Text → ℤ
  query_int v = if is_empty v then pos 0 else elim (atoi v) [ some n ↦ n | none ↦ pos 0 ]

  -- A date of the query, `none` where it does not parse.
  unfoldable pub query_date : Text → Option (Option Time)
  unfolding parse_date
  query_date v =
      if is_empty v then some none else elim (parse_date v) [ some t ↦ some (some t) | none ↦ none ]

  module _ {S : Type 0} (svc : TransactionService S) where
    unfoldable pub list : Context → (Text → Text) → S → Response Payload × S
    unfolding answer user_id query_int query_date
    list c query s = elim (query_date (query (str "from"))) [
      | none ↦ (bad_date c (str "from") (str "invalid from date"), s)
      | some from ↦ elim (query_date (query (str "to"))) [
        | none ↦ (bad_date c (str "to") (str "invalid to date"), s)
        | some to ↦ (
          answer c 200 page (
              svc.list (user_id c)
                (record {
                  account_id = query (str "account_id");
                  category = query (str "category");
                  from = from;
                  to = to;
                  page = query_int (query (str "page"));
                  page_size = query_int (query (str "page_size"));
                })
                s),
          s,
        )
      ]
    ]

    unfoldable pub create : Context → Bound TransactionRequest → S → Response Payload × S
    unfolding answer user_id parse_date
    create c (unbound e) s = (bad_body c e, s)
    create c (bound req) s = elim (parse_date req.date) [
      | none ↦
          (bad_date c (str "date") (str "date is required and must be RFC3339 or YYYY-MM-DD"), s)
      | some date ↦
          let (r, s') = svc.create (user_id c) (input_of req date) s in
          (answer c 201 transaction r, s')
    ]

    unfoldable pub get : Context → Text → S → Response Payload × S
    unfolding answer user_id
    get c id s = (answer c 200 transaction (svc.get (user_id c) id s), s)

    unfoldable pub update : Context → Text → Bound TransactionRequest → S → Response Payload × S
    unfolding answer user_id parse_date
    update c id (unbound e) s = (bad_body c e, s)
    update c id (bound req) s = elim (parse_date req.date) [
      | none ↦
          (bad_date c (str "date") (str "date is required and must be RFC3339 or YYYY-MM-DD"), s)
      | some date ↦
          let (r, s') = svc.update (user_id c) id (input_of req date) s in
          (answer c 200 transaction r, s')
    ]

    unfoldable pub delete : Context → Text → S → Response Payload × S
    unfolding answer_deleted user_id
    delete c id s = let (r, s') = svc.delete (user_id c) id s in (answer_deleted c r, s')
