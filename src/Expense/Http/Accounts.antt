-- ===== src/Expense/Http/Accounts.antt =====
-- services/expense-service/internal/handler/account_handler.go. What `ShouldBindJSON` makes of a body
-- and the parameters of the path are arguments.
pub mod Found
use finora.Base.{List, Option, Text}
use finora.Golang.Float.{Float}
use finora.Http.{Context, Response, Bound, bound, unbound}
use finora.Http.Middleware.{user_id}
use finora.Expense.Domain.{Account}
use finora.Expense.Http.{answer, answer_deleted, bad_body}
use finora.Expense.Http.Services.{AccountService}

pub record CreateAccountRequest : Type 0 where
  pub name : Text
  pub type : Text
  pub currency : Text

pub record UpdateAccountRequest : Type 0 where
  pub name : Text
  pub type : Text
  pub currency : Text
  pub balance : Option Float

-- The payloads: `gin.H{"accounts": accounts}` and `gin.H{"account": account}`.
pub data Payload : Type 0 where
  accounts : List Account → Payload
  account : Account → Payload

module _ {S : Type 0} (svc : AccountService S) where
  unfoldable pub list : Context → S → Response Payload × S
  unfolding answer user_id
  list c s = (answer c 200 accounts (svc.list (user_id c) s), s)

  unfoldable pub create : Context → Bound CreateAccountRequest → S → Response Payload × S
  unfolding answer user_id
  create c (unbound e) s = (bad_body c e, s)
  create c (bound req) s =
      let (r, s') =
        svc.create (user_id c)
          (record { name = req.name; type = req.type; currency = req.currency }) s in
      (answer c 201 account r, s')

  unfoldable pub get : Context → Text → S → Response Payload × S
  unfolding answer user_id
  get c id s = (answer c 200 account (svc.get (user_id c) id s), s)

  unfoldable pub update : Context → Text → Bound UpdateAccountRequest → S → Response Payload × S
  unfolding answer user_id
  update c id (unbound e) s = (bad_body c e, s)
  update c id (bound req) s =
      let (r, s') =
        svc.update (user_id c) id
          (record {
            name = req.name;
            type = req.type;
            currency = req.currency;
            balance = req.balance;
          })
          s in
      (answer c 200 account r, s')

  unfoldable pub delete : Context → Text → S → Response Payload × S
  unfolding answer_deleted user_id
  delete c id s = let (r, s') = svc.delete (user_id c) id s in (answer_deleted c r, s')
