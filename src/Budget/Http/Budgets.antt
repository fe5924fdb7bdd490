-- ===== src/Budget/Http/Budgets.antt =====
-- services/budget-service/internal/handler/budget_handler.go. What `ShouldBindJSON` makes of a body
-- and the parameters of the path are arguments.
use finora.Base.{List, Text, str}
use finora.Golang.Float.{Float}
use finora.Http.{Context, Response, Bound, bound, unbound}
use finora.Http.Middleware.{user_id}
use finora.Budget.Domain.{Budget, BudgetInput}
use finora.Budget.Http.{answer, answer_or, answer_deleted, bad_body}
use finora.Budget.Http.Services.{BudgetService}

-- `createBudgetRequest` and `updateBudgetRequest` have the same fields.
pub record BudgetRequest : Type 0 where
  pub category : Text
  pub amount : Float
  pub period : Text

-- The payloads: `gin.H{"budgets": budgets}` and `gin.H{"budget": budget}`.
pub data Payload : Type 0 where
  budgets : List Budget → Payload
  budget : Budget → Payload

abbrev pub input_of : BudgetRequest → BudgetInput
input_of req = record { category = req.category; amount = req.amount; period = req.period }

module _ {S : Type 0} (service : BudgetService S) where
  unfoldable pub list : Context → S → Response Payload × S
  unfolding answer_or user_id
  list c s = (answer_or c (str "failed to list budgets") budgets (service.list (user_id c) s), s)

  unfoldable pub create : Context → Bound BudgetRequest → S → Response Payload × S
  unfolding answer user_id
  create c (unbound e) s = (bad_body c e, s)
  create c (bound req) s =
      let (r, s') = service.create (user_id c) (input_of req) s in (answer c 201 budget r, s')

  unfoldable pub get : Context → Text → S → Response Payload × S
  unfolding answer user_id
  get c id s = (answer c 200 budget (service.get (user_id c) id s), s)

  unfoldable pub update : Context → Text → Bound BudgetRequest → S → Response Payload × S
  unfolding answer user_id
  update c id (unbound e) s = (bad_body c e, s)
  update c id (bound req) s =
      let (r, s') = service.update (user_id c) id (input_of req) s in (answer c 200 budget r, s')

  unfoldable pub delete : Context → Text → S → Response Payload × S
  unfolding answer_deleted user_id
  delete c id s = let (r, s') = service.delete (user_id c) id s in (answer_deleted c r, s')
