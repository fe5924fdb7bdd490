-- ===== src/Budget/Budgets.antt =====
-- services/budget-service/internal/service/budget_service.go over any repository.
use finora.Base.{
  ◌^◌, not, List, [], Option, none, some, Text, str, Error, validation, Result, Action, ◌>>=◌, ◌>>◌,
  reads, check, if◌then◌else◌,
}
use finora.Golang.Text.{is_empty}
use finora.Golang.Float.{Float, lt, le, zero_float, whole}
use finora.Golang.Time.{zero_time}
use finora.Budget.Period.{valid_period}
use finora.Budget.Domain.{Budget, BudgetInput, BudgetRepository}

unfoldable pub max_amount : Float
max_amount = whole (10 ^ 12)

-- `wrapValidation`: an error of validation that names no field
abbrev pub wrap_validation : Text → Error
wrap_validation message = validation [] message

-- The checks that `Create` and `Update` share.
unfoldable pub validate : BudgetInput → Option Error
validate input =
    if is_empty input.category
    then some (wrap_validation (str "category is required"))
    else if le input.amount zero_float
    then some (wrap_validation (str "amount must be greater than zero"))
    else if lt max_amount input.amount
    then some (wrap_validation (str "amount exceeds the maximum allowed value"))
    else if not (valid_period input.period)
    then some (wrap_validation (str "period must be one of: weekly, monthly, yearly"))
    else none

module _ {S : Type 0} (repo : BudgetRepository S) where
  unfoldable pub create : Text → BudgetInput → Action S Budget
  create user_id input = do
    check (validate input)
    repo.create (record {
      id = [];
      user_id = user_id;
      category = input.category;
      amount = input.amount;
      period = input.period;
      created_at = zero_time;
      updated_at = zero_time;
      last_notified_at = none;
    })

  unfoldable pub list : Text → S → Result (List Budget)
  list user_id = repo.list_by_user user_id

  unfoldable pub get : Text → Text → S → Result Budget
  get user_id id = repo.get_by_id_for_user id user_id

  unfoldable pub update : Text → Text → BudgetInput → Action S Budget
  update user_id id input = do
    check (validate input)
    existing ← reads (repo.get_by_id_for_user id user_id)
    repo.update (record existing {
      category = input.category;
      amount = input.amount;
      period = input.period;
    })

  unfoldable pub delete : Text → Text → Action S (Unit {0})
  delete user_id id = repo.delete_by_id_for_user id user_id
