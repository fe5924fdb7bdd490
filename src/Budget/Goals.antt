-- ===== src/Budget/Goals.antt =====
-- services/budget-service/internal/service/goal_service.go over any repository. The current time
-- is an argument.
pub mod Dates
use finora.Base.{
  ◌==◌, Bool, true, false, not, ◌&&◌, List, [], Option, none, some, Text, str, Error, validation,
  Result, ok, err, Action, ◌>>=◌, ◌>>◌, reads, check, if◌then◌else◌,
}
use finora.Golang.Text.{is_empty}
use finora.Golang.Float.{Float, lt, le, zero_float}
use finora.Golang.Time.{Time, zero_time, is_zero, before}
use finora.Budget.Budgets.{max_amount, wrap_validation}
use finora.Budget.Domain.{Goal, CreateGoalInput, UpdateGoalInput, GoalRepository}

-- The checks that `Create` and `Update` begin with.
unfoldable pub validate_target : Text → Float → Time → Option Error
validate_target name target_amount target_date =
    if is_empty name
    then some (wrap_validation (str "name is required"))
    else if le target_amount zero_float
    then some (wrap_validation (str "target_amount must be greater than zero"))
    else if lt max_amount target_amount
    then some (wrap_validation (str "target_amount exceeds the maximum allowed value"))
    else if is_zero target_date
    then some (wrap_validation (str "target_date is required"))
    else none

unfoldable pub validate_future : Time → Time → Option Error
validate_future now target_date =
    if before target_date now
    then some (wrap_validation (str "target_date must be in the future"))
    else none

unfoldable pub validate_current : Float → Option Error
validate_current current_amount =
    if lt current_amount zero_float
    then some (wrap_validation (str "current_amount must not be negative"))
    else if lt max_amount current_amount
    then some (wrap_validation (str "current_amount exceeds the maximum allowed value"))
    else none

-- `!in.TargetDate.Equal(existing.TargetDate) && in.TargetDate.Before(now)`
unfoldable pub validate_moved : Time → Time → Time → Option Error
validate_moved now old new =
    if not (new == old) && before new now
    then some (wrap_validation (str "target_date must be in the future"))
    else none

module _ {S : Type 0} (repo : GoalRepository S) (now : Time) where
  unfoldable pub create : Text → CreateGoalInput → Action S Goal
  create user_id input = do
    check (validate_target input.name input.target_amount input.target_date)
    check (validate_future now input.target_date)
    repo.create (record {
      id = [];
      user_id = user_id;
      name = input.name;
      target_amount = input.target_amount;
      target_date = input.target_date;
      current_amount = zero_float;
      created_at = zero_time;
      updated_at = zero_time;
    })

  unfoldable pub update : Text → Text → UpdateGoalInput → Action S Goal
  update user_id id input = do
    check (validate_target input.name input.target_amount input.target_date)
    check (validate_current input.current_amount)
    existing ← reads (repo.get_by_id_for_user id user_id)
    check (validate_moved now existing.target_date input.target_date)
    repo.update (record existing {
      name = input.name;
      target_amount = input.target_amount;
      target_date = input.target_date;
      current_amount = input.current_amount;
    })

module _ {S : Type 0} (repo : GoalRepository S) where
  unfoldable pub list : Text → S → Result (List Goal)
  list user_id = repo.list_by_user user_id

  unfoldable pub get : Text → Text → S → Result Goal
  get user_id id = repo.get_by_id_for_user id user_id

  unfoldable pub delete : Text → Text → Action S (Unit {0})
  delete user_id id = repo.delete_by_id_for_user id user_id
