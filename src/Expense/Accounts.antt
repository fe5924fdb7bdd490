-- ===== src/Expense/Accounts.antt =====
-- services/expense-service/internal/service/account_service.go over any repository. The current
-- time is an argument.
pub mod Calls
use finora.Base.{
  not, List, [], Option, none, some, Text, str, Error, validation, Result, Action, ◌>>=◌, ◌>>◌,
  pure, reads, check, if◌then◌else◌,
}
use finora.Golang.Text.{trim_space, is_empty}
use finora.Golang.Float.{Float, zero_float}
use finora.Golang.Time.{Time}
use finora.Expense.Domain.{
  Account, AccountType, valid_account_type, CreateAccountInput, UpdateAccountInput,
  AccountRepository,
}

-- The checks that `Create` and `Update` share, on the trimmed name and currency.
unfoldable pub validate : Text → AccountType → Text → Option Error
validate name type currency =
    if is_empty name
    then some (validation (str "name") (str "name is required"))
    else if not (valid_account_type type)
    then some (validation (str "type") (str "type must be one of: checking, savings, credit, cash"))
    else if is_empty currency
    then some (validation (str "currency") (str "currency is required"))
    else none

-- `if in.Balance != nil { account.Balance = *in.Balance }`
abbrev pub new_balance : Option Float → Float → Float
new_balance none old = old
new_balance (some b) old = b

module _ {S : Type 0} (repo : AccountRepository S) (now : Time) where
  -- The account that `Create` stores.
  unfoldable pub built : Text → CreateAccountInput → Account
  built user_id input = record {
    id = [];
    user_id = user_id;
    name = trim_space input.name;
    type = input.type;
    currency = trim_space input.currency;
    balance = zero_float;
    created_at = now;
    updated_at = now;
  }

  unfoldable pub create : Text → CreateAccountInput → Action S Account
  unfolding validate built
  create user_id input = do
    check (validate (trim_space input.name) input.type (trim_space input.currency))
    repo.create (built user_id input)

  unfoldable pub list : Text → S → Result (List Account)
  list user_id = repo.list_by_user user_id

  unfoldable pub get : Text → Text → S → Result Account
  get user_id id = repo.get_by_id_for_user id user_id

  -- The account that `Update` stores.
  unfoldable pub changed : Account → UpdateAccountInput → Account
  changed account input = record account {
    name = trim_space input.name;
    type = input.type;
    currency = trim_space input.currency;
    balance = new_balance input.balance account.balance;
    updated_at = now;
  }

  unfoldable pub update : Text → Text → UpdateAccountInput → Action S Account
  unfolding validate changed
  update user_id id input = do
    account ← reads (repo.get_by_id_for_user id user_id)
    check (validate (trim_space input.name) input.type (trim_space input.currency))
    repo.update (changed account input)
    pure (changed account input)

  unfoldable pub delete : Text → Text → Action S (Unit {0})
  delete user_id id = repo.delete_by_id_for_user id user_id
