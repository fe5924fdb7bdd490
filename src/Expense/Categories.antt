-- ===== src/Expense/Categories.antt =====
-- services/expense-service/internal/service/category_service.go over any repository.
use finora.Base.{
  not, List, [], Option, none, some, Text, str, Error, validation, Result, Action, ◌>>◌, check,
  if◌then◌else◌,
}
use finora.Golang.Text.{trim_space, is_empty}
use finora.Golang.Time.{Time}
use finora.Expense.Domain.{
  Category, TransactionType, valid_transaction_type, CreateCategoryInput, CategoryRepository,
}

validate : Text → TransactionType → Option Error
validate name type =
    if is_empty name
    then some (validation (str "name") (str "name is required"))
    else if not (valid_transaction_type type)
    then some (validation (str "type") (str "type must be one of: income, expense"))
    else none

module _ {S : Type 0} (repo : CategoryRepository S) (now : Time) where
  unfoldable pub create : Text → CreateCategoryInput → Action S Category
  unfolding validate
  create user_id input = do
    let name = trim_space input.name
    check (validate name input.type)
    repo.create (record {
      id = [];
      user_id = user_id;
      name = name;
      type = input.type;
      created_at = now;
      updated_at = now;
    })

  unfoldable pub list : Text → S → Result (List Category)
  list user_id = repo.list_by_user user_id
