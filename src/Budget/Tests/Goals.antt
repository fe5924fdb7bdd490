-- ===== src/Budget/Tests/Goals.antt =====
-- The theorems on goals, applied to a repository with one goal.
use finora.Base.{◌≡◌, ◌≤◌, ◌⊎◌, refl, List, [], ◌∷◌, str, ok}
use finora.Golang.Float.{whole, zero_float}
use finora.Budget.Domain.{Goal, UpdateGoalInput, GoalRepository}
use finora.Budget.Goals.{create, update}
use finora.Budget.Goals.Dates.{update-dated}

abbrev goal : Goal
goal = record {
  id = str "g1";
  user_id = str "ann";
  name = str "car";
  target_amount = whole 100;
  target_date = 50;
  current_amount = zero_float;
  created_at = 1;
  updated_at = 1;
}

abbrev repo : GoalRepository (List Goal)
repo = record {
  create = λ g s. (ok g, g ∷ s);
  list_by_user = λ u s. ok s;
  get_by_id_for_user = λ id u s. ok goal;
  update = λ g s. (ok g, g ∷ []);
  delete_by_id_for_user = λ id u s. (ok tt, s);
}

abbrev progress : UpdateGoalInput
progress = record {
  name = str "car";
  target_amount = whole 100;
  target_date = 50;
  current_amount = whole 7;
}

update-dated_example :
    (new : Goal) × (update repo 60 (str "ann") (str "g1") progress (goal ∷ [])
      ≡ repo.update new (goal ∷ []))
    × (new ≡ record goal { current_amount = whole 7 })
    × ((new.target_date ≡ goal.target_date) ⊎ (60 ≤ new.target_date))
unfolding update finora.Budget.Goals.validate_target finora.Budget.Budgets.max_amount
    finora.Budget.Goals.validate_current finora.Budget.Goals.validate_moved
update-dated_example =
    update-dated repo 60 (str "ann") (str "g1") progress (goal ∷ [])
      (record goal { current_amount = whole 7 }) goal refl refl
