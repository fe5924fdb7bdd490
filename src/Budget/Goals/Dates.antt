-- ===== src/Budget/Goals/Dates.antt =====
-- The target date of a goal in goal_service.go.
use finora.Base.{◌≡◌, ◌≤◌, refl, ◌⊎◌, none, Text, ok, arith}
use finora.Golang.Time.{Time}
use finora.Budget.Domain.{Goal, CreateGoalInput, UpdateGoalInput, GoalRepository}
use finora.Budget.Goals.{
  validate_target, validate_current, validate_future, validate_moved, create, update,
}

validate_moved-none :
    (now old new : Time) → validate_moved now old new ≡ none → (new ≡ old) ⊎ (now ≤ new)
unfolding validate_moved
validate_moved-none now old new h = ground arith

validate_moved-kept : (now old new : Time) → new ≡ old → validate_moved now old new ≡ none
unfolding validate_moved
validate_moved-kept now old new h = ground arith

validate_future-none : (now new : Time) → validate_future now new ≡ none → now ≤ new
unfolding validate_future
validate_future-none now new h = ground arith

module _ {S : Type 0} (repo : GoalRepository S) (now : Time) where
  -- A goal that is created is not due before now.
  pub create-dated :
      (u : Text) (input : CreateGoalInput) (s : S) (g : Goal)
      → (create repo now u input s).0 ≡ ok g
      → now ≤ input.target_date
  unfolding create
  create-dated u input s g made = ground (arith, validate_future-none now input.target_date)

  -- A goal that is updated is stored as it was with the fields of the request, and the date that is
  -- stored is the one before or not before now.
  pub update-dated :
      (u id : Text) (input : UpdateGoalInput) (s : S) (g old : Goal)
      → repo.get_by_id_for_user id u s ≡ ok old
      → (update repo now u id input s).0 ≡ ok g
      → (new : Goal) × (update repo now u id input s ≡ repo.update new s)
        × (new ≡ record old {
          name = input.name;
          target_amount = input.target_amount;
          target_date = input.target_date;
          current_amount = input.current_amount;
        })
        × ((new.target_date ≡ old.target_date) ⊎ (now ≤ new.target_date))
  unfolding update
  update-dated u id input s g old read done =
      let new : Goal = record old {
        name = input.name;
        target_amount = input.target_amount;
        target_date = input.target_date;
        current_amount = input.current_amount;
      } in
      (
        new,
        ground arith,
        refl,
        ground (arith, validate_moved-none now old.target_date input.target_date),
      )

  -- Progress on a goal whose date has passed is not refused for the date: with an unchanged date
  -- and valid fields the repository is called, at any time.
  pub update-kept_date :
      (u id : Text) (input : UpdateGoalInput) (s : S) (old : Goal)
      → validate_target input.name input.target_amount input.target_date ≡ none
      → validate_current input.current_amount ≡ none
      → repo.get_by_id_for_user id u s ≡ ok old
      → input.target_date ≡ old.target_date
      → update repo now u id input s
        ≡ repo.update
            (record old {
              name = input.name;
              target_amount = input.target_amount;
              target_date = input.target_date;
              current_amount = input.current_amount;
            })
            s
  unfolding update
  update-kept_date u id input s old target current read kept =
      rw
        (
          target,
          current,
          read,
          update,
          validate_moved-kept now old.target_date input.target_date kept,
        )
        refl
