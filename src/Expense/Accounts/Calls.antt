-- ===== src/Expense/Accounts/Calls.antt =====
-- account_service.go: what its operations ask of the repository.
use finora.Base.{
  ◌≡◌, refl, false, true, arith, ◌⊎◌, inl, inr, Option-cases, Text, Error, none, ok, err, map_ok,
  then_pure, outcome, success, failure,
}
use finora.Golang.Text.{trim_space, is_empty}
use finora.Golang.Time.{Time}
use finora.Expense.Domain.{
  Account, AccountType, valid_account_type, CreateAccountInput, UpdateAccountInput,
  AccountRepository,
}
use finora.Expense.Accounts.{validate, built, create, changed, update}

-- What the checks let pass.
pub validate-none :
    (name : Text) (type : AccountType) (currency : Text)
    → validate name type currency ≡ none
    → (is_empty name ≡ false) × (valid_account_type type ≡ true) × (is_empty currency ≡ false)
unfolding validate
validate-none name type currency h = (ground arith, ground arith, ground arith)

module _ {S : Type 0} (repo : AccountRepository S) (now : Time) where
  -- A create is refused as it is, or is the repository's.
  pub create-calls :
      (u : Text) (input : CreateAccountInput) (s : S)
      → ((e : Error) × (create repo now u input s ≡ (err e, s)))
        ⊎ ((validate (trim_space input.name) input.type (trim_space input.currency) ≡ none)
            × (create repo now u input s ≡ repo.create (built repo now u input) s))
  unfolding create
  create-calls u input s =
      elim (Option-cases
        (validate (trim_space input.name) input.type (trim_space input.currency))) [
          | inl fine ↦ inr (fine, rw (fine, create) refl)
          | inr (e, bad) ↦ inl (e, rw (bad, create) refl)
        ]

  -- An update is refused as it is, or stores what it makes of an account that it reads.
  pub update-calls :
      (u id : Text) (input : UpdateAccountInput) (s : S)
      → ((e : Error) × (update repo now u id input s ≡ (err e, s)))
        ⊎ ((account : Account) × (repo.get_by_id_for_user id u s ≡ ok account)
            × (validate (trim_space input.name) input.type (trim_space input.currency) ≡ none)
            × (update repo now u id input s ≡ (
              map_ok
                  (λ _. changed repo now account input)
                  (repo.update (changed repo now account input) s).0,
              (repo.update (changed repo now account input) s).1,
            )))
  unfolding update changed
  update-calls u id input s = elim (outcome (repo.get_by_id_for_user id u s)) [
    | failure e bad ↦ inl (e, rw (bad, update) refl)
    | success account read ↦
        elim (Option-cases
          (validate (trim_space input.name) input.type (trim_space input.currency))) [
            | inr (e, bad) ↦ inl (e, rw (read, bad, update) refl)
            | inl fine ↦ inr (
              account,
              read,
              fine,
              rw (read, fine, update)
                  (then_pure (repo.update (changed repo now account input))
                    (changed repo now account input) s),
            )
          ]
  ]
