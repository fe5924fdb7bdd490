-- ===== src/Expense/Transactions/Creating.antt =====
-- `Create` of transaction_service.go: its checks, its writes and its event.
use finora.Base.{
  ◌≡◌, ◌⊎◌, inl, inr, true, Option, none, some, Text, Error, ok, err, arith, outcome, success,
  failure,
}
use finora.Golang.Text.{trim_space, is_empty}
use finora.Golang.Time.{Time}
use finora.Expense.Domain.{
  Account, Category, Transaction, TransactionInput, AccountRepository, CategoryRepository,
  TransactionRepository, EventPublisher,
}
use finora.Expense.Transactions.{
  validate_input, account_owned, category_owned, built, changed, create, update,
}

-- The category that a transaction names, if any, is one of the user's.
abbrev pub HasCategory : {S : Type 0} → CategoryRepository S → Text → Option Text → S → Type 0
HasCategory category_repo user_id none s = Unit
HasCategory category_repo user_id (some id) s =
    (is_empty (trim_space id) ≡ true)
    ⊎ ((c : Category) × (category_repo.get_by_id_for_user id user_id s ≡ ok c))

pub account_owned-ok :
    {S : Type 0} (account_repo : AccountRepository S) (u id : Text) (s : S)
    → account_owned account_repo u id s ≡ ok tt
    → (a : Account) × (account_repo.get_by_id_for_user id u s ≡ ok a)
unfolding account_owned
account_owned-ok account_repo u id s h = ground arith

pub category_owned-ok :
    {S : Type 0} (category_repo : CategoryRepository S) (u : Text) (id : Option Text) (s : S)
    → category_owned category_repo u id s ≡ ok tt
    → HasCategory category_repo u id s
unfolding category_owned
category_owned-ok category_repo u none s h = tt
category_owned-ok category_repo u (some id) s h = ground arith

module _ {S : Type 0} (repo : TransactionRepository S) (account_repo : AccountRepository S)
    (category_repo : CategoryRepository S) where
  -- A transaction that is created passed the validation, its account is one that the caller has, so
  -- is its category if it names one, and the repository stored what was built of the input.
  pub create-stored :
      (publisher : EventPublisher S) (now : Time) (u : Text) (input : TransactionInput) (s : S)
      (tx : Transaction)
      → (create repo account_repo category_repo publisher now u input s).0 ≡ ok tx
      → (validate_input input ≡ none)
        × ((a : Account) × (account_repo.get_by_id_for_user input.account_id u s ≡ ok a))
        × HasCategory category_repo u input.category_id s
        × ((repo.create (built now u input) s).0 ≡ ok tx)
  unfolding create
  create-stored publisher now u input s tx h = ground (
    arith,
    account_owned-ok account_repo u input.account_id s,
    category_owned-ok category_repo u input.category_id s,
  )

  -- A create answers the same with any publisher, whether its event goes out or not.
  pub create-publisher :
      (p q : EventPublisher S) (now : Time) (u : Text) (input : TransactionInput) (s : S)
      → (create repo account_repo category_repo p now u input s).0
        ≡ (create repo account_repo category_repo q now u input s).0
  unfolding create
  create-publisher p q now u input s = ground arith

  -- A create that fails has written nothing, or the repository itself failed to store the
  -- transaction.
  pub create-failed :
      (publisher : EventPublisher S) (now : Time) (u : Text) (input : TransactionInput) (s : S)
      (e : Error)
      → (create repo account_repo category_repo publisher now u input s).0 ≡ err e
      → ((create repo account_repo category_repo publisher now u input s).1 ≡ s)
        ⊎ (repo.create (built now u input) s
            ≡ (err e, (create repo account_repo category_repo publisher now u input s).1))
  unfolding create
  create-failed publisher now u input s e h = ground arith

  create-state_stored :
      (publisher : EventPublisher S) (now : Time) (u : Text) (input : TransactionInput) (s : S)
      (tx : Transaction)
      → let s' = (create repo account_repo category_repo publisher now u input s).1 in
        let made = repo.create (built now u input) s in
        made.0 ≡ ok tx → (s' ≡ s) ⊎ (s' ≡ (publisher.publish_transaction_created tx made.1).1)
  unfolding create
  create-state_stored publisher now u input s tx h = ground arith

  create-state_failed :
      (publisher : EventPublisher S) (now : Time) (u : Text) (input : TransactionInput) (s : S)
      (e : Error)
      → let s' = (create repo account_repo category_repo publisher now u input s).1 in
        let made = repo.create (built now u input) s in made.0 ≡ err e → (s' ≡ s) ⊎ (s' ≡ made.1)
  unfolding create
  create-state_failed publisher now u input s e h = ground arith

  -- The state after a create: nothing was written, or the repository was called, and the publisher
  -- after it if the transaction was stored.
  pub create-state :
      (publisher : EventPublisher S) (now : Time) (u : Text) (input : TransactionInput) (s : S)
      → let s' = (create repo account_repo category_repo publisher now u input s).1 in
        let made = repo.create (built now u input) s in
        (s' ≡ s)
        ⊎ (s' ≡ made.1)
        ⊎ ((tx : Transaction) × (s' ≡ (publisher.publish_transaction_created tx made.1).1))
  create-state publisher now u input s = elim (outcome (repo.create (built now u input) s).0) [
    | failure e bad ↦ elim (create-state_failed publisher now u input s e bad) [
      | inl same ↦ inl same
      | inr written ↦ inr (inl written)
    ]
    | success tx stored ↦ elim (create-state_stored publisher now u input s tx stored) [
      | inl same ↦ inl same
      | inr published ↦ inr (inr (tx, published))
    ]
  ]

  -- The state after an update: nothing was written, or the repository replaced the fields of a
  -- transaction that the caller's query had found.
  pub update-state :
      (now : Time) (u id : Text) (input : TransactionInput) (s : S)
      → let s' = (update repo account_repo category_repo now u id input s).1 in
        (s' ≡ s)
        ⊎ ((tx : Transaction) × (repo.get_by_id_for_user id u s ≡ ok tx)
            × (s' ≡ (repo.update (changed now tx input) s).1))
  unfolding update
  update-state now u id input s = elim (outcome (repo.get_by_id_for_user id u s)) [
    | failure e missing ↦ ground arith
    | success tx read ↦ ground arith
  ]
