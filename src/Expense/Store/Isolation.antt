-- ===== src/Expense/Store/Isolation.antt =====
-- transaction_service.go over the repository of mongo_transaction.go, and ownership.
use finora.Base.{◌≡◌, ◌≢◌, sym, ◌∙◌, ap, inl, inr, Text, select}
use finora.Golang.Text.{text_eq}
use finora.Golang.Time.{Time}
use finora.Mongo.{Collection, IsCollection, ObjectIds}
use finora.Expense.Domain.{
  Transaction, TransactionInput, AccountRepository, CategoryRepository, EventPublisher,
}
use finora.Expense.Transactions.{create, update, built, changed}
use finora.Expense.Store.Transactions.{TransactionDoc, repository, set_fields}
use finora.Expense.Store.Transactions
use finora.Expense.Transactions.Creating.{create-state, update-state}
use finora.Expense.Store.Transactions.Owned.{owned, create-owned, update-owned, get-owned}

module _ {S O : Type 0} (ids : ObjectIds O) (col : Collection S (TransactionDoc O))
    (laws : IsCollection col) (new_id : S → O) (account_repo : AccountRepository S)
    (category_repo : CategoryRepository S) where
  -- The publisher writes to the outbox, another collection.
  abbrev pub LeavesAlone : EventPublisher S → Type 0
  LeavesAlone publisher =
      (tx : Transaction) (s : S)
      → col.docs (publisher.publish_transaction_created tx s).1 ≡ col.docs s

  -- A create by one user leaves the documents of every other user as they are, where publishing
  -- leaves the collection alone.
  pub service_create-owned :
      (publisher : EventPublisher S) (now : Time) (u v : Text) (input : TransactionInput) (s : S)
      → LeavesAlone publisher
      → u ≢ v
      → owned col v
          (create (repository ids col new_id) account_repo category_repo publisher now u input s).1
        ≡ owned col v s
  unfolding built repository
  service_create-owned publisher now u v input s alone h =
      let tx = built now u input in
      let made = Transactions.create ids col new_id tx s in
      let stored = create-owned ids col laws new_id tx v s h in
      elim (create-state (repository ids col new_id) account_repo category_repo publisher now u
        input s) [
          | inl same ↦ ap (owned col v) same
          | inr (inl written) ↦ ap (owned col v) written ∙ stored
          | inr (inr (sent, published)) ↦
              ap (owned col v) published
              ∙ ap (select (λ d. text_eq d.user_id v)) (alone sent made.1)
              ∙ stored
        ]

  -- An update by one user, whichever transaction it names, leaves the documents of every other user
  -- as they are.
  pub service_update-owned :
      (now : Time) (u v id : Text) (input : TransactionInput) (s : S)
      → u ≢ v
      → owned col v
          (update (repository ids col new_id) account_repo category_repo now u id input s).1
        ≡ owned col v s
  unfolding changed repository
  service_update-owned now u v id input s h =
      elim (update-state (repository ids col new_id) account_repo category_repo now u id input s) [
        | inl same ↦ ap (owned col v) same
        | inr (tx, read, written) ↦
            ap (owned col v) written
            ∙ update-owned ids col laws (changed now tx input) v s
                (λ e. h (sym (get-owned ids col laws id u s tx read).0 ∙ e))
      ]
