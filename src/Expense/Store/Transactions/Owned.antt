-- ===== src/Expense/Store/Transactions/Owned.antt =====
-- Ownership in mongo_transaction.go.
use finora.Base.{
  ◌≡◌, ◌≢◌, refl, true, false, inl, inr, some, Option-cases, List, select, Text, not_found, ok, err,
  arith,
}
use finora.Golang.Text.{text_eq}
use finora.Golang.Text.Laws.{text_eq_refl, text_eq-disjoint, eq_of_text_eq}
use finora.Mongo.{Collection, IsCollection, ObjectIds}
use finora.Mongo.Laws.{
  found-ok, find_one-passes, insert_one-hidden, update_one-hidden, delete_one-hidden,
}
use finora.Expense.Domain.{Transaction}
use finora.Expense.Store.Transactions.{
  TransactionDoc, by_id_for_user, new_doc, set_fields, to_domain, create, get_by_id_for_user,
  update, delete_by_id_for_user,
}

-- The documents of a user.
abbrev pub owned :
    {S O : Type 0} → Collection S (TransactionDoc O) → Text → S → List (TransactionDoc O)
owned col v s = select (λ d. text_eq d.user_id v) (col.docs s)

module _ {S O : Type 0} (ids : ObjectIds O) (col : Collection S (TransactionDoc O))
    (laws : IsCollection col) where
  by_id-hidden :
      (oid : O) (u v : Text)
      → u ≢ v
      → (d : TransactionDoc O) → by_id_for_user ids col oid u d ≡ true
      → text_eq d.user_id v ≡ false
  unfolding by_id_for_user
  by_id-hidden oid u v h d e = text_eq-disjoint d.user_id u v h (ground arith)

  pub create-owned :
      (new_id : S → O) (tx : Transaction) (v : Text) (s : S)
      → tx.user_id ≢ v
      → owned col v (create ids col new_id tx s).1 ≡ owned col v s
  unfolding create
  create-owned new_id tx v s h =
      insert_one-hidden col laws (λ d. text_eq d.user_id v) (new_doc ids col (new_id s) tx) s
        (text_eq-disjoint tx.user_id tx.user_id v h (text_eq_refl tx.user_id))

  pub update-owned :
      (tx : Transaction) (v : Text) (s : S)
      → tx.user_id ≢ v
      → owned col v (update ids col tx s).1 ≡ owned col v s
  unfolding update
  update-owned tx v s h = elim (Option-cases (ids.from_hex tx.id)) [
    | inl bad ↦ rw (bad, update)
    | inr (oid, found) ↦
        rw (found, update)
          (update_one-hidden col laws (λ d. text_eq d.user_id v) _ (set_fields ids col tx) s
            (by_id-hidden oid tx.user_id v h) (by_id-hidden oid tx.user_id v h))
  ]

  -- Deleting a transaction as one user leaves the documents of every other user as they are.
  pub delete-owned :
      (id u v : Text) (s : S)
      → u ≢ v
      → owned col v (delete_by_id_for_user ids col id u s).1 ≡ owned col v s
  unfolding delete_by_id_for_user
  delete-owned id u v s h = elim (Option-cases (ids.from_hex id)) [
    | inl bad ↦ rw (bad, delete_by_id_for_user)
    | inr (oid, found) ↦
        rw (found, delete_by_id_for_user)
          (delete_one-hidden col laws (λ d. text_eq d.user_id v) _ s (by_id-hidden oid u v h))
  ]

  by_id-domain :
      (oid : O) (u id : Text) (d : TransactionDoc O) (tx : Transaction)
      → ids.from_hex id ≡ some oid
      → by_id_for_user ids col oid u d ≡ true
      → to_domain ids col d ≡ tx
      → (tx.user_id ≡ u) × (ids.from_hex tx.id ≡ ids.from_hex id)
  unfolding by_id_for_user to_domain
  by_id-domain oid u id d tx named passes same =
      let owner : text_eq d.user_id u ≡ true = ground arith in
      let key : ids.id_eq d.id oid ≡ true = ground arith in
      (
        rw (← same) (eq_of_text_eq d.user_id u owner),
        rw (← same, named, ids.from_hex-hex d.id, ids.id_eq_iff d.id oid key) refl,
      )

  -- A transaction that is found has the id that was asked for and belongs to the caller.
  pub get-owned :
      (id u : Text) (s : S) (tx : Transaction)
      → get_by_id_for_user ids col id u s ≡ ok tx
      → (tx.user_id ≡ u) × (ids.from_hex tx.id ≡ ids.from_hex id)
  unfolding get_by_id_for_user
  get-owned id u s tx h = elim (Option-cases (ids.from_hex id)) [
    | inl bad ↦ let refused : err not_found ≡ ok tx = rw (bad, get_by_id_for_user) at h in cc
    | inr (oid, named) ↦
        let (d, answer, same) =
          found-ok (to_domain ids col) (col.find_one (by_id_for_user ids col oid u) s) tx
            (rw (named, get_by_id_for_user) at h) in
        by_id-domain oid u id d tx named (find_one-passes col laws _ s d answer) same
  ]
