-- ===== src/Expense/Store/Accounts/Refined.antt =====
-- account_service.go over mongo_account.go, against the book of each user.
use finora.Base.{
  ◌≡◌, refl, sym, ap, ◌∙◌, inl, inr, List, [], ◌∷◌, ◌++◌, Option-cases, some, map, Text, ok, err,
  Result, map_ok, map_ok-ok, find_first, update_first, delete_first, arith, find_first-passes,
  Option, none, update_first-found,
}
use finora.Golang.Text.Laws.{text_eq_refl, eq_of_text_eq}
use finora.Golang.Float.{Float}
use finora.Golang.Time.{Time}
use finora.Mongo.{Collection, IsCollection, ObjectIds, Applied}
use finora.Mongo.Laws.{Applied-select, Applied-matched, Applied-map_ok, found-ok}
use finora.Mongo.Owned.{
  find_first-select, select-update_first_owned, select-delete_first_owned, select-append_owned,
}
use finora.Expense.Domain.{Account, CreateAccountInput, UpdateAccountInput}
use finora.Expense.Accounts
use finora.Expense.Accounts.{built, changed, new_balance}
use finora.Expense.Accounts.Calls.{validate-none, create-calls, update-calls}
use finora.Expense.Store.Accounts.{
  AccountDoc, of_user, set_fields, to_domain, by_id_for_user, new_doc, create, update,
  get_by_id_for_user, delete_by_id_for_user, list_by_user, repository,
}
use finora.Expense.Store.Accounts.Book.{
  Call, create_account, list_accounts, get_account, update_account, delete_account, Answer,
  accounts, account, done, perform, has_id, book, Holds, Wrote, Answers, Step, revised, shown,
  balance_after,
}

-- The two ways to write the balance that an update leaves.
new_balance-balance_after :
    (given : Option Float) (old : Float) → new_balance given old ≡ balance_after given old
new_balance-balance_after none old = refl
new_balance-balance_after (some b) old = refl

module _ {S O : Type 0} (ids : ObjectIds O) (col : Collection S (AccountDoc O))
    (laws : IsCollection col) (new_id : S → O) (now : Time) where
  repository_create :
      (u : Text) (tx : Account) (s : S)
      → tx.user_id ≡ u
      → Applied
          (create ids col new_id tx s).0
          (book col u s)
          (book col u s ++ new_doc ids col (new_id s) tx ∷ [])
          (book col u (create ids col new_id tx s).1)
  unfolding create new_doc
  repository_create u tx s own =
      Applied-map_ok _ (col.insert_one (new_doc ids col (new_id s) tx) s).0 _ _ _ (
        Applied-select (of_user u) _ (col.docs s) _ _ _ (laws.insert_one-docs _ s)
          (select-append_owned (of_user u) (col.docs s) _ (rw own (text_eq_refl u))))

  repository_update :
      (u : Text) (a : Account) (oid : O) (s : S)
      → a.user_id ≡ u
      → ids.from_hex a.id ≡ some oid
      → Applied
          (update ids col a s).0
          (book col u s)
          (update_first (has_id ids oid) (set_fields a) (book col u s))
          (book col u (update ids col a s).1)
  unfolding update by_id_for_user
  repository_update u a oid s own named =
      rw (named, update, own)
        (Applied-matched (col.update_one (by_id_for_user ids col oid u) (set_fields a) s).0 _ _ _ (
          Applied-select (of_user u) _ (col.docs s) _ _ _ (laws.update_one-docs _ _ s) (
            select-update_first_owned (of_user u) (has_id ids oid) (set_fields a) (col.docs s)
              (λ d mine. mine))))

  repository_delete :
      (u id : Text) (oid : O) (s : S)
      → ids.from_hex id ≡ some oid
      → Applied
          (delete_by_id_for_user ids col id u s).0
          (book col u s)
          (delete_first (has_id ids oid) (book col u s))
          (book col u (delete_by_id_for_user ids col id u s).1)
  unfolding delete_by_id_for_user by_id_for_user
  repository_delete u id oid s named =
      rw (named, delete_by_id_for_user)
        (Applied-matched (col.delete_one (by_id_for_user ids col oid u) s).0 _ _ _ (
          Applied-select (of_user u) _ (col.docs s) _ _ _ (laws.delete_one-docs _ s)
            (select-delete_first_owned (of_user u) (has_id ids oid) (col.docs s))))

  -- What a read by id gives stands in the user's book under that id.
  pub repository_get :
      (u id : Text) (s : S) (a : Account)
      → get_by_id_for_user ids col id u s ≡ ok a
      → (oid : O) × (d : AccountDoc O) × Holds ids (book col u s) id oid d
        × (a ≡ shown ids d)
        × (d.user_id ≡ u)
        × (d.id ≡ oid)
  unfolding get_by_id_for_user by_id_for_user to_domain
  repository_get u id s a h = elim (Option-cases (ids.from_hex id)) [
    | inl bad ↦ absurd (ground arith)
    | inr (oid, named) ↦
        let (d, read, same) =
          found-ok (to_domain ids col) (col.find_one (by_id_for_user ids col oid u) s) a
            (rw (named, get_by_id_for_user) at h) in
        let first : some d ≡ find_first (by_id_for_user ids col oid u) (col.docs s) =
          laws.find_one-docs _ s (some d) read in
        let passes = find_first-passes (by_id_for_user ids col oid u) (col.docs s) d (sym first) in
        (
          oid,
          d,
          (named, sym (find_first-select (of_user u) (has_id ids oid) (col.docs s)) ∙ sym first),
          sym same,
          eq_of_text_eq d.user_id u (ground arith),
          ids.id_eq_iff d.id oid (ground arith),
        )
  ]

  -- A write of the repository is a step of the book.
  Applied-Step :
      {A : Type 0} (u : Text) (call : Call) (f : A → Answer) (r : Result A)
      (b new b' : List (AccountDoc O))
      → Applied r b new b'
      → Wrote ids now u call b new
      → ((a : A) → r ≡ ok a → Answers ids now u call b (f a) new)
      → Step ids now u call b (map_ok f r) b'
  Applied-Step u call f (ok a) b new b' h wrote answers = rw h (answers a refl, wrote)
  Applied-Step u call f (err e) b new b' (inl h) wrote answers = inl h
  Applied-Step u call f (err e) b new b' (inr h) wrote answers = inr (rw h wrote)

  create-Step :
      (u : Text) (input : CreateAccountInput) (s : S)
      → Step ids now u
          (create_account input)
          (book col u s)
          (perform ids col new_id now u (create_account input) s).0
          (book col u (perform ids col new_id now u (create_account input) s).1)
  unfolding perform repository built create new_doc to_domain
  create-Step u input s = elim (create-calls (repository ids col new_id) now u input s) [
    | inl (e, refused) ↦ rw (refused, perform) (inl refl)
    | inr (fine, stored) ↦
        let tx = built (repository ids col new_id) now u input in
        rw (stored, perform)
          (Applied-Step u (create_account input) account (create ids col new_id tx s).0
            (book col u s) _ _ (repository_create u tx s refl)
            (new_id s, validate-none _ _ _ fine, refl)
            (λ a h.
              let (x, inserted, same) =
                map_ok-ok _ (col.insert_one (new_doc ids col (new_id s) tx) s).0 a h in
              (new_doc ids col (new_id s) tx, refl, ap account same)))
  ]

  update-Step :
      (u id : Text) (input : UpdateAccountInput) (s : S)
      → Step ids now u
          (update_account id input)
          (book col u s)
          (perform ids col new_id now u (update_account id input) s).0
          (book col u (perform ids col new_id now u (update_account id input) s).1)
  unfolding perform repository changed to_domain
  update-Step u id input s = elim (update-calls (repository ids col new_id) now u id input s) [
    | inl (e, refused) ↦ rw (refused, perform) (inl refl)
    | inr (a, read, fine, stored) ↦
        let (oid, d, held, same, own, at) = repository_get u id s a read in
        let tx = changed (repository ids col new_id) now (shown ids d) input in
        let identified : ids.from_hex tx.id ≡ some oid = ids.from_hex-hex d.id ∙ ap some at in
        let balance = new_balance-balance_after input.balance d.balance in
        let written : set_fields tx d ≡ revised now input d =
          ap (λ x. record (revised now input d) { balance = x }) balance in
        let as_shown : tx ≡ record (shown ids (revised now input d)) { updated_at = now } =
          ap (λ x. record (shown ids (revised now input d)) { balance = x; updated_at = now })
            balance in
        rw (stored, perform, same)
          (Applied-Step u (update_account id input) account
            (map_ok (λ _. tx) (update ids col tx s).0) (book col u s) _ _
            (Applied-map_ok (λ _. tx) (update ids col tx s).0 _ _ _
              (repository_update u tx oid s own identified))
            (
              oid,
              d,
              held,
              validate-none _ _ _ fine,
              update_first-found (has_id ids oid) (set_fields tx) d (book col u s) held.1
                  ∙ ap (λ e. update_first (has_id ids oid) (λ _. e) (book col u s)) written,
            )
            (λ x h.
              let (w, wrote, made) = map_ok-ok (λ _. tx) (update ids col tx s).0 x h in
              (oid, d, held, ap account (made ∙ as_shown))))
  ]

  map_ok-Step :
      {A : Type 0} (u : Text) (call : Call) (f : A → Answer) (r : Result A)
      (b : List (AccountDoc O))
      → Wrote ids now u call b b
      → ((a : A) → r ≡ ok a → Answers ids now u call b (f a) b)
      → Step ids now u call b (map_ok f r) b
  map_ok-Step u call f (ok a) b wrote answers = (answers a refl, wrote)
  map_ok-Step u call f (err e) b wrote answers = inl refl

  -- A request of a user is a step of that user's book: where it succeeds, it answers from the book
  -- and writes to it what the request says, which passed the checks, and where it fails, the book
  -- stays or has that write.
  pub perform-Step :
      (u : Text) (call : Call) (s : S)
      → Step ids now u call
          (book col u s)
          (perform ids col new_id now u call s).0
          (book col u (perform ids col new_id now u call s).1)
  unfolding perform repository to_domain Accounts.list Accounts.get Accounts.delete list_by_user
  perform-Step u (create_account input) s = create-Step u input s
  perform-Step u list_accounts s =
      map_ok-Step u list_accounts accounts (list_by_user ids col u s) (book col u s) refl
        (λ shown read.
          let (docs, sorted, same) =
            map_ok-ok (map (to_domain ids col))
              (col.find_all_sorted (of_user u) (λ d. d.created_at) s) shown read in
          let (perm, descending) =
            laws.find_all_sorted-docs (of_user u) (λ d. d.created_at) s docs sorted in
          (docs, perm, descending, ap accounts same))
  perform-Step u (get_account id) s =
      map_ok-Step u (get_account id) account (get_by_id_for_user ids col id u s) (book col u s) refl
        (λ a read.
          let (oid, d, held, same, own, at) = repository_get u id s a read in
          (oid, d, held, ap account same))
  perform-Step u (update_account id input) s = update-Step u id input s
  perform-Step u (delete_account id) s = elim (Option-cases (ids.from_hex id)) [
    | inl bad ↦ rw (bad, perform, Accounts.delete, delete_by_id_for_user) (inl refl)
    | inr (oid, named) ↦
        Applied-Step u (delete_account id) (λ _. done) (delete_by_id_for_user ids col id u s).0
          (book col u s) _ _ (repository_delete u id oid s named) (oid, named, refl) (λ x h. refl)
  ]
