-- ===== src/Expense/Http/Accounts/Found.antt =====
-- `Get` of account_handler.go over account_service.go and mongo_account.go.
use finora.Base.{
  ◌≡◌, ◌⊎◌, refl, sym, ◌∙◌, inl, inr, some, none, Text, str, ok, err, Error, not_found, IsFailed,
  find_first, Option-cases, Bool, Option, Result,
}
use finora.Golang.Time.{Time}
use finora.Mongo.{Collection, IsCollection, ObjectIds}
use finora.Mongo.Laws.{found-cases}
use finora.Mongo.Owned.{find_first-select}
use finora.Http.{Context, success_envelope, fail, code_not_found, code_internal, no_details}
use finora.Http.Middleware.{user_id}
use finora.Expense.Store.Accounts.{
  AccountDoc, of_user, by_id_for_user, get_by_id_for_user, to_domain, repository,
}
use finora.Expense.Store.Accounts.Book.{book, has_id, Holds, shown}
use finora.Expense.Http.{answer, write_service_error}
use finora.Expense.Http.Services.{account_service}
use finora.Expense.Http.Accounts.{account, get}
use finora.Expense.Accounts

module _ {S O : Type 0} (ids : ObjectIds O) (col : Collection S (AccountDoc O))
    (laws : IsCollection col) where
  -- What the driver answers to the query of `GetByIDForUser`.
  abbrev pub Reads : Text → Text → S → O → Result (Option (AccountDoc O)) → Type 0
  Reads u id s oid r =
      (ids.from_hex id ≡ some oid) × (col.find_one (by_id_for_user ids col oid u) s ≡ r)

  -- The user's book holds nothing under the id and the driver says so, or the id is no id at all.
  abbrev pub Lacks : Text → Text → S → Type 0
  Lacks u id s =
      (ids.from_hex id ≡ none)
      ⊎ ((oid : O) × Reads u id s oid (ok none)
          × (find_first (has_id ids oid) (book col u s) ≡ none))

  get-cases :
      (u id : Text) (s : S)
      → ((oid : O) × (d : AccountDoc O) × Reads u id s oid (ok (some d))
          × Holds ids (book col u s) id oid d
          × (get_by_id_for_user ids col id u s ≡ ok (to_domain ids col d)))
        ⊎ (Lacks u id s × (get_by_id_for_user ids col id u s ≡ err not_found))
        ⊎ ((oid : O) × (e : Error) × Reads u id s oid (err e)
            × (get_by_id_for_user ids col id u s ≡ err e))
  unfolding get_by_id_for_user by_id_for_user
  get-cases u id s = elim (Option-cases (ids.from_hex id)) [
    | inl bad ↦ inr (inl (inl bad, rw (bad, get_by_id_for_user) refl))
    | inr (oid, named) ↦
        let p = by_id_for_user ids col oid u in
        let mine = find_first-select (of_user u) (has_id ids oid) (col.docs s) in
        elim (found-cases (to_domain ids col) (col.find_one p s)) [
          | inl (d, read, given) ↦ inl (
            oid,
            d,
            (named, read),
            (named, sym mine ∙ sym (laws.find_one-docs p s (some d) read)),
            rw (named, get_by_id_for_user) given,
          )
          | inr (inl (read, given)) ↦ inr (
              inl (
                inr (oid, (named, read), sym mine ∙ sym (laws.find_one-docs p s none read)),
                rw (named, get_by_id_for_user) given,
              ))
          | inr (inr (e, failed_, given)) ↦
              inr (inr (oid, e, (named, failed_), rw (named, get_by_id_for_user) given))
        ]
  ]

  -- Where the errors of the driver are its own, `Get` answers with the account that the caller's own
  -- book holds under the id; with one 404 where the driver finds none and the book lacks it, be it
  -- another user's or nobody's; and with one 500 where the driver fails, whatever its error.
  pub get-answers :
      (new_id : S → O) (now : Time)
      → ((p : AccountDoc O → Bool) (s : S) (e : Error) → col.find_one p s ≡ err e → IsFailed e)
      → (c : Context) (id : Text) (s : S)
      → let response = (get (account_service (repository ids col new_id) now) c id s).0 in
        let u = user_id c in
        ((oid : O) × (d : AccountDoc O) × Reads u id s oid (ok (some d))
          × Holds ids (book col u s) id oid d
          × (response ≡ success_envelope c 200 (account (shown ids d))))
        ⊎ (Lacks u id s
            × (response ≡ fail c 404 code_not_found (str "resource not found") no_details))
        ⊎ ((oid : O) × (e : Error) × Reads u id s oid (err e)
            × (response ≡ fail c 500 code_internal (str "internal server error") no_details))
  unfolding get answer write_service_error repository Accounts.get to_domain
  get-answers new_id now foreign c id s = elim (get-cases (user_id c) id s) [
    | inl (oid, d, read, held, given) ↦ inl (oid, d, read, held, rw (given, get) refl)
    | inr (inl (lacks, given)) ↦ inr (inl (lacks, rw (given, get) refl))
    | inr (inr (oid, e, broken, given)) ↦
        let (m, same) = foreign _ s e broken.1 in
        inr (inr (oid, e, broken, rw (given, same, get) refl))
  ]
