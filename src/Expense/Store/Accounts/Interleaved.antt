-- ===== src/Expense/Store/Accounts/Interleaved.antt =====
-- Requests of many users to account_service.go over mongo_account.go, one after the other.
use finora.Base.{
  ◌≡◌, ◌≢◌, refl, sym, ap, ◌∙◌, inl, inr, Bool-cases, List, [], ◌∷◌, Option-cases, Text, Result,
  select, arith,
}
use finora.Golang.Text.{text_eq}
use finora.Golang.Text.Laws.{text_eq-disjoint, eq_of_text_eq, text_eq_refl}
use finora.Golang.Time.{Time}
use finora.Mongo.{Collection, IsCollection, ObjectIds}
use finora.Mongo.Laws.{insert_one-hidden, update_one-hidden, delete_one-hidden}
use finora.Expense.Accounts
use finora.Expense.Accounts.{built, changed}
use finora.Expense.Accounts.Calls.{create-calls, update-calls}
use finora.Expense.Domain.{Account}
use finora.Expense.Store.Accounts.{
  AccountDoc, of_user, set_fields, by_id_for_user, create, update, delete_by_id_for_user, new_doc,
  repository, to_domain,
}
use finora.Expense.Store.Accounts.Book.{
  Call, create_account, list_accounts, get_account, update_account, delete_account, Answer, perform,
  Step, book,
}
use finora.Expense.Store.Accounts.Refined.{repository_get, perform-Step}

-- A request: whose it is, when it comes, and what it asks.
pub record Turn : Type 0 where
  pub user : Text
  pub now : Time
  pub call : Call

-- The requests of one user.
abbrev pub own : Text → List Turn → List Turn
own u turns = select (λ t. text_eq t.user u) turns

-- The state after the requests.
module _ {S O : Type 0} (ids : ObjectIds O) (col : Collection S (AccountDoc O))
    (new_id : S → O) where
  abbrev pub serve : List Turn → S → S
  serve [] s = s
  serve (t ∷ turns) s = serve turns (perform ids col new_id t.now t.user t.call s).1

module _ {O : Type 0} (ids : ObjectIds O) where
  -- A book is led from one list to another by its own user's requests, each a step of it.
  pub data Runs : List Turn → List (AccountDoc O) → List (AccountDoc O) → Type 0 where
    done : (b b' : List (AccountDoc O)) → b' ≡ b → Runs [] b b'
    turn :
        (t : Turn) (turns : List Turn) (b mid b' : List (AccountDoc O)) (r : Result Answer)
        → Step ids t.now t.user t.call b r mid
        → Runs turns mid b'
        → Runs (t ∷ turns) b b'

module _ {S O : Type 0} (ids : ObjectIds O) (col : Collection S (AccountDoc O))
    (laws : IsCollection col) (new_id : S → O) (now : Time) where
  update-others :
      (u v : Text) (a : Account) (s : S)
      → u ≢ v
      → a.user_id ≡ u
      → book col v (update ids col a s).1 ≡ book col v s
  unfolding update by_id_for_user
  update-others u v a s other own = elim (Option-cases (ids.from_hex a.id)) [
    | inl bad ↦ rw (bad, update) refl
    | inr (oid, named) ↦
        rw (named, update, own)
          (update_one-hidden col laws (of_user v) _ (set_fields a) s
            (λ d e. text_eq-disjoint d.user_id u v other (ground arith))
            (λ d e. text_eq-disjoint d.user_id u v other (ground arith)))
  ]

  delete-others :
      (u v id : Text) (s : S)
      → u ≢ v
      → book col v (delete_by_id_for_user ids col id u s).1 ≡ book col v s
  unfolding delete_by_id_for_user by_id_for_user
  delete-others u v id s other = elim (Option-cases (ids.from_hex id)) [
    | inl bad ↦ rw (bad, delete_by_id_for_user) refl
    | inr (oid, named) ↦
        rw (named, delete_by_id_for_user)
          (delete_one-hidden col laws (of_user v) _ s
            (λ d e. text_eq-disjoint d.user_id u v other (ground arith)))
  ]

  create-others :
      (u v : Text) (a : Account) (s : S)
      → u ≢ v
      → a.user_id ≡ u
      → book col v (create ids col new_id a s).1 ≡ book col v s
  unfolding create new_doc
  create-others u v a s other own =
      insert_one-hidden col laws (of_user v) (new_doc ids col (new_id s) a) s
        (text_eq-disjoint a.user_id u v other (rw own (text_eq_refl u)))

  -- A request of one user leaves the book of every other user as it is.
  pub perform-others :
      (u v : Text) (call : Call) (s : S)
      → u ≢ v
      → book col v (perform ids col new_id now u call s).1 ≡ book col v s
  unfolding perform repository built changed Accounts.delete to_domain
  perform-others u v (create_account input) s other =
      elim (create-calls (repository ids col new_id) now u input s) [
        | inl (e, refused) ↦ rw (refused, perform) refl
        | inr (fine, stored) ↦
            rw (stored, perform)
              (create-others u v (built (repository ids col new_id) now u input) s other refl)
      ]
  perform-others u v list_accounts s other = refl
  perform-others u v (get_account id) s other = refl
  perform-others u v (update_account id input) s other =
      elim (update-calls (repository ids col new_id) now u id input s) [
        | inl (e, refused) ↦ rw (refused, perform) refl
        | inr (a, read, fine, stored) ↦
            let (oid, d, held, same, own, at) =
              repository_get ids col laws new_id now u id s a read in
            rw (stored, perform)
              (update-others u v (changed (repository ids col new_id) now a input) s other
                (ap (λ (x : Account). x.user_id) same ∙ own))
      ]
  perform-others u v (delete_account id) s other = delete-others u v id s other

module _ {S O : Type 0} (ids : ObjectIds O) (col : Collection S (AccountDoc O))
    (laws : IsCollection col) (new_id : S → O) where
  -- However the requests of the users follow one another, what they make of a user's book is a run
  -- of that user's own requests alone, in their order, each a step of the book.
  pub serve-Runs :
      (u : Text) (turns : List Turn) (s : S)
      → Runs ids (own u turns) (book col u s) (book col u (serve ids col new_id turns s))
  serve-Runs u [] s = done _ _ refl
  serve-Runs u (t ∷ turns) s =
      let next = (perform ids col new_id t.now t.user t.call s).1 in
      let rest = serve-Runs u turns next in
      elim (Bool-cases (text_eq t.user u)) [
        | inl mine ↦
            let same : t.user ≡ u = eq_of_text_eq t.user u mine in
            rw mine (
              turn t (own u turns) _ (book col u next) _
                (perform ids col new_id t.now t.user t.call s).0
                (rw (sym same) (perform-Step ids col laws new_id t.now t.user t.call s)) rest)
        | inr others ↦
            rw
              (
                others,
                sym (
                    perform-others ids col laws new_id t.now t.user u t.call s
                      (λ same. absurd (ground (arith, text_eq_refl u)))),
              )
              rest
      ]
