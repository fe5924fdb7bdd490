-- ===== src/Gateway/Received.antt =====
-- A request from router.go of the gateway to the handlers of accounts in expense-service, behind
-- RequireIdentity of shared/middleware.
use finora.Base.{
  ◌≡◌, refl, sym, ◌∙◌, ap, false, true, some, none, Text, ok, err, Result, List, map, map_ok-ok,
  All, All-map, All-weaken, All-Perm, All-select_passes, Bool-cases, inl, inr,
}
use finora.Golang.Text.{is_empty}
use finora.Golang.Text.Laws.{eq_of_text_eq}
use finora.Golang.Time.{Time}
use finora.Jwt.{JwtLibrary, Claims, parse, type_access}
use finora.Mongo.{Collection, IsCollection, ObjectIds}
use finora.Http.{Context, Response, Bound, bound, unbound, get_header, fail, payload_of}
use finora.Http.Middleware.{next, then_handle, require_identity, user_id, user_id_header}
use finora.Gateway.Auth.{Request}
use finora.Gateway.Router.{Backend, forward, is_public, route}
use finora.Gateway.Router.Protected.{Bears, route-bearer}
use finora.Expense.Domain.{Account, CreateAccountInput, UpdateAccountInput}
use finora.Expense.Accounts
use finora.Expense.Accounts.{built, changed}
use finora.Expense.Accounts.Calls.{create-calls, update-calls}
use finora.Expense.Store.Accounts as Store
use finora.Expense.Store.Accounts.{AccountDoc, of_user, repository, list_by_user, to_domain}
use finora.Expense.Store.Accounts.Refined.{repository_get}
use finora.Expense.Http.{answer_deleted}
use finora.Expense.Http.Answers.{answer-payload, payload-write_service_error}
use finora.Expense.Http.Services.{AccountService, account_service}
use finora.Expense.Http.Accounts.{
  CreateAccountRequest, UpdateAccountRequest, Payload, accounts, account, list, create, get, update,
  delete,
}

require_identity-user :
    {D : Type 0} (c : Context) (u : Text)
    → get_header user_id_header c.headers ≡ u
    → is_empty u ≡ false
    → require_identity {D = D} c ≡ next (record c { user_id = some u })
unfolding require_identity
require_identity-user c u named given = rw (named, given, require_identity) refl

require_identity-nobody :
    {D S : Type 0} (c : Context) (handler : Context → S → Response D × S) (s : S)
    → is_empty (get_header user_id_header c.headers) ≡ true
    → payload_of (then_handle (require_identity c) handler s).0 ≡ none
unfolding require_identity fail
require_identity-nobody c handler s empty = rw (empty, require_identity) refl

-- What a client may ask of the accounts, with what gin binds of a body.
pub data Ask : Type 0 where
  listing : Ask
  opening : Bound CreateAccountRequest → Ask
  showing : Text → Ask
  revising : Text → Bound UpdateAccountRequest → Ask
  removing : Text → Ask

-- The handler of the request.
abbrev pub handle : {S : Type 0} → AccountService S → Ask → Context → S → Response Payload × S
handle svc listing c s = list svc c s
handle svc (opening body) c s = create svc c body s
handle svc (showing id) c s = get svc c id s
handle svc (revising id body) c s = update svc c id body s
handle svc (removing id) c s = delete svc c id s

-- All accounts of the payload belong to the user.
abbrev pub IsOwn : Text → Payload → Type 0
IsOwn u (accounts many) = All (λ (a : Account). a.user_id ≡ u) many
IsOwn u (account a) = a.user_id ≡ u

deleted-payload :
    {A : Type 0} (c : Context) (r : Result A) (p : Payload)
    → payload_of (answer_deleted c r) ≡ some p
    → IsOwn (user_id c) p
unfolding answer_deleted
deleted-payload c (ok a) p h = absurd (let wrong : none ≡ some p = h in cc)
deleted-payload c (err e) p h =
    absurd
      (let wrong : none ≡ some p = (rw (payload-write_service_error {D = Payload} c e) at h) in cc)

module _ {S O : Type 0} (ids : ObjectIds O) (col : Collection S (AccountDoc O))
    (laws : IsCollection col) (new_id : S → O) (now : Time) where
  list-own :
      (u : Text) (s : S) (many : List Account)
      → list_by_user ids col u s ≡ ok many
      → All (λ (a : Account). a.user_id ≡ u) many
  unfolding list_by_user to_domain
  list-own u s many h =
      let (docs, read, same) =
        map_ok-ok (map (to_domain ids col)) (col.find_all_sorted (of_user u) (λ d. d.created_at) s)
          many h in
      let (perm, sorted) = laws.find_all_sorted-docs (of_user u) (λ d. d.created_at) s docs read in
      rw same (
        All-map (λ (a : Account). a.user_id ≡ u) (to_domain ids col) docs
          (All-weaken (λ d. of_user u d ≡ true) _ (λ d. eq_of_text_eq d.user_id u) docs
            (All-Perm _ perm (All-select_passes (of_user u) (col.docs s)))))

  create-own :
      (u : Text) (input : CreateAccountInput) (s : S) (a : Account)
      → (Accounts.create (repository ids col new_id) now u input s).0 ≡ ok a
      → a.user_id ≡ u
  unfolding repository Store.create built
  create-own u input s a h = elim (create-calls (repository ids col new_id) now u input s) [
    | inl (e, refused) ↦ absurd (let wrong : err e ≡ ok a = (rw refused at h) in cc)
    | inr (fine, stored) ↦
        let (done, inserted, same) = map_ok-ok _ _ a (rw stored at h) in
        ap (λ (x : Account). x.user_id) same
  ]

  update-own :
      (u id : Text) (input : UpdateAccountInput) (s : S) (a : Account)
      → (Accounts.update (repository ids col new_id) now u id input s).0 ≡ ok a
      → a.user_id ≡ u
  unfolding repository changed to_domain
  update-own u id input s a h = elim (update-calls (repository ids col new_id) now u id input s) [
    | inl (e, refused) ↦ absurd (let wrong : err e ≡ ok a = (rw refused at h) in cc)
    | inr (old, read, fine, stored) ↦
        let (oid, d, held, made, own, at) =
          repository_get ids col laws new_id now u id s old read in
        let (done, wrote, same) =
          map_ok-ok (λ _. changed (repository ids col new_id) now old input) _ a (rw stored at h) in
        ap (λ (x : Account). x.user_id) same ∙ ap (λ (x : Account). x.user_id) made ∙ own
  ]

  -- Whatever a handler shows is the caller's.
  handle-IsOwn :
      (c : Context) (ask : Ask) (s : S) (p : Payload)
      → payload_of (handle (account_service (repository ids col new_id) now) ask c s).0 ≡ some p
      → IsOwn (user_id c) p
  unfolding list create get update delete repository Accounts.list Accounts.get fail
  handle-IsOwn c listing s p h =
      let (many, read, same) = answer-payload c 200 accounts _ p h in
      rw (← same) (list-own (user_id c) s many read)
  handle-IsOwn c (opening (unbound e)) s p h = absurd (let wrong : none ≡ some p = h in cc)
  handle-IsOwn c (opening (bound req)) s p h =
      let (a, made, same) = answer-payload c 201 account _ p h in
      rw (← same) (create-own (user_id c) _ s a made)
  handle-IsOwn c (showing id) s p h =
      let (a, read, same) = answer-payload c 200 account _ p h in
      let (oid, d, held, made, own, at) =
        repository_get ids col laws new_id now (user_id c) id s a read in
      rw (← same, made) own
  handle-IsOwn c (revising id (unbound e)) s p h = absurd (let wrong : none ≡ some p = h in cc)
  handle-IsOwn c (revising id (bound req)) s p h =
      let (a, made, same) = answer-payload c 200 account _ p h in
      rw (← same) (update-own (user_id c) id _ s a made)
  handle-IsOwn c (removing id) s p h = deleted-payload c _ p h

module _ (jwt : JwtLibrary) (secret : Text) (now : Time) {S O : Type 0} (ids : ObjectIds O)
    (col : Collection S (AccountDoc O)) (laws : IsCollection col) (new_id : S → O) where
  -- Every account that the account handlers of expense-service show in answer to a request through
  -- the gateway belongs to the user of the valid access token in its Authorization header, whatever
  -- other headers the client sent. The proxy hands on the header of the identity as the gateway set
  -- it.
  pub accounts-of_token :
      (method : Text) (ask : Ask) (req out : Request) (b : Backend) (c : Context) (s : S)
      (p : Payload)
      → is_public method req.path ≡ false
      → route jwt secret now method req ≡ forward b out
      → get_header user_id_header c.headers ≡ get_header user_id_header out.headers
      → payload_of
          (then_handle
            (require_identity c)
            (handle (account_service (repository ids col new_id) now) ask)
            s).0
        ≡ some p
      → (token : Text) × (claims : Claims) × Bears token req
        × (parse jwt secret token type_access now ≡ ok claims)
        × IsOwn claims.user_id p
  unfolding user_id
  accounts-of_token method ask req out b c s p closed routed handed shown =
      let handler = handle (account_service (repository ids col new_id) now) ask in
      let (found, (token, claims, bearer, parsed, speaks)) =
        route-bearer jwt secret now method req out b closed routed in
      let named : get_header user_id_header c.headers ≡ claims.user_id = handed ∙ speaks.named in
      elim (Bool-cases (is_empty claims.user_id)) [
        | inl nobody ↦
            let hidden = require_identity-nobody c handler s (rw named nobody) in
            absurd (let wrong : none ≡ some p = sym hidden ∙ shown in cc)
        | inr somebody ↦
            let c' : Context = record c { user_id = some claims.user_id } in
            (
              token,
              claims,
              bearer,
              parsed,
              handle-IsOwn ids col laws new_id now c' ask s p
                  (rw (require_identity-user c claims.user_id named somebody) at shown),
            )
      ]
