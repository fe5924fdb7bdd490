-- ===== src/User/Http/Auth/Final.antt =====
-- auth_handler.go over auth_service.go and refresh_token_repository.go: requests in any order after a
-- logout.
use finora.Base.{
  ◌≡◌, ◌≢◌, Bool, sym, ap, ◌∙◌, true, false, some, none, inl, inr, List, [], ◌∷◌, All, Text, Error,
  IsFailed, not_found, failed, Result, ok, err, Option-cases, find_first,
}
use mathlib.Core.Path.{subst}
use finora.Golang.Text.{text_eq}
use finora.Mongo.{Collection, IsCollection}
use finora.Mongo.Laws.{Applied-either, found-ok, found-cases}
use finora.Jwt.{JwtLibrary, Claims, parse, type_refresh}
use finora.Http.{Context, Response, Bound, bound, unbound, status_of, payload_of}
use finora.User.Domain.{
  User, Settings, RefreshToken, LoginResult, UserRepository, SettingsRepository,
}
use finora.User.Auth
use finora.User.Auth.{Crypto, TokenConfig, Fresh}
use finora.User.Auth.Rotation.{IsSigned, refresh-rotate, parse-same}
use finora.User.Auth.Replay.{HasUniqueIds}
use finora.User.Auth.Ended.{logout-cases, revoke-revoked}
use finora.User.Auth.Spent.{
  Spent, Partly-Spent, update_first-Partly, Spent-snoc, login-writes, refresh-writes, logout-writes,
}
use finora.User.Store.{
  encoded, revoked_token, has_jti_hash, has_id, is_live, create, find_by_jti_hash, revoke,
  revoke_all_for_user, repository,
}
use finora.User.Unique.{register-writes}
use finora.User.Http.Services.{AuthService, auth_service}
use finora.User.Http.Auth.{
  RegisterRequest, LoginRequest, TokenRequest, PasswordResetRequest, Payload, refreshed, register,
  login, logout, refresh, request_password_reset,
}
use finora.User.Http.Auth.Opaque.{refreshed-payload, logged_out-status}

-- What a client may ask of the handlers of sessions, with what gin binds of the body.
pub data Ask : Type 0 where
  registering : Bound RegisterRequest → Ask
  logging_in : Bound LoginRequest → Ask
  refreshing : Bound TokenRequest → Ask
  logging_out : Bound TokenRequest → Ask
  resetting : Bound PasswordResetRequest → Ask

-- A request, with the moment and the identifiers that it is served under.
pub record Turn : Type 0 where
  pub fresh : Fresh
  pub context : Context
  pub ask : Ask

abbrev pub handle : {S : Type 0} → AuthService S → Ask → Context → S → Response Payload × S
handle svc (registering body) c s = register svc c body s
handle svc (logging_in body) c s = login svc c body s
handle svc (refreshing body) c s = refresh svc c body s
handle svc (logging_out body) c s = logout svc c body s
handle svc (resetting body) c s = request_password_reset svc c body s

same_err : {A : Type 0} (r : Result A) (e f : Error) → r ≡ err e → r ≡ err f → e ≡ f
same_err r e f h k = cc

module _ {S : Type 0} (col : Collection S RefreshToken) (users : UserRepository S)
    (settings : SettingsRepository S) (crypto : Crypto) (jwt : JwtLibrary)
    (config : TokenConfig) where
  abbrev pub service : Fresh → AuthService S
  service fresh = auth_service users settings (repository col) crypto jwt config fresh

  -- The state after the requests.
  abbrev pub serve : List Turn → S → S
  serve [] s = s
  serve (t ∷ turns) s = serve turns (handle (service t.fresh) t.ask t.context s).1

  -- The requests are served under identifiers of other hashes.
  abbrev pub AreOther : Text → List Turn → Type 0
  AreOther hash turns = All (λ (t : Turn). text_eq (crypto.hash_jti t.fresh.jti) hash ≡ false) turns

  module _ (laws : IsCollection col)
      (foreign : (p : RefreshToken → Bool) (s : S) (e : Error)
        → col.find_one p s ≡ err e
        → IsFailed e)
      (users_apart : (u : User) (s : S) → col.docs (users.create u s).1 ≡ col.docs s)
      (settings_apart : (x : Settings) (s : S)
        → col.docs (settings.upsert x s).1 ≡ col.docs s) where
    revoke-Spent :
        (hash id : Text) (s : S)
        → Spent hash (col.docs s)
        → Spent hash (col.docs (revoke col id s).1)
    unfolding revoke
    revoke-Spent hash id s h =
        Applied-either (Spent hash) (col.update_one (has_id id) revoked_token s).0 _ _ _
          (laws.update_one-docs (has_id id) revoked_token s) h
          (Partly-Spent (has_id id) hash _ _
            (update_first-Partly (has_id id) revoked_token (col.docs s)) h)

    revoke_all-Spent :
        (hash u : Text) (s : S)
        → Spent hash (col.docs s)
        → Spent hash (col.docs (revoke_all_for_user col u s).1)
    unfolding revoke_all_for_user
    revoke_all-Spent hash u s h =
        Partly-Spent (is_live u) hash _ _ (laws.update_many-partly (is_live u) revoked_token s) h

    create-Spent :
        (hash : Text) (new : RefreshToken) (s : S)
        → text_eq new.jti_hash hash ≡ false
        → Spent hash (col.docs s)
        → Spent hash (col.docs (create col new s).1)
    unfolding create
    create-Spent hash new s other h =
        Applied-either (Spent hash) (col.insert_one (encoded new) s).0 _ _ _
          (laws.insert_one-docs (encoded new) s) h
          (Spent-snoc hash (col.docs s) (encoded new) other h)

    -- A request under another identifier keeps a spent token spent.
    handle-Spent :
        (hash : Text) (fresh : Fresh) (ask : Ask) (c : Context) (s : S)
        → text_eq (crypto.hash_jti fresh.jti) hash ≡ false
        → Spent hash (col.docs s)
        → Spent hash (col.docs (handle (service fresh) ask c s).1)
    unfolding register login refresh logout request_password_reset repository
        Auth.request_password_reset
    handle-Spent hash fresh ask c s other h = kept ask
      where
        inserts :
            (new : RefreshToken) (s' : S)
            → new.jti_hash ≡ crypto.hash_jti fresh.jti
            → Spent hash (col.docs s')
            → Spent hash (col.docs (create col new s').1)
        inserts new s' same before =
            create-Spent hash new s' (ap (λ x. text_eq x hash) same ∙ other) before

        kept : (ask : Ask) → Spent hash (col.docs (handle (service fresh) ask c s).1)
        kept (registering (unbound e)) = h
        kept (registering (bound req)) =
            register-writes users settings (repository col) crypto jwt config
              (λ s'. Spent hash (col.docs s')) fresh _ s h
              (λ u free same. subst (Spent hash) (sym (users_apart u s)) h)
              (λ x s' before. subst (Spent hash) (sym (settings_apart x s')) before)
        kept (logging_in (unbound e)) = h
        kept (logging_in (bound req)) =
            login-writes users settings (repository col) crypto jwt config
              (λ s'. Spent hash (col.docs s')) fresh req.email req.password s inserts h
        kept (refreshing (unbound e)) = h
        kept (refreshing (bound req)) =
            refresh-writes users settings (repository col) crypto jwt config
              (λ s'. Spent hash (col.docs s')) fresh req.refresh_token s inserts (revoke-Spent hash)
              (revoke_all-Spent hash) h
        kept (logging_out (unbound e)) = h
        kept (logging_out (bound req)) =
            logout-writes users settings (repository col) crypto jwt config
              (λ s'. Spent hash (col.docs s')) fresh req.refresh_token s (revoke-Spent hash) h
        kept (resetting (unbound e)) = h
        kept (resetting (bound req)) = h

    serve-Spent :
        (hash : Text) (turns : List Turn) (s : S)
        → AreOther hash turns
        → Spent hash (col.docs s)
        → Spent hash (col.docs (serve turns s))
    serve-Spent hash [] s others h = h
    serve-Spent hash (t ∷ turns) s (other, others) h =
        serve-Spent hash turns _ others (handle-Spent hash t.fresh t.ask t.context s other h)

    -- A logout that succeeds leaves the token spent.
    logout-Spent :
        (fresh : Fresh) (token : Text) (claims : Claims) (s : S)
        → HasUniqueIds (col.docs s)
        → parse jwt config.refresh_secret token type_refresh fresh.now ≡ ok claims
        → (Auth.logout users settings (repository col) crypto jwt config fresh.now token s).0
          ≡ ok tt
        → Spent (crypto.hash_jti claims.jti) (
            col.docs
              (Auth.logout users settings (repository col) crypto jwt config fresh.now token s).1)
    unfolding repository find_by_jti_hash
    logout-Spent fresh token claims s unique parsed done =
        let hash = crypto.hash_jti claims.jti in
        let P : S → Type 0 = λ s'. Spent hash (col.docs s') in
        elim (logout-cases users settings (repository col) crypto jwt config fresh.now token claims
          s parsed done) [
            | inl (unknown, kept) ↦ subst P (sym kept) (λ rt there.
                elim (found-cases (λ (t : RefreshToken). t) (col.find_one (has_jti_hash hash) s)) [
                  | inl (d, answer, read) ↦ absurd (let wrong = sym read ∙ unknown in cc)
                  | inr (inl (lacks, read)) ↦
                      absurd (
                        let wrong : none ≡ some rt = laws.find_one-docs _ s none lacks ∙ there in
                        cc)
                  | inr (inr (e, bad, read)) ↦
                      let (m, other) = foreign _ s e bad in
                      absurd (
                        let wrong : failed m ≡ not_found =
                          sym other ∙ same_err _ e not_found read unknown in
                        cc)
                ])
            | inr (inl (rt, known, told, kept)) ↦ subst P (sym kept) (λ rt' there.
                let (d, answer, same) = found-ok (λ (t : RefreshToken). t) _ rt known in
                let one : some d ≡ some rt' = laws.find_one-docs _ s (some d) answer ∙ there in
                let equal : rt ≡ rt' = cc in
                subst (λ (t : RefreshToken). t.revoked ≡ true) equal told)
            | inr (inr (rt, known, revoked, after)) ↦ subst P (sym after) (λ rt' there.
                let one : some (revoked_token rt) ≡ some rt' =
                  sym (revoke-revoked col laws hash rt s unique known revoked) ∙ there in
                let equal : revoked_token rt ≡ rt' = cc in
                ap (λ (t : RefreshToken). t.revoked) (sym equal))
          ]

    -- A refresh with a spent token does not succeed.
    Spent-refresh :
        (fresh later : Fresh) (token : Text) (claims : Claims) (s : S) (r : LoginResult)
        → IsSigned jwt
        → parse jwt config.refresh_secret token type_refresh fresh.now ≡ ok claims
        → Spent (crypto.hash_jti claims.jti) (col.docs s)
        → (Auth.refresh users settings (repository col) crypto jwt config later token s).0 ≢ ok r
    unfolding repository find_by_jti_hash
    Spent-refresh fresh later token claims s r signed parsed spent renewed =
        let (claims', rt, parsed', read, live, rotated) =
          refresh-rotate users settings (repository col) crypto jwt config later token s r
            renewed in
        let same =
          parse-same jwt signed config.refresh_secret token type_refresh _ _ claims' claims parsed'
            parsed in
        let (d, answer, this) = found-ok (λ (t : RefreshToken). t) _ rt read in
        let there = sym (laws.find_one-docs _ s (some d) answer) ∙ ap some this in
        let told = spent rt (
          subst
            (λ (c : Claims).
              find_first (has_jti_hash (crypto.hash_jti c.jti)) (col.docs s) ≡ some rt)
            same there) in
        cc

    -- Once a logout with a valid refresh token is answered with 204, no refresh with that token gets
    -- a new pair, at whatever time and whatever requests to the handlers of sessions are served in
    -- between, each at its own time. The ids of the stored tokens are unique, a token says the same
    -- at any time, the identifiers of the sessions opened in between have other hashes, writing users
    -- and settings leaves the tokens, and the errors of the driver are none of the service's own.
    pub logout-final :
        (fresh later : Fresh) (c c' : Context) (req : TokenRequest) (claims : Claims)
        (turns : List Turn) (s : S)
        → HasUniqueIds (col.docs s)
        → IsSigned jwt
        → parse jwt config.refresh_secret req.refresh_token type_refresh fresh.now ≡ ok claims
        → status_of (logout (service fresh) c (bound req) s).0 ≡ 204
        → AreOther (crypto.hash_jti claims.jti) turns
        → payload_of
            (refresh
              (service later)
              c'
              (bound req)
              (serve turns (logout (service fresh) c (bound req) s).1)).0
          ≡ none
    unfolding logout refresh
    logout-final fresh later c c' req claims turns s unique signed parsed done others =
        let ended =
          Auth.logout users settings (repository col) crypto jwt config fresh.now req.refresh_token
            s in
        let s' = serve turns ended.1 in
        let again =
          Auth.refresh users settings (repository col) crypto jwt config later req.refresh_token
            s' in
        elim (Option-cases (payload_of (refreshed c' again.0))) [
          | inl nothing ↦ nothing
          | inr (p, shown) ↦
              let (session, renewed) = refreshed-payload c' again.0 p shown in
              absurd (
                Spent-refresh fresh later req.refresh_token claims s' session signed parsed
                  (serve-Spent (crypto.hash_jti claims.jti) turns ended.1 others (
                    logout-Spent fresh req.refresh_token claims s unique parsed
                      (logged_out-status c ended.0 done)))
                  renewed)
        ]
