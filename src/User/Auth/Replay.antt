-- ===== src/User/Auth/Replay.antt =====
-- `Refresh` of auth_service.go over refresh_token_repository.go: tokens that are presented twice.
use finora.Base.{
  Error, ◌⊎◌, inl, inr, outcome, success, failure, ◌≡◌, ◌≢◌, refl, sym, ◌∙◌, ap, Bool, true, some,
  List, [], ◌∷◌, ◌++◌, Text, invalid_token, ok, err, map_ok, arith, select, find_first,
  update_first, update_all, find_first-passes,
}
use finora.Mongo.{Collection, IsCollection}
use finora.Mongo.Laws.{found-ok, Applied-ok, matched-ok}
use finora.Jwt.{JwtLibrary, Claims, parse, type_refresh}
use finora.User.Domain.{RefreshToken, LoginResult, UserRepository, SettingsRepository}
use finora.User.Auth.{Crypto, TokenConfig, Fresh, contain, refresh}
use finora.User.Store.{
  encoded, revoked_token, has_jti_hash, has_id, is_live, find_by_jti_hash, revoke,
  revoke_all_for_user, create, repository,
}
use finora.User.Auth.Rotation.{
  IsSigned, refresh-contain, contain-revoked, refresh-rotate, rotate-state, parse-same,
}

-- No token is live once all live ones are revoked.
select-revoked :
    (u : Text) (ts : List RefreshToken)
    → select (is_live u) (update_all (is_live u) revoked_token ts) ≡ []
select-revoked u [] = refl
select-revoked u (t ∷ ts) = ground (arith, select-revoked u ts)

-- A change of the member that both tests find first is what the first test finds after it.
pub find_first-update_first :
    {A : Type 0} (p q : A → Bool) (f : A → A) (xs : List A) (x : A)
    → find_first p xs ≡ some x
    → find_first q xs ≡ some x
    → p (f x) ≡ true
    → find_first p (update_first q f xs) ≡ some (f x)
find_first-update_first p q f [] x h k keeps = cc
find_first-update_first p q f (y ∷ ys) x h k keeps = ground (
  arith,
  find_first-update_first p q f ys x,
  find_first-passes p (y ∷ ys) x h,
  find_first-passes q (y ∷ ys) x k,
)

find_first-append :
    {A : Type 0} (p : A → Bool) (xs ys : List A) (x : A)
    → find_first p xs ≡ some x
    → find_first p (xs ++ ys) ≡ some x
find_first-append p [] ys x h = cc
find_first-append p (y ∷ xs) ys x h = ground (arith, find_first-append p xs ys x)

-- A token is found by its id where it is found by its hash: ids are unique.
abbrev pub HasUniqueIds : List RefreshToken → Type 0
HasUniqueIds ts =
    (hash : Text) (rt : RefreshToken)
    → find_first (has_jti_hash hash) ts ≡ some rt
    → find_first (has_id rt.id) ts ≡ some rt

module _ {S : Type 0} (col : Collection S RefreshToken) (laws : IsCollection col) where
  -- A revocation and an insertion that succeed leave the token revoked.
  stored-revoked :
      (hash : Text) (rt new : RefreshToken) (s : S)
      → HasUniqueIds (col.docs s)
      → find_by_jti_hash col hash s ≡ ok rt
      → (revoke col rt.id s).0 ≡ ok tt
      → (create col new (revoke col rt.id s).1).0 ≡ ok tt
      → find_first (has_jti_hash hash) (col.docs (create col new (revoke col rt.id s).1).1)
        ≡ some (revoked_token rt)
  unfolding find_by_jti_hash revoke create
  stored-revoked hash rt new s unique read revoked made =
      let (d, answer, same) = found-ok (λ t. t) (col.find_one (has_jti_hash hash) s) rt read in
      let first : find_first (has_jti_hash hash) (col.docs s) ≡ some rt =
        sym (laws.find_one-docs _ s (some d) answer) ∙ ap some same in
      let (n, changed) = matched-ok (col.update_one (has_id rt.id) revoked_token s).0 revoked in
      let updated =
        Applied-ok _ n _ _ _ (laws.update_one-docs (has_id rt.id) revoked_token s) changed in
      let inserted =
        Applied-ok _ tt _ _ _
          (laws.insert_one-docs (encoded new) (col.update_one (has_id rt.id) revoked_token s).1)
          made in
      ap (find_first (has_jti_hash hash)) (inserted ∙ ap (λ ts. ts ++ encoded new ∷ []) updated)
      ∙ find_first-append (has_jti_hash hash) _ (encoded new ∷ []) (revoked_token rt) (
          find_first-update_first (has_jti_hash hash) (has_id rt.id) revoked_token (col.docs s) rt
            first (unique hash rt first)
            (find_first-passes (has_jti_hash hash) (col.docs s) rt first))

  pub found-revoked :
      (hash : Text) (rt old : RefreshToken) (s : S)
      → find_first (has_jti_hash hash) (col.docs s) ≡ some (revoked_token old)
      → find_by_jti_hash col hash s ≡ ok rt
      → rt.revoked ≡ true
  unfolding find_by_jti_hash
  found-revoked hash rt old s stored read =
      let (d, answer, same) = found-ok (λ t. t) (col.find_one (has_jti_hash hash) s) rt read in
      let e : some (revoked_token old) ≡ some rt =
        sym stored ∙ sym (laws.find_one-docs _ s (some d) answer) ∙ ap some same in
      let kept : revoked_token old ≡ rt = cc in rw (← kept) refl

  module _ (users : UserRepository S) (settings : SettingsRepository S) (crypto : Crypto)
      (jwt : JwtLibrary) (config : TokenConfig) where
    -- A refresh token works once: after a refresh that succeeds, no refresh with the same token
    -- succeeds, at whatever time and with whatever fresh identifiers. The ids of the stored tokens
    -- are unique, and a token says the same at any time.
    pub refresh-once :
        (fresh later : Fresh) (token : Text) (s : S) (r again : LoginResult)
        → HasUniqueIds (col.docs s)
        → IsSigned jwt
        → (refresh users settings (repository col) crypto jwt config fresh token s).0 ≡ ok r
        → (refresh users settings
            (repository col)
            crypto
            jwt
            config
            later
            token
            (refresh users settings (repository col) crypto jwt config fresh token s).1).0
          ≢ ok again
    unfolding repository
    refresh-once fresh later token s r again unique signed first second =
        let (claims, rt, parsed, read, live, rotated) =
          refresh-rotate users settings (repository col) crypto jwt config fresh token s r first in
        let (new, revoked, made, after) =
          rotate-state users settings (repository col) crypto jwt config fresh token s claims rt r
            (rw rotated at first) in
        let (claims', rt', parsed', read', live', rotated') =
          refresh-rotate users settings (repository col) crypto jwt config later token _ again
            second in
        let same =
          parse-same jwt signed config.refresh_secret token type_refresh _ _ claims claims' parsed
            parsed' in
        let s1 = (refresh users settings (repository col) crypto jwt config fresh token s).1 in
        let s2 = (create col new (revoke col rt.id s).1).1 in
        let hash : Claims → Text = λ c. crypto.hash_jti c.jti in
        let moved : s1 ≡ s2 = ap (λ p. p.1) rotated ∙ after in
        let stored = stored-revoked (hash claims) rt new s unique read revoked made in
        let told =
          found-revoked (hash claims') rt' rt s1
            (ap (λ h. find_first (has_jti_hash h) (col.docs s1)) (sym (ap hash same))
              ∙ ap (λ s'. find_first (has_jti_hash (hash claims)) (col.docs s')) moved
              ∙ stored)
            read' in
        cc

    -- A revoked token that is presented again is refused, and its user has no live token left, or the
    -- revocation of the others fails and the refresh fails with the same error.
    pub refresh-contains_replay :
        (fresh : Fresh) (token : Text) (claims : Claims) (rt : RefreshToken) (s : S)
        → parse jwt config.refresh_secret token type_refresh fresh.now ≡ ok claims
        → find_by_jti_hash col (crypto.hash_jti claims.jti) s ≡ ok rt
        → rt.revoked ≡ true
        → let again = refresh users settings (repository col) crypto jwt config fresh token s in
          ((again.0 ≡ err invalid_token) × (select (is_live rt.user_id) (col.docs again.1) ≡ []))
          ⊎ ((e : Error) × ((col.update_many (is_live rt.user_id) revoked_token s).0 ≡ err e)
              × (again.0 ≡ err e))
    unfolding repository revoke_all_for_user contain
    refresh-contains_replay fresh token claims rt s parsed read told =
        let contained =
          refresh-contain users settings (repository col) crypto jwt config fresh token s claims rt
            parsed read told in
        elim (outcome (col.update_many (is_live rt.user_id) revoked_token s).0) [
          | failure e bad ↦ inr (e, bad, ap (λ p. p.0) contained ∙ ground arith)
          | success n revoked ↦ inl (
              rw
                (
                  contained,
                  contain-revoked users settings (repository col) crypto jwt config fresh token s rt
                      (ap (map_ok (λ _. tt)) revoked),
                )
                (
                  refl,
                  ap (select (is_live rt.user_id)) (laws.update_many-docs _ _ s n revoked)
                      ∙ select-revoked rt.user_id (col.docs s),
                ))
        ]
