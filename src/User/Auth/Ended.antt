-- ===== src/User/Auth/Ended.antt =====
-- `Logout` of auth_service.go over refresh_token_repository.go.
use finora.Base.{
  ◌≡◌, ◌⊎◌, refl, sym, ◌∙◌, ap, inl, inr, true, some, Text, ok, err, not_found, duplicate_email,
  invalid_credentials, invalid_token, failed, validation, outcome, success, failure, Bool-cases,
  find_first, find_first-passes, Error,
}
use finora.Golang.Time.{Time}
use finora.Mongo.{Collection, IsCollection}
use finora.Mongo.Laws.{found-ok, Applied-ok, matched-ok}
use finora.Jwt.{JwtLibrary, Claims, parse, type_refresh}
use finora.User.Domain.{RefreshToken, UserRepository, SettingsRepository, RefreshTokenRepository}
use finora.User.Auth.{Crypto, TokenConfig, end_session, logout}
use finora.User.Store.{revoked_token, has_jti_hash, has_id, find_by_jti_hash, revoke}
use finora.User.Auth.Replay.{HasUniqueIds, find_first-update_first}

module _ {S : Type 0} (users : UserRepository S) (settings : SettingsRepository S)
    (tokens : RefreshTokenRepository S) (crypto : Crypto) (jwt : JwtLibrary)
    (config : TokenConfig) where
  end_session-err :
      (e : Error) (s : S)
      → (end_session users settings tokens crypto jwt config (err e) s).0 ≡ ok tt
      → (e ≡ not_found) × ((end_session users settings tokens crypto jwt config (err e) s).1 ≡ s)
  unfolding end_session
  end_session-err not_found s h = (refl, refl)
  end_session-err (validation f m) s h = absurd cc
  end_session-err duplicate_email s h = absurd cc
  end_session-err invalid_credentials s h = absurd cc
  end_session-err invalid_token s h = absurd cc
  end_session-err (failed m) s h = absurd cc

  -- What a logout that succeeds did about the record of a valid token.
  pub logout-cases :
      (now : Time) (token : Text) (claims : Claims) (s : S)
      → parse jwt config.refresh_secret token type_refresh now ≡ ok claims
      → (logout users settings tokens crypto jwt config now token s).0 ≡ ok tt
      → let s' = (logout users settings tokens crypto jwt config now token s).1 in
        let stored = tokens.find_by_jti_hash (crypto.hash_jti claims.jti) s in
        ((stored ≡ err not_found) × (s' ≡ s))
        ⊎ ((rt : RefreshToken) × (stored ≡ ok rt) × (rt.revoked ≡ true) × (s' ≡ s))
        ⊎ ((rt : RefreshToken) × (stored ≡ ok rt)
            × ((tokens.revoke rt.id s).0 ≡ ok tt)
            × (s' ≡ (tokens.revoke rt.id s).1))
  unfolding logout end_session
  logout-cases now token claims s parsed done =
      elim (outcome (tokens.find_by_jti_hash (crypto.hash_jti claims.jti) s)) [
        | success rt read ↦ elim (Bool-cases rt.revoked) [
          | inl told ↦ inr (inl (rt, read, told, rw (parsed, read, told, logout) refl))
          | inr live ↦ inr (
              inr (
                rt,
                read,
                rw (parsed, read, live, logout) at done,
                rw (parsed, read, live, logout) refl,
              ))
        ]
        | failure e missing ↦
            let (unknown, same) = end_session-err e s (rw (parsed, missing, logout) at done) in
            inl (missing ∙ ap err unknown, rw (parsed, missing, logout) same)
      ]

module _ {S : Type 0} (col : Collection S RefreshToken) (laws : IsCollection col) where
  -- A revocation that succeeds leaves the token revoked.
  pub revoke-revoked :
      (hash : Text) (rt : RefreshToken) (s : S)
      → HasUniqueIds (col.docs s)
      → find_by_jti_hash col hash s ≡ ok rt
      → (revoke col rt.id s).0 ≡ ok tt
      → find_first (has_jti_hash hash) (col.docs (revoke col rt.id s).1) ≡ some (revoked_token rt)
  unfolding find_by_jti_hash revoke
  revoke-revoked hash rt s unique read revoked =
      let (d, answer, same) = found-ok (λ t. t) (col.find_one (has_jti_hash hash) s) rt read in
      let first : find_first (has_jti_hash hash) (col.docs s) ≡ some rt =
        sym (laws.find_one-docs _ s (some d) answer) ∙ ap some same in
      let (n, changed) = matched-ok (col.update_one (has_id rt.id) revoked_token s).0 revoked in
      let updated =
        Applied-ok _ n _ _ _ (laws.update_one-docs (has_id rt.id) revoked_token s) changed in
      ap (find_first (has_jti_hash hash)) updated
      ∙ find_first-update_first (has_jti_hash hash) (has_id rt.id) revoked_token (col.docs s) rt
          first (unique hash rt first) (find_first-passes (has_jti_hash hash) (col.docs s) rt first)
