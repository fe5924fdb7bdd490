-- ===== src/User/Auth/Spent.antt =====
-- auth_service.go over refresh_token_repository.go: a token that can no longer be used.
use finora.Base.{
  ◌≡◌, ◌⊎◌, refl, ap, ◌∙◌, Bool, true, false, Bool-cases, inl, inr, List, [], ◌∷◌, ◌++◌, none, some,
  Text, not_found, failed, ok, err, find_first, update_first, outcome, success, failure, then-keeps,
  pure, replace_not_found, invalid_credentials, ◌>>◌, ltb, invalid_token, validation,
  duplicate_email, Result, arith,
}
use mathlib.Core.Path.{subst}
use finora.Golang.Text.{text_eq}
use finora.Mongo.{Partly}
use finora.Jwt.{
  JwtLibrary, Claims, parse, type_refresh, generate_access_token, generate_refresh_token,
}
use finora.User.Domain.{
  User, RefreshToken, UserRepository, SettingsRepository, RefreshTokenRepository,
}
use finora.User.Auth.{
  Crypto, TokenConfig, Fresh, normalize_email, invalid_unless_ok, new_token, issue_token_pair,
  login, rotate, contain, refresh, end_session, logout,
}
use finora.User.Store.{revoked_token, has_jti_hash}

-- The record that is found under the hash, if there is one, is revoked.
abbrev pub Spent : Text → List RefreshToken → Type 0
Spent hash ts =
    (rt : RefreshToken) → find_first (has_jti_hash hash) ts ≡ some rt → rt.revoked ≡ true

some_inj : {A : Type 0} (a b : A) → some a ≡ some b → a ≡ b
some_inj a b h = cc

revoked-kept :
    (p : RefreshToken → Bool) (t u : RefreshToken)
    → (u ≡ t) ⊎ ((p t ≡ true) × (u ≡ revoked_token t))
    → (u.jti_hash ≡ t.jti_hash) × (t.revoked ≡ true → u.revoked ≡ true)
revoked-kept p t u (inl same) =
    (ap (λ (x : RefreshToken). x.jti_hash) same, λ h. ap (λ (x : RefreshToken). x.revoked) same ∙ h)
revoked-kept p t u (inr (passed, same)) =
    (ap (λ (x : RefreshToken). x.jti_hash) same, λ h. ap (λ (x : RefreshToken). x.revoked) same)

-- Revocations, of whichever tokens, keep it.
pub Partly-Spent :
    (p : RefreshToken → Bool) (hash : Text) (ts us : List RefreshToken)
    → Partly p revoked_token ts us
    → Spent hash ts
    → Spent hash us
Partly-Spent p hash [] [] same h rt found = cc
Partly-Spent p hash [] (u ∷ us) same h rt found = absurd cc
Partly-Spent p hash (t ∷ ts) [] same h rt found = cc
Partly-Spent p hash (t ∷ ts) (u ∷ us) (one, rest) h rt found =
    let (hash_kept, revoked_kept) = revoked-kept p t u one in
    let same : text_eq u.jti_hash hash ≡ text_eq t.jti_hash hash =
      ap (λ x. text_eq x hash) hash_kept in
    elim (Bool-cases (text_eq t.jti_hash hash)) [
      | inl mine ↦
          let this : u ≡ rt = some_inj u rt (rw (same, mine) at found) in
          subst (λ (x : RefreshToken). x.revoked ≡ true) this (revoked_kept (h t (rw mine refl)))
      | inr other ↦
          Partly-Spent p hash ts us rest (λ x seen. h x (rw other seen)) rt
            (rw (same, other) at found)
    ]

Partly-refl : {D : Type 0} (p : D → Bool) (f : D → D) (ds : List D) → Partly p f ds ds
Partly-refl p f [] = tt
Partly-refl p f (d ∷ ds) = (inl refl, Partly-refl p f ds)

pub update_first-Partly :
    {D : Type 0} (p : D → Bool) (f : D → D) (ds : List D) → Partly p f ds (update_first p f ds)
update_first-Partly p f [] = tt
update_first-Partly p f (d ∷ ds) = elim (Bool-cases (p d)) [
  | inl e ↦ rw e (inr (e, refl), Partly-refl p f ds)
  | inr e ↦ rw e (inl refl, update_first-Partly p f ds)
]

-- A token under another hash can be added.
pub Spent-snoc :
    (hash : Text) (ts : List RefreshToken) (new : RefreshToken)
    → text_eq new.jti_hash hash ≡ false
    → Spent hash ts
    → Spent hash (ts ++ new ∷ [])
Spent-snoc hash [] new other h rt found =
    absurd (let wrong : none ≡ some rt = (rw other at found) in cc)
Spent-snoc hash (t ∷ ts) new other h rt found = elim (Bool-cases (text_eq t.jti_hash hash)) [
  | inl mine ↦ h rt (rw mine (rw mine at found))
  | inr away ↦ Spent-snoc hash ts new other (λ x seen. h x (rw away seen)) rt (rw away at found)
]

module _ {S : Type 0} (users : UserRepository S) (settings : SettingsRepository S)
    (tokens : RefreshTokenRepository S) (crypto : Crypto) (jwt : JwtLibrary) (config : TokenConfig)
    (P : S → Type 0) (fresh : Fresh) where
  -- A new token is inserted under the hash of the fresh identifier.
  abbrev pub Inserts : Type 0
  Inserts =
      (new : RefreshToken) (s : S)
      → new.jti_hash ≡ crypto.hash_jti fresh.jti
      → P s
      → P (tokens.create new s).1

  issue_token_pair-writes :
      (u : User) (s : S)
      → Inserts
      → P s
      → P (issue_token_pair users settings tokens crypto jwt config fresh u s).1
  unfolding issue_token_pair new_token
  issue_token_pair-writes u s inserts before =
      elim (outcome
        (generate_access_token jwt config.access_secret u.id u.email config.access_ttl fresh.now)) [
          | failure e bad ↦ rw (bad, issue_token_pair) before
          | success access made ↦
              elim (outcome (
                generate_refresh_token jwt config.refresh_secret u.id fresh.jti config.refresh_ttl
                  fresh.now)) [
                    | failure e bad ↦ rw (made, bad, issue_token_pair) before
                    | success refresh signed ↦
                        let new = new_token users settings tokens crypto jwt config fresh u in
                        rw (made, signed, issue_token_pair)
                          (then-keeps P (tokens.create new)
                            (pure
                              (record { access_token = access; refresh_token = refresh; user = u }))
                            s (inserts new s refl before) (λ s' h. h))
                  ]
        ]

  pub login-writes :
      (email password : Text) (s : S)
      → Inserts
      → P s
      → P (login users settings tokens crypto jwt config fresh email password s).1
  unfolding login
  login-writes email password s inserts before =
      elim (outcome (
        replace_not_found invalid_credentials
          (users.find_by_email (normalize_email crypto email) s))) [
            | failure e bad ↦
                let same : login users settings tokens crypto jwt config fresh email password s
                    ≡ (err e, s) =
                  (ground arith) in
                rw same before
            | success u known ↦
                elim (Bool-cases (crypto.compare_hash_and_password u.password_hash password)) [
                  | inr wrong ↦
                      let same : login users settings tokens crypto jwt config fresh email password
                            s
                          ≡ (err invalid_credentials, s) =
                        (ground arith) in
                      rw same before
                  | inl right ↦
                      let same : login users settings tokens crypto jwt config fresh email password
                            s
                          ≡ issue_token_pair users settings tokens crypto jwt config fresh u s =
                        (ground arith) in
                      rw same (issue_token_pair-writes u s inserts before)
                ]
          ]

  rotate-writes :
      (claims : Claims) (rt : RefreshToken) (s : S)
      → Inserts
      → ((id : Text) (s : S) → P s → P (tokens.revoke id s).1)
      → P s
      → P (rotate users settings tokens crypto jwt config fresh claims rt s).1
  unfolding rotate
  rotate-writes claims rt s inserts revokes before =
      elim (Bool-cases (ltb rt.expires_at fresh.now)) [
        | inl late ↦ rw (late, rotate) before
        | inr live ↦
            elim (outcome (replace_not_found invalid_token (users.find_by_id claims.user_id s))) [
              | failure e bad ↦
                  let same : rotate users settings tokens crypto jwt config fresh claims rt s
                      ≡ (err e, s) =
                    (ground arith) in
                  rw same before
              | success u known ↦
                  let same : rotate users settings tokens crypto jwt config fresh claims rt s
                      ≡ (tokens.revoke rt.id
                            >> issue_token_pair users settings tokens crypto jwt config fresh u)
                          s =
                    (ground arith) in
                  rw same (
                    then-keeps P (tokens.revoke rt.id)
                      (issue_token_pair users settings tokens crypto jwt config fresh u) s
                      (revokes rt.id s before) (λ s' h. issue_token_pair-writes u s' inserts h))
            ]
      ]

  pub refresh-writes :
      (token : Text) (s : S)
      → Inserts
      → ((id : Text) (s : S) → P s → P (tokens.revoke id s).1)
      → ((u : Text) (s : S) → P s → P (tokens.revoke_all_for_user u s).1)
      → P s
      → P (refresh users settings tokens crypto jwt config fresh token s).1
  unfolding refresh contain
  refresh-writes token s inserts revokes revokes_all before =
      elim (outcome
        (invalid_unless_ok (parse jwt config.refresh_secret token type_refresh fresh.now))) [
          | failure e bad ↦
              let same : refresh users settings tokens crypto jwt config fresh token s
                  ≡ (err e, s) =
                (ground arith) in
              rw same before
          | success claims parsed ↦
              elim (outcome (
                replace_not_found invalid_token
                  (tokens.find_by_jti_hash (crypto.hash_jti claims.jti) s))) [
                    | failure e bad ↦
                        let same : refresh users settings tokens crypto jwt config fresh token s
                            ≡ (err e, s) =
                          (ground arith) in
                        rw same before
                    | success rt read ↦ elim (Bool-cases rt.revoked) [
                      | inl told ↦
                          let same : refresh users settings tokens crypto jwt config fresh token s
                              ≡ contain users settings tokens crypto jwt config rt s =
                            (ground arith) in
                          rw (same, contain)
                            (then-keeps P (tokens.revoke_all_for_user rt.user_id)
                              (λ s'. (err invalid_token, s')) s (revokes_all rt.user_id s before)
                              (λ s' h. h))
                      | inr live ↦
                          let same : refresh users settings tokens crypto jwt config fresh token s
                              ≡ rotate users settings tokens crypto jwt config fresh claims rt s =
                            (ground arith) in
                          rw same (rotate-writes claims rt s inserts revokes before)
                    ]
                  ]
        ]

  end_session-writes :
      (r : Result RefreshToken) (s : S)
      → ((id : Text) (s : S) → P s → P (tokens.revoke id s).1)
      → P s
      → P (end_session users settings tokens crypto jwt config r s).1
  unfolding end_session
  end_session-writes (ok rt) s revokes before = elim (Bool-cases rt.revoked) [
    | inl told ↦ rw (told, end_session) before
    | inr live ↦ rw (live, end_session) (revokes rt.id s before)
  ]
  end_session-writes (err not_found) s revokes before = before
  end_session-writes (err (validation f m)) s revokes before = before
  end_session-writes (err duplicate_email) s revokes before = before
  end_session-writes (err invalid_credentials) s revokes before = before
  end_session-writes (err invalid_token) s revokes before = before
  end_session-writes (err (failed m)) s revokes before = before

  pub logout-writes :
      (token : Text) (s : S)
      → ((id : Text) (s : S) → P s → P (tokens.revoke id s).1)
      → P s
      → P (logout users settings tokens crypto jwt config fresh.now token s).1
  unfolding logout
  logout-writes token s revokes before =
      elim (outcome (parse jwt config.refresh_secret token type_refresh fresh.now)) [
        | failure e bad ↦ rw (bad, logout) before
        | success claims parsed ↦
            rw (parsed, logout)
              (end_session-writes (tokens.find_by_jti_hash (crypto.hash_jti claims.jti) s) s revokes
                before)
      ]
