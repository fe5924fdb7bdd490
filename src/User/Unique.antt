-- ===== src/User/Unique.antt =====
-- auth_service.go and user_service.go over user_repository.go: the addresses of the users.
use finora.Base.{
  ◌≡◌, refl, sym, ap, ◌∙◌, Bool, false, Bool-cases, inl, inr, List, [], ◌∷◌, ◌++◌, All, none, some,
  map, Text, Error, not_found, failed, Result, ok, err, find_first, update_first, find_first-passes,
  arith, IsFailed, Option-cases, then-keeps, pure, str, ◌>>◌, outcome, success, failure,
}
use mathlib.Core.Path.{subst}
use finora.Golang.Text.{text_eq, trim_space}
use finora.Golang.Text.Laws.{eq_of_text_eq}
use finora.Golang.Time.{Time}
use finora.Mongo.{Collection, IsCollection}
use finora.Mongo.Laws.{Applied-either, found-ok, found-cases}
use finora.Jwt.{JwtLibrary}
use finora.User.Domain.{
  User, RegisterInput, UserRepository, SettingsRepository, RefreshTokenRepository, Settings,
}
use finora.User.Auth.{Crypto, TokenConfig, Fresh, normalize_email, email_taken, register}
use finora.User.Profile.{validate_name, update_profile}
use finora.User.Store.Users
use finora.User.Store.Users.{encoded, has_email, has_id}

-- No text stands twice in the list.
abbrev pub Distinct : List Text → Type 0
Distinct [] = Unit
Distinct (t ∷ ts) = All (λ x. text_eq t x ≡ false) ts × Distinct ts

All-snoc :
    {A : Type 0} (P : A → Type 0) (xs : List A) (y : A) → All P xs → P y → All P (xs ++ y ∷ [])
All-snoc P [] y h here = (here, tt)
All-snoc P (x ∷ xs) y (px, h) here = (px, All-snoc P xs y h here)

-- A text that the list lacks can be added.
Distinct-snoc :
    (ts : List Text) (t : Text)
    → Distinct ts
    → All (λ x. text_eq x t ≡ false) ts
    → Distinct (ts ++ t ∷ [])
Distinct-snoc [] t h lacks = (tt, tt)
Distinct-snoc (x ∷ ts) t (apart, h) (here, lacks) =
    (All-snoc _ ts t apart here, Distinct-snoc ts t h lacks)

abbrev pub emails : List User → List Text
emails us = map (λ u. u.email) us

emails-snoc : (us : List User) (u : User) → emails (us ++ u ∷ []) ≡ emails us ++ u.email ∷ []
emails-snoc [] u = refl
emails-snoc (x ∷ us) u = ap (λ ts. x.email ∷ ts) (emails-snoc us u)

emails-lack :
    (us : List User) (email : Text)
    → find_first (has_email email) us ≡ none
    → All (λ x. text_eq x email ≡ false) (emails us)
emails-lack [] email h = tt
emails-lack (u ∷ us) email h = elim (Bool-cases (text_eq u.email email)) [
  | inl e ↦ absurd (let wrong : some u ≡ none = (rw e at h) in cc)
  | inr e ↦ (e, emails-lack us email (rw e at h))
]

-- A replacement of the first user found by one with the same address.
emails-update_first :
    (p : User → Bool) (d x : User) (us : List User)
    → find_first p us ≡ some d
    → x.email ≡ d.email
    → emails (update_first p (λ _. x) us) ≡ emails us
emails-update_first p d x [] h same = refl
emails-update_first p d x (u ∷ us) h same = elim (Bool-cases (p u)) [
  | inl e ↦
      let first : some u ≡ some d = (rw e at h) in
      let this : u ≡ d = cc in
      rw e (ap (λ t. t ∷ emails us) (same ∙ ap (λ (y : User). y.email) (sym this)))
  | inr e ↦ rw e (ap (λ ts. u.email ∷ ts) (emails-update_first p d x us (rw e at h) same))
]

module _ {S : Type 0} (users : UserRepository S) (settings : SettingsRepository S)
    (tokens : RefreshTokenRepository S) (crypto : Crypto) (jwt : JwtLibrary)
    (config : TokenConfig) where
  email_taken-none : (r : Result User) → email_taken r ≡ none → r ≡ err not_found
  unfolding email_taken
  email_taken-none r h = ground arith

  -- A registration writes nothing, or creates a user under an address that no user has.
  pub register-writes :
      (P : S → Type 0) (fresh : Fresh) (input : RegisterInput) (s : S)
      → P s
      → ((u : User)
          → users.find_by_email (normalize_email crypto input.email) s ≡ err not_found
          → u.email ≡ normalize_email crypto input.email
          → P (users.create u s).1)
      → ((x : Settings) (s' : S) → P s' → P (settings.upsert x s').1)
      → P (register users settings tokens crypto jwt config fresh input s).1
  unfolding register email_taken
  register-writes P fresh input s before made kept =
      elim (Option-cases
        (email_taken (users.find_by_email (normalize_email crypto input.email) s))) [
          | inr (e, taken) ↦ rw (taken, register) before
          | inl free ↦ elim (outcome (crypto.generate_from_password input.password)) [
            | failure e bad ↦ rw (free, bad, register) before
            | success hash hashed ↦
                let u : User = record {
                  id = fresh.id;
                  email = normalize_email crypto input.email;
                  password_hash = hash;
                  name = input.name;
                  created_at = fresh.now;
                  updated_at = fresh.now;
                } in
                let fresh_settings : Settings = record {
                  user_id = fresh.id;
                  currency = str "USD";
                  timezone = str "UTC";
                  updated_at = fresh.now;
                } in
                rw (free, hashed, register)
                  (then-keeps P (users.create u) (settings.upsert fresh_settings >> pure u) s
                    (made u (email_taken-none _ free) refl)
                    (λ s' h.
                      then-keeps P (settings.upsert fresh_settings) (pure u) s'
                        (kept fresh_settings s' h) (λ s'' h'. h')))
          ]
        ]

module _ {S : Type 0} (users : UserRepository S) (settings : SettingsRepository S)
    (load_location : Text → Bool) (now : Time) where
  -- An update of a profile writes nothing, or a user with the id and the address of one that it read.
  update_profile-writes :
      (P : S → Type 0) (id name : Text) (s : S)
      → P s
      → ((u x : User)
          → users.find_by_id id s ≡ ok u
          → x.id ≡ u.id
          → x.email ≡ u.email
          → P (users.update x s).1)
      → P (update_profile users settings load_location now id name s).1
  unfolding update_profile
  update_profile-writes P id name s before made =
      elim (Option-cases (validate_name (trim_space name))) [
        | inr (e, bad) ↦ rw (bad, update_profile) before
        | inl fine ↦ elim (outcome (users.find_by_id id s)) [
          | failure e bad ↦ rw (fine, bad, update_profile) before
          | success u read ↦
              let changed : User = record u { name = trim_space name; updated_at = now } in
              rw (fine, read, update_profile)
                (then-keeps P (users.update changed) (pure changed) s
                  (made u changed read refl refl) (λ s' h. h))
        ]
      ]

-- No two users of the collection have one address.
abbrev pub HaveOwn : {S : Type 0} → Collection S User → S → Type 0
HaveOwn col s = Distinct (emails (col.docs s))

-- What a request to the users asks.
pub data Request : Type 0 where
  registration : Fresh → RegisterInput → Request
  profile : Time → Text → Text → Request

module _ {S : Type 0} (col : Collection S User) (is_duplicate_key : Error → Bool)
    (settings : SettingsRepository S) (tokens : RefreshTokenRepository S) (crypto : Crypto)
    (jwt : JwtLibrary) (config : TokenConfig) (load_location : Text → Bool) where
  -- The state after the requests.
  abbrev pub serve : List Request → S → S
  serve [] s = s
  serve (registration fresh input ∷ requests) s =
      serve requests
        (register (Users.repository col is_duplicate_key) settings tokens crypto jwt config fresh
          input s).1
  serve (profile now id name ∷ requests) s =
      serve requests
        (update_profile (Users.repository col is_duplicate_key) settings load_location now id name
          s).1

  module _ (laws : IsCollection col)
      (foreign : (p : User → Bool) (s : S) (e : Error) → col.find_one p s ≡ err e → IsFailed e)
      (apart : (x : Settings) (s : S) → col.docs (settings.upsert x s).1 ≡ col.docs s) where
    find_by_email-none :
        (email : Text) (s : S)
        → Users.find_by_email col is_duplicate_key email s ≡ err not_found
        → find_first (has_email email) (col.docs s) ≡ none
    unfolding Users.find_by_email
    find_by_email-none email s h =
        elim (found-cases (λ (u : User). u) (col.find_one (has_email email) s)) [
          | inl (u, read, given) ↦ absurd (ground arith)
          | inr (inl (read, given)) ↦ sym (laws.find_one-docs (has_email email) s none read)
          | inr (inr (e, bad, given)) ↦ absurd (
              let its_own = foreign (has_email email) s e bad in
              let same : e ≡ not_found = (ground arith) in
              let (m, wrong) = its_own in let clash : not_found ≡ failed m = sym same ∙ wrong in cc)
        ]

    register-HaveOwn :
        (fresh : Fresh) (input : RegisterInput) (s : S)
        → HaveOwn col s
        → HaveOwn col
            (register
              (Users.repository col is_duplicate_key)
              settings
              tokens
              crypto
              jwt
              config
              fresh
              input
              s).1
    unfolding Users.repository Users.create Users.find_by_email
    register-HaveOwn fresh input s own =
        register-writes (Users.repository col is_duplicate_key) settings tokens crypto jwt config
          (HaveOwn col) fresh input s own
          (λ u free same.
            let lacks =
              emails-lack (col.docs s) (normalize_email crypto input.email)
                (find_by_email-none (normalize_email crypto input.email) s free) in
            Applied-either (λ docs. Distinct (emails docs)) (col.insert_one (encoded u) s).0
              (col.docs s) _ _ (laws.insert_one-docs (encoded u) s) own
              (rw (emails-snoc (col.docs s) (encoded u), same) (Distinct-snoc _ _ own lacks)))
          (λ x s' h. subst (λ docs. Distinct (emails docs)) (sym (apart x s')) h)

    update_profile-HaveOwn :
        (now : Time) (id name : Text) (s : S)
        → HaveOwn col s
        → HaveOwn col
            (update_profile
              (Users.repository col is_duplicate_key)
              settings
              load_location
              now
              id
              name
              s).1
    unfolding Users.repository Users.update Users.find_by_id
    update_profile-HaveOwn now id name s own =
        update_profile-writes (Users.repository col is_duplicate_key) settings load_location now
          (HaveOwn col) id name s own
          (λ u x read at same.
            let (d, found_one, here) =
              found-ok (λ (y : User). y) (col.find_one (has_id id) s) u read in
            let first : find_first (has_id id) (col.docs s) ≡ some d =
              sym (laws.find_one-docs (has_id id) s (some d) found_one) in
            let passes : d.id ≡ id =
              eq_of_text_eq d.id id (find_first-passes (has_id id) (col.docs s) d first) in
            let this : x.id ≡ id = at ∙ ap (λ (y : User). y.id) (sym here) ∙ passes in
            Applied-either (λ docs. Distinct (emails docs))
              (col.replace_one (has_id x.id) (encoded x) s).0 (col.docs s) _ _
              (laws.replace_one-docs (has_id x.id) (encoded x) s) own
              (subst Distinct
                (sym (
                  emails-update_first (has_id x.id) d (encoded x) (col.docs s)
                    (subst (λ i. find_first (has_id i) (col.docs s) ≡ some d) (sym this) first)
                    (same ∙ ap (λ (y : User). y.email) (sym here))))
                own))

    -- However registrations and updates of profiles follow one another, and whatever fails on the
    -- way, no two users get one address, where the settings are kept apart from the users and the
    -- errors of the driver are its own.
    pub serve-HaveOwn :
        (requests : List Request) (s : S) → HaveOwn col s → HaveOwn col (serve requests s)
    serve-HaveOwn [] s own = own
    serve-HaveOwn (registration fresh input ∷ requests) s own =
        serve-HaveOwn requests _ (register-HaveOwn fresh input s own)
    serve-HaveOwn (profile now id name ∷ requests) s own =
        serve-HaveOwn requests _ (update_profile-HaveOwn now id name s own)
