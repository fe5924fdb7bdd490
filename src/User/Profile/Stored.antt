-- ===== src/User/Profile/Stored.antt =====
-- `UpdateSettings` and `GetSettings` of user_service.go over settings_repository.go.
use finora.Base.{
  ◌≡◌, ◌≢◌, ◌⊎◌, refl, sym, ap, ◌∙◌, Bool, true, false, Bool-cases, inl, inr, List, [], ◌∷◌,
  Option-cases, none, some, Text, Error, ok, err, outcome, success, failure, then_pure, map_ok,
  map_ok-ok, find_first, update_first, select, arith, find_first-snoc, select-append_hidden,
  select-update_first, ◌>>◌, pure,
}
use mathlib.Core.Path.{subst}
use finora.Golang.Text.{trim_space}
use finora.Golang.Text.Laws.{text_eq_refl, text_eq-disjoint}
use finora.Golang.Time.{Time}
use finora.Mongo.{bson_date, Collection, IsCollection, upsert_first}
use finora.Mongo.Laws.{Applied-ok, found-cases}
use finora.User.Domain.{Settings, UpdateSettingsInput, UserRepository, SettingsRepository}
use finora.User.Profile.{
  validate_currency, validate_timezone, get_settings, or_defaults, unless_empty, update_settings,
}
use finora.User.Store.Settings
use finora.User.Store.Settings.{of_user, encoded}

module _ {D : Type 0} (p : D → Bool) (x : D) where
  find_first-update_first :
      (docs : List D) (d : D)
      → p x ≡ true
      → find_first p docs ≡ some d
      → find_first p (update_first p (λ _. x) docs) ≡ some x
  find_first-update_first [] d h here = cc
  find_first-update_first (y ∷ docs) d h here = elim (Bool-cases (p y)) [
    | inl e ↦ rw (e, h) refl
    | inr e ↦ rw (e, e) (find_first-update_first docs d h (rw e at here))
  ]

  -- A document that an upsert wrote is the first one found.
  find_first-upsert_first :
      (docs : List D) → p x ≡ true → find_first p (upsert_first p x docs) ≡ some x
  find_first-upsert_first docs h = elim (Option-cases (find_first p docs)) [
    | inl lacks ↦ rw (lacks, upsert_first) (find_first-snoc p x docs h lacks)
    | inr (d, here) ↦ rw (here, upsert_first) (find_first-update_first docs d h here)
  ]

  -- An upsert is hidden from a test that the document and those it replaces do not pass.
  select-upsert_first :
      (q : D → Bool) (docs : List D)
      → q x ≡ false
      → ((d : D) → p d ≡ true → q d ≡ false)
      → select q (upsert_first p x docs) ≡ select q docs
  select-upsert_first q docs h hidden = elim (Option-cases (find_first p docs)) [
    | inl lacks ↦ rw (lacks, upsert_first) (select-append_hidden q docs x h)
    | inr (d, here) ↦
        rw (here, upsert_first) (select-update_first q p (λ _. x) docs hidden (λ d e. h))
  ]

module _ {S : Type 0} (users : UserRepository S) (settings : SettingsRepository S)
    (load_location : Text → Bool) (now : Time) where
  -- An update is refused as it is, or upserts settings of the user and gives them back.
  update_settings-calls :
      (id : Text) (input : UpdateSettingsInput) (s : S)
      → ((e : Error) × (update_settings users settings load_location now id input s ≡ (err e, s)))
        ⊎ ((x : Settings) × (x.user_id ≡ id)
            × (update_settings users settings load_location now id input s
                ≡ (map_ok (λ _. x) (settings.upsert x s).0, (settings.upsert x s).1)))
  unfolding update_settings
  update_settings-calls id input s =
      elim (Option-cases (validate_currency (trim_space input.currency))) [
        | inr (e, bad) ↦ inl (e, rw (bad, update_settings) refl)
        | inl fine ↦
            elim (Option-cases
              (validate_timezone users settings load_location now (trim_space input.timezone))) [
                | inr (e, bad) ↦ inl (e, rw (fine, bad, update_settings) refl)
                | inl good ↦ elim (outcome (get_settings users settings load_location now id s)) [
                  | failure e bad ↦ inl (e, ground arith)
                  | success old read ↦
                      let x : Settings = record {
                        user_id = id;
                        currency = unless_empty (trim_space input.currency) old.currency;
                        timezone = unless_empty (trim_space input.timezone) old.timezone;
                        updated_at = now;
                      } in
                      let refused_not : update_settings users settings load_location now id input s
                          ≡ (settings.upsert x >> pure x) s =
                        (ground arith) in
                      inr (x, refl, refused_not ∙ then_pure (settings.upsert x) x s)
                ]
              ]
      ]

module _ {S : Type 0} (users : UserRepository S) (col : Collection S Settings)
    (laws : IsCollection col) (load_location : Text → Bool) (now : Time) where
  -- After an update of the settings that succeeds, a read gives back what it answered, with the whole
  -- milliseconds of its time, or the driver fails to read; the settings of every other user are as
  -- they were.
  pub update_settings-read :
      (id : Text) (input : UpdateSettingsInput) (s : S) (x : Settings) (later : Time)
      → (update_settings users (Settings.repository col) load_location now id input s).0 ≡ ok x
      → let s' = (update_settings users (Settings.repository col) load_location now id input s).1 in
        (((e : Error) × (col.find_one (of_user id) s' ≡ err e))
          ⊎ (get_settings users (Settings.repository col) load_location later id s'
              ≡ ok (record x { updated_at = bson_date x.updated_at })))
        × ((v : Text) → v ≢ id → select (of_user v) (col.docs s') ≡ select (of_user v) (col.docs s))
  unfolding get_settings or_defaults Settings.repository Settings.upsert Settings.find_by_user_id
  update_settings-read id input s x later h =
      elim (update_settings-calls users (Settings.repository col) load_location now id input s) [
        | inl (e, refused) ↦ absurd (let wrong : err e ≡ ok x = (rw refused at h) in cc)
        | inr (y, own, stored) ↦
            let (done, wrote, same) =
              map_ok-ok (λ _. y) (col.replace_upsert (of_user y.user_id) (encoded y) s).0 x
                (rw stored at h) in
            let now_there =
              Applied-ok (col.replace_upsert (of_user y.user_id) (encoded y) s).0 done _ _ _
                (laws.replace_upsert-docs (of_user y.user_id) (encoded y) s) wrote in
            let after = (col.replace_upsert (of_user y.user_id) (encoded y) s).1 in
            let there : find_first (of_user id) (col.docs after) ≡ some (encoded y) =
              ap (find_first (of_user id)) now_there
              ∙ subst
                  (λ i.
                    find_first (of_user id) (upsert_first (of_user i) (encoded y) (col.docs s))
                    ≡ some (encoded y))
                  (sym own)
                  (find_first-upsert_first (of_user id) (encoded y) (col.docs s)
                    (rw own (text_eq_refl id))) in
            rw stored (
              elim (found-cases (λ (z : Settings). z) (col.find_one (of_user id) after)) [
                | inl (d, read, given) ↦
                    let first : some d ≡ some (encoded y) =
                      laws.find_one-docs (of_user id) after (some d) read ∙ there in
                    inr (ground arith)
                | inr (inl (read, given)) ↦ absurd (
                    let wrong : none ≡ some (encoded y) =
                      laws.find_one-docs (of_user id) after none read ∙ there in
                    cc)
                | inr (inr (e, bad, given)) ↦ inl (e, bad)
              ],
              λ v other.
                  ap (select (of_user v)) now_there
                  ∙ select-upsert_first (of_user y.user_id) (encoded y) (of_user v) (col.docs s)
                      (text_eq-disjoint y.user_id id v (λ e. other (sym e))
                        (rw own (text_eq_refl id)))
                      (λ d mine.
                        text_eq-disjoint d.user_id y.user_id v (λ e. other (sym e ∙ own)) mine),
            )
      ]
