-- ===== src/Expense/Import/Counts.antt =====
-- The counters and the list of errors of `Import` in transaction_import.go.
use finora.Base.{
  zero, str, ◌<◌, ◌⊎◌, replace_not_found-ok, ◌++◌, map, take, sym, ap, ◌∙◌, length-map, ℕ, suc, ◌+◌,
  ◌≤◌, ◌≡◌, refl, List, [], ◌∷◌, Text, ok, err, length, length-append, arith, inl, inr, Bool-cases,
  ltb, replace_not_found, outcome, success, failure,
}
use mathlib.Core.List.{map-append, append-nil, append_assoc}
use mathlib.Core.Path.{subst}
use Prim.Native.Nat.{min}
use finora.Golang.Time.{Time}
use finora.Expense.Domain.{Account, AccountRepository, TransactionRepository, EventPublisher}
use finora.Expense.Transactions.{no_account}
use finora.Expense.Import.Amounts.{Library, ImportRow}
use finora.Expense.Import.{
  ImportRowError, ImportResult, max_import_errors, skip_row, saved, import_row, import_rows, import,
  build_imported_transaction, error_text,
}

-- The counters and the list of a report, of which the rows of these numbers were skipped, after
-- `done` rows: each row was imported or skipped, and the first twenty skipped ones are listed.
pub record IsTally (done : ℕ) (skips : List ℕ) (r : ImportResult) : Type 0 where
  pub counted : r.imported + r.skipped ≡ done
  pub skipped : r.skipped ≡ length skips
  pub listed : map (λ (e : ImportRowError). e.row) r.errors ≡ take 20 skips

length-take : {A : Type 0} (n : ℕ) (xs : List A) → length (take n xs) ≡ min n (length xs)
unfolding take
length-take zero xs = omega arith
length-take (suc n) [] = omega arith
length-take (suc n) (x ∷ xs) = omega (arith, length-take n xs)

take-snoc_few :
    {A : Type 0} (n : ℕ) (xs : List A) (x : A)
    → length xs < n
    → take n (xs ++ x ∷ []) ≡ take n xs ++ x ∷ []
unfolding take
take-snoc_few zero xs x h = absurd (omega arith)
take-snoc_few (suc zero) [] x h = refl
take-snoc_few (suc (suc n)) [] x h = refl
take-snoc_few (suc n) (y ∷ xs) x h = ap (λ ys. y ∷ ys) (take-snoc_few n xs x (omega arith))

take-snoc_many :
    {A : Type 0} (n : ℕ) (xs : List A) (x : A) → n ≤ length xs → take n (xs ++ x ∷ []) ≡ take n xs
unfolding take
take-snoc_many zero xs x h = refl
take-snoc_many (suc n) [] x h = absurd (omega arith)
take-snoc_many (suc n) (y ∷ xs) x h = ap (λ ys. y ∷ ys) (take-snoc_many n xs x (omega arith))

skip_row-IsTally :
    (done row : ℕ) (skips : List ℕ) (r : ImportResult) (message : Text)
    → IsTally done skips r
    → IsTally (suc done) (skips ++ row ∷ []) (skip_row r row message)
unfolding skip_row
skip_row-IsTally done row skips r message t =
    let many : length r.errors ≡ min 20 (length skips) =
      sym (length-map (λ (e : ImportRowError). e.row) r.errors)
      ∙ ap length t.listed
      ∙ length-take 20 skips in
    let longer : length (skips ++ row ∷ []) ≡ length skips + 1 = length-append skips (row ∷ []) in
    elim (Bool-cases (ltb (length r.errors) max_import_errors)) [
      | inl few ↦ rw few (record {
        counted = omega (arith, t.counted);
        skipped = omega (arith, t.skipped, longer);
        listed =
            map-append (λ (e : ImportRowError). e.row) r.errors _
            ∙ ap (λ ns. ns ++ row ∷ []) t.listed
            ∙ sym (take-snoc_few 20 skips row (ground (arith, many)));
      })
      | inr full ↦ rw full (record {
        counted = omega (arith, t.counted);
        skipped = omega (arith, t.skipped, longer);
        listed = t.listed ∙ sym (take-snoc_many 20 skips row (ground (arith, many)));
      })
    ]

module _ (lib : Library) {S : Type 0} (repo : TransactionRepository S)
    (account_repo : AccountRepository S) (publisher : EventPublisher S) (now : Time) where
  -- The numbers of the rows, counted from `n`, that give no transaction or whose transaction is not
  -- stored.
  module _ (user_id : Text) (account : Account) where
    abbrev pub skips_of : ℕ → List ImportRow → S → List ℕ
    skips_of n [] s = []
    skips_of n (row ∷ rows) s = elim (build_imported_transaction lib user_id account row now) [
      | err e ↦ n ∷ skips_of (n + 1) rows s
      | ok tx ↦
          let (stored, s') = repo.create tx s in
          elim stored [
            | err e ↦ n ∷ skips_of (n + 1) rows s'
            | ok tx' ↦ skips_of (n + 1) rows (publisher.publish_transaction_created tx' s').1
          ]
    ]

  -- A round of the loop skips its row, with some message, or imports it.
  import_row-cases :
      (user_id : Text) (account : Account) (n : ℕ) (row : ImportRow) (rows : List ImportRow)
      (r : ImportResult) (s : S)
      → let (r', s') =
          import_row lib repo account_repo publisher now user_id account n row (r, s) in
        let numbers = skips_of user_id account n (row ∷ rows) s in
        let more = skips_of user_id account (n + 1) rows s' in
        ((message : Text) × (r' ≡ skip_row r n message) × (numbers ≡ n ∷ more))
        ⊎ ((r' ≡ record r { imported = r.imported + 1 }) × (numbers ≡ more))
  unfolding import_row saved
  import_row-cases user_id account n row rows r s =
      elim (outcome (build_imported_transaction lib user_id account row now)) [
        | failure m bad ↦
            inl (error_text m, rw (bad, import_row) refl, rw (bad, import_row, skips_of) refl)
        | success tx built ↦ elim (outcome (repo.create tx s).0) [
          | failure e lost ↦ inl (
            str "failed to save: " ++ error_text e,
            rw (built, import_row, lost) refl,
            rw (built, import_row, skips_of, lost) refl,
          )
          | success tx' stored ↦
              inr
                (rw (built, import_row, stored) refl, rw (built, import_row, skips_of, stored) refl)
        ]
      ]

  import_rows-IsTally :
      (user_id : Text) (account : Account) (n done total : ℕ) (skips : List ℕ)
      (rows : List ImportRow) (r : ImportResult) (s : S)
      → total ≡ done + length rows
      → IsTally done skips r
      → IsTally total
          (skips ++ skips_of user_id account n rows s)
          (import_rows lib repo account_repo publisher now user_id account n rows (r, s)).0
  unfolding import_rows
  import_rows-IsTally user_id account n done total skips [] r s sum t =
      let same : total ≡ done = omega arith in rw (same, append-nil skips) t
  import_rows-IsTally user_id account n done total skips (row ∷ rows) r s sum t =
      let (r', s') = import_row lib repo account_repo publisher now user_id account n row (r, s) in
      let more = skips_of user_id account (n + 1) rows s' in
      elim (import_row-cases user_id account n row rows r s) [
        | inl (message, skipped, numbers) ↦
            subst
              (λ ns.
                IsTally total ns
                  (import_rows lib repo account_repo publisher now user_id account (n + 1) rows
                    (r', s')).0)
              (append_assoc skips (n ∷ []) more ∙ ap (λ ns. skips ++ ns) (sym numbers))
              (import_rows-IsTally user_id account (n + 1) (suc done) total (skips ++ n ∷ []) rows
                r' s' (omega arith)
                (subst (IsTally (suc done) (skips ++ n ∷ [])) (sym skipped)
                  (skip_row-IsTally done n skips r message t)))
        | inr (imported, numbers) ↦
            subst
              (λ ns.
                IsTally total ns
                  (import_rows lib repo account_repo publisher now user_id account (n + 1) rows
                    (r', s')).0)
              (ap (λ ns. skips ++ ns) (sym numbers))
              (import_rows-IsTally user_id account (n + 1) (suc done) total skips rows r' s'
                (omega arith)
                (subst (IsTally (suc done) skips) (sym imported) (record {
                  counted = omega (arith, t.counted);
                  skipped = t.skipped;
                  listed = t.listed;
                })))
      ]

  abbrev start : ImportResult
  start = record { imported = 0; skipped = 0; errors = [] }

  -- A successful import has imported or skipped each row, and lists the first twenty of the rows
  -- that it skipped.
  pub import-IsTally :
      (user_id account_id : Text) (rows : List ImportRow) (s : S) (r : ImportResult)
      → (import lib repo account_repo publisher now user_id account_id rows s).0 ≡ ok r
      → (account : Account) × (account_repo.get_by_id_for_user account_id user_id s ≡ ok account)
        × IsTally (length rows) (skips_of user_id account 2 rows s) r
  unfolding import take
  import-IsTally user_id account_id rows s r h =
      elim (outcome
        (replace_not_found no_account (account_repo.get_by_id_for_user account_id user_id s))) [
          | success account e ↦
              let made : (import_rows lib repo account_repo publisher now user_id account 2 rows
                    (start, s)).0
                  ≡ r =
                (ground arith) in
              (
                account,
                replace_not_found-ok no_account _ account e,
                rw (← made) (
                    import_rows-IsTally user_id account 2 0 (length rows) [] rows start s
                      (omega arith) (record { counted = refl; skipped = refl; listed = refl })),
              )
          | failure m e ↦ absurd (ground arith)
        ]
