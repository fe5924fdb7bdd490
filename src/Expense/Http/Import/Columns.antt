-- ===== src/Expense/Http/Import/Columns.antt =====
-- transaction_import.go of the handlers: which cells of the file the rows are made of.
use finora.Base.{
  ℕ, suc, ◌+◌, ◌≡◌, ◌⊎◌, refl, sym, ◌∙◌, ap, inl, inr, true, false, ◌||◌, List, [], ◌∷◌, map,
  Option, none, some, Text, ok, find_first, get_elem?, drop, if◌then◌else◌, All, arith, Bool-cases,
  Option-cases, outcome, success, failure,
}
use mathlib.Core.Path.{subst}
use finora.Golang.Text.{text_eq}
use finora.Golang.Text.Laws.{eq_of_text_eq}
use finora.Expense.Import.Amounts.{ImportRow}
use finora.Expense.Http.Import.{
  Read, fields, malformed, Column, is_column, index_of, find_column, is_found, Layout, row_of,
  read_rows, normalize_header, column_index, layout_of, parse_import_csv, date_aliases,
}

abbrev pub Among : Text → List Text → Type 0
Among name [] = true ≡ false
Among name (alias ∷ aliases) = (name ≡ alias) ⊎ Among name aliases

ok_inj : {A : Type 0} (a b : A) → ok a ≡ ok b → a ≡ b
ok_inj a b h = cc

-- The rows of a file without malformed records are its records, read by the layout.
pub read_rows-ok :
    (layout : Layout) (reads : List Read) (rows : List ImportRow)
    → read_rows layout reads ≡ ok rows
    → (records : List (List Text)) × (reads ≡ map fields records)
      × (rows ≡ map (row_of layout) records)
unfolding read_rows
read_rows-ok layout [] rows h = ([], refl, sym (ok_inj [] rows h))
read_rows-ok layout (malformed e ∷ reads) rows h = absurd cc
read_rows-ok layout (fields cells ∷ reads) rows h = elim (outcome (read_rows layout reads)) [
  | failure e bad ↦ absurd (ground arith)
  | success rest read ↦
      let (records, same, made) = read_rows-ok layout reads rest read in
      let whole : row_of layout cells ∷ rest ≡ rows = ok_inj _ _ (rw (read, read_rows) at h) in
      (
        cells ∷ records,
        ap (λ rs. fields cells ∷ rs) same,
        sym whole ∙ ap (λ rs. row_of layout cells ∷ rs) made,
      )
]

module _ (to_lower : Text → Text) where
  -- The column of this index bears the name, and no later one does.
  abbrev pub IsColumn : List Text → Text → ℕ → Type 0
  IsColumn header name i =
      ((h : Text) × (get_elem? header i ≡ some h) × (normalize_header to_lower h ≡ name))
      × All (λ h. text_eq (normalize_header to_lower h) name ≡ false) (drop (suc i) header)

  -- The index of the last column of the name, counted from `i`.
  abbrev last_column : Text → ℕ → List Text → Option ℕ
  last_column name i [] = none
  last_column name i (h ∷ hs) = elim (last_column name (i + 1) hs) [
    | some j ↦ some j
    | none ↦ if text_eq (normalize_header to_lower h) name then some i else none
  ]

  abbrev or_else : Option ℕ → Option ℕ → Option ℕ
  or_else (some j) other = some j
  or_else none other = other

  column_index-last :
      (name : Text) (i : ℕ) (hs : List Text) (columns : List Column)
      → index_of (find_first (is_column name) (column_index to_lower i hs columns))
        ≡ or_else (last_column name i hs) (index_of (find_first (is_column name) columns))
  unfolding column_index
  column_index-last name i [] columns = refl
  column_index-last name i (h ∷ hs) columns =
      let named = text_eq (normalize_header to_lower h) name in
      let rest =
        column_index-last name (i + 1) hs
          (record { name = normalize_header to_lower h; index = i } ∷ columns) in
      elim (Option-cases (last_column name (i + 1) hs)) [
        | inr (j, later) ↦ rest ∙ rw later refl
        | inl none_later ↦ elim (Bool-cases named) [
          | inl here ↦ rest ∙ rw (none_later, here) refl
          | inr not_here ↦ rest ∙ rw (none_later, not_here) refl
        ]
      ]

  last_column-none :
      (name : Text) (i : ℕ) (hs : List Text)
      → last_column name i hs ≡ none
      → All (λ h. text_eq (normalize_header to_lower h) name ≡ false) hs
  last_column-none name i [] h = tt
  last_column-none name i (x ∷ hs) h = elim (Option-cases (last_column name (i + 1) hs)) [
    | inr (j, later) ↦ absurd (ground arith)
    | inl none_later ↦ (ground arith, last_column-none name (i + 1) hs none_later)
  ]

  last_column-IsColumn :
      (name : Text) (i j : ℕ) (hs : List Text)
      → last_column name i hs ≡ some j
      → (k : ℕ) × (j ≡ i + k) × IsColumn hs name k
  unfolding drop
  last_column-IsColumn name i j [] h = absurd cc
  last_column-IsColumn name i j (x ∷ hs) h = elim (Option-cases (last_column name (i + 1) hs)) [
    | inr (m, later) ↦
        let (k, at, column) = last_column-IsColumn name (i + 1) m hs later in
        let same : some m ≡ some j = rw later at h in
        let reached : m ≡ j = cc in (suc k, omega (arith, at, reached), column)
    | inl none_later ↦ elim (Bool-cases (text_eq (normalize_header to_lower x) name)) [
      | inr other ↦ absurd (ground arith)
      | inl named ↦
          let same : some i ≡ some j = rw (none_later, named) at h in
          let reached : i ≡ j = cc in
          (
            0,
            omega (arith, reached),
            (
              (x, refl, eq_of_text_eq (normalize_header to_lower x) name named),
              last_column-none name (i + 1) hs none_later,
            ),
          )
    ]
  ]

  find_column-some :
      (columns : List Column) (aliases : List Text) (i : ℕ)
      → find_column columns aliases ≡ some i
      → (name : Text) × Among name aliases
        × (index_of (find_first (is_column name) columns) ≡ some i)
  unfolding find_column
  find_column-some columns [] i h = absurd cc
  find_column-some columns (alias ∷ aliases) i h =
      elim (Option-cases (find_first (is_column alias) columns)) [
        | inl missing ↦
            let (name, among, at) =
              find_column-some columns aliases i (rw (missing, find_column) at h) in
            (name, inr among, at)
        | inr (column, found) ↦
            let same : some column.index ≡ some i = rw (found, find_column) at h in
            (alias, inl refl, rw found same)
      ]

  -- A column that is found bears one of the aliases, and is the last of its name.
  pub find_column-IsColumn :
      (header : List Text) (aliases : List Text) (i : ℕ)
      → find_column (column_index to_lower 0 header []) aliases ≡ some i
      → (name : Text) × Among name aliases × IsColumn header name i
  find_column-IsColumn header aliases i h =
      let (name, among, at) = find_column-some (column_index to_lower 0 header []) aliases i h in
      elim (Option-cases (last_column name 0 header)) [
        | inl none_named ↦
            let empty : none ≡ some i =
              rw (none_named) at (sym (column_index-last name 0 header []) ∙ at) in
            absurd cc
        | inr (j, last) ↦
            let (k, counted, column) = last_column-IsColumn name 0 j header last in
            let same : some j ≡ some i =
              rw (last) at (sym (column_index-last name 0 header []) ∙ at) in
            let reached : i ≡ k = omega (arith, counted, (let here : j ≡ i = cc in here)) in
            (name, among, subst (IsColumn header name) (sym reached) column)
      ]

  pub parse_import_csv-rows :
      (reads : List Read) (rows : List ImportRow)
      → parse_import_csv to_lower reads ≡ ok rows
      → (header : List Text) × (records : List (List Text)) × (reads
          ≡ fields header ∷ map fields records)
        × (rows ≡ map (row_of (layout_of to_lower header)) records)
        × ((i : ℕ) × (name : Text) × ((layout_of to_lower header).date ≡ some i)
            × Among name date_aliases
            × IsColumn header name i)
  unfolding parse_import_csv layout_of
  parse_import_csv-rows [] rows h = absurd cc
  parse_import_csv-rows (malformed e ∷ reads) rows h = absurd cc
  parse_import_csv-rows (fields header ∷ reads) rows h =
      let layout = layout_of to_lower header in
      elim (Option-cases (layout_of to_lower header).date) [
        | inl missing ↦ absurd (ground arith)
        | inr (i, dated) ↦
            let has_date : is_found layout.date ≡ true = ap is_found dated in
            let (records, same, made) =
              read_rows-ok (layout_of to_lower header) reads rows
                (elim (Bool-cases
                  (is_found layout.amount || is_found layout.debit || is_found layout.credit)) [
                    | inl priced ↦ rw (has_date, priced, parse_import_csv) at h
                    | inr unpriced ↦ absurd (ground arith)
                  ]) in
            let (name, among, column) = find_column-IsColumn header date_aliases i dated in
            (
              header,
              records,
              ap (λ rs. fields header ∷ rs) same,
              made,
              (i, name, dated, among, column),
            )
      ]
