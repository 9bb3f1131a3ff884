-- ===== src/Grid/Session/Guards/Laws.antt =====
-- What each check has established when it passes.
use astesia.Base.{
  ℕ, suc, ◌+◌, ◌<◌, ◌≡◌, inl, inr, some, List, [], ◌∷◌, arith, String, All, length, ok,
  Option-cases,
}
use astesia.Grid.Types.{GridPage, GridCell, GridColumn, GridEditability, editable}
use astesia.Grid.Session.{GridSession, page, page_of}
use astesia.Grid.Session.Guards.{
  primary_keys, key_editability, allow, editability, require_editable, require_row, require_cell,
}

primary_keys_in :
    (i n : ℕ) (cs : List GridColumn) → i + length cs ≡ n → All (λ k. k.0 < n) (primary_keys i cs)
unfolding primary_keys
primary_keys_in i n [] e = tt
primary_keys_in i n (c ∷ cs) e = ground (arith, primary_keys_in (suc i) n cs)

key_editability_in :
    (ks : List (ℕ × String)) (n : ℕ) {i : ℕ} {name : String}
    → All (λ k. k.0 < n) ks
    → key_editability ks ≡ editable i name
    → i < n
unfolding key_editability
key_editability_in [] n a e = absurd (cc)
key_editability_in ((i, name) ∷ []) n a e = ground arith
key_editability_in (k ∷ l ∷ ks) n a e = absurd (cc)

pub allow_editable :
    (e : GridEditability) {key : ℕ × String} → allow e ≡ ok key → e ≡ editable key.0 key.1
unfolding allow
allow_editable e h = ground arith

module _ {V : Type 0} where
  -- An editable session shows a page, and its key column is one of the page's.
  pub require_editable_page :
      (s : GridSession V) {key : ℕ × String}
      → require_editable s ≡ ok key
      → (p : GridPage V) × (page_of s.state ≡ some p) × (key.0 < length p.columns)
  unfolding require_editable editability page
  require_editable_page s {key} h =
      let e = allow_editable (editability s) {key = key} (ground arith) in
      elim (Option-cases (page_of s.state)) [
        | inl missing ↦ absurd (ground arith)
        | inr (p, shown) ↦ (
          p,
          shown,
          key_editability_in (primary_keys 0 p.columns) (length p.columns) {name = key.1}
              (primary_keys_in 0 (length p.columns) p.columns (omega arith)) (ground arith),
        )
      ]

  pub require_row_page :
      (s : GridSession V) (row : ℕ)
      → require_row s row ≡ ok tt
      → (p : GridPage V) × (page_of s.state ≡ some p) × (row < length p.rows)
  unfolding require_row page
  require_row_page s row h = elim (Option-cases (page_of s.state)) [
    | inl missing ↦ absurd (ground arith)
    | inr (p, shown) ↦ (p, shown, ground arith)
  ]

  pub require_cell_page :
      (s : GridSession V) (cell : GridCell)
      → require_cell s cell ≡ ok tt
      → (p : GridPage V) × (page_of s.state ≡ some p)
        × (cell.row < length p.rows)
        × (cell.column < length p.columns)
  unfolding require_cell require_row page
  require_cell_page s cell h = elim (Option-cases (page_of s.state)) [
    | inl missing ↦ absurd (ground arith)
    | inr (p, shown) ↦ (p, shown, ground arith, ground arith)
  ]
