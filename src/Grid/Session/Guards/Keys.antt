-- ===== src/Grid/Session/Guards/Keys.antt =====
-- `editability` of application/grid_session.rs: which column identifies the rows of an editable page.
use astesia.Base.{
  ℕ, suc, ◌+◌, ◌≡◌, refl, ap, sym, subst, ◌∙◌, true, some, inl, inr, List, [], ◌∷◌, arith, String,
  length, get_elem?, keep, ok, Option-cases, Bool-cases,
}
use astesia.Db.Engine.{capabilities}
use astesia.Grid.Types.{GridColumn, GridPage, editable}
use astesia.Grid.Session.{GridSession, page, page_of}
use astesia.Grid.Session.Guards.Laws.{allow_editable}
use astesia.Grid.Session.Guards.{
  primary_keys, key_editability, editability, require_editable, writes_rows,
}

abbrev pub keys : List GridColumn → List GridColumn
keys cs = keep (λ (c : GridColumn). c.is_primary_key) cs

-- The column at `k.0 - i` is a primary key with the name `k.1`.
abbrev pub IsKeyAt : ℕ → List GridColumn → ℕ × String → Type 0
IsKeyAt i cs k =
    (j : ℕ) × (c : GridColumn) × (k.0 ≡ i + j)
    × (get_elem? cs j ≡ some c)
    × (c.is_primary_key ≡ true)
    × (c.name ≡ k.1)

length-primary_keys : (i : ℕ) (cs : List GridColumn) → length (primary_keys i cs) ≡ length (keys cs)
unfolding primary_keys keep
length-primary_keys i [] = refl
length-primary_keys i (c ∷ cs) = ground (arith, length-primary_keys (suc i) cs)

single_key :
    (i : ℕ) (cs : List GridColumn) (k : ℕ × String) → primary_keys i cs ≡ k ∷ [] → IsKeyAt i cs k
unfolding primary_keys
single_key i [] k e = absurd (cc)
single_key i (c ∷ cs) k e = elim (Bool-cases c.is_primary_key) [
  | inl key ↦
      let first : (i, c.name) ≡ k = ground arith in
      (
        0,
        c,
        omega (arith, ap (λ (x : ℕ × String). x.0) first),
        refl,
        key,
        ap (λ (x : ℕ × String). x.1) first,
      )
  | inr other ↦
      let (j, d, at, found, is_key, name) = single_key (suc i) cs k (ground arith) in
      (suc j, d, omega arith, found, is_key, name)
]

editable_single :
    (ks : List (ℕ × String)) (i : ℕ) (name : String)
    → key_editability ks ≡ editable i name
    → ks ≡ (i, name) ∷ []
unfolding key_editability
editable_single [] i name e = absurd (cc)
editable_single ((j, n) ∷ []) i name e = ground arith
editable_single (k ∷ l ∷ ks) i name e = absurd (cc)

module _ {V : Type 0} where
  -- A session that is editable belongs to an engine that writes rows, and it shows a page with exactly
  -- one primary key column, whose index and name the check returns.
  pub require_editable_key :
      (s : GridSession V) (key : ℕ × String)
      → require_editable s ≡ ok key
      → (writes_rows (capabilities s.target.db_type) ≡ true)
        × ((p : GridPage V) × (page s ≡ some p)
            × (length (keys p.columns) ≡ 1)
            × (c : GridColumn) × (get_elem? p.columns key.0 ≡ some c)
            × (c.is_primary_key ≡ true)
            × (c.name ≡ key.1))
  unfolding require_editable editability page
  require_editable_key s key h =
      let e = allow_editable (editability s) {key = key} (ground arith) in
      elim (Option-cases (page_of s.state)) [
        | inl missing ↦ absurd (ground arith)
        | inr (p, shown) ↦
            let one = editable_single (primary_keys 0 p.columns) key.0 key.1 (ground arith) in
            let (j, c, at, found, is_key, name) = single_key 0 p.columns key one in
            (
              ground arith,
              (
                p,
                shown,
                sym (length-primary_keys 0 p.columns) ∙ ap length one,
                c,
                subst (λ i. get_elem? p.columns i ≡ some c) (sym (omega (arith, at))) found,
                is_key,
                name,
              ),
            )
      ]
