-- ===== src/Grid/Session/Consistent.antt =====
-- The operations that edit: each keeps the session consistent.
use astesia.Base.{
  ℕ, ◌≡◌, subst, Bool, some, List, [], ◌∷◌, arith, All, length, ok, >>=-eq-ok, ok-injective,
}
use astesia.Base.Order.{nat_ord}
use astesia.Grid.Types.{JsonValue, GridPage, GridCell, GridRowSelectionMode}
use astesia.Grid.Changes.{GridChangeSet}
use astesia.Grid.Changes.Rewind.{Fits, CellIn, stage_cell_value-Fits, stage_cell_values-Fits}
use astesia.Grid.Selection
use astesia.Grid.Selection.Laws.{IsSelectionOf, select_row-IsSelectionOf, select_cell-IsSelectionOf}
use astesia.Grid.Session.{GridSession, page_of}
use astesia.Grid.Session.Guards.{require_editable, require_row, require_cell}
use astesia.Grid.Session.Guards.Laws.{require_editable_page, require_row_page, require_cell_page}
use astesia.Grid.Session.Edit.{
  select_row, select_cell, stage_cell_value, stage_cell_values, prepare_cell, prepare_cells,
  refuse_deleted,
}
use astesia.Grid.Session.Invariant.{IsConsistent, BelongsTo}

module _ {V : Type 0} where
  -- New changes for the page that is shown.
  pub change-IsConsistent :
      (s : GridSession V) (p : GridPage V) (c : GridChangeSet V)
      → page_of s.state ≡ some p
      → (Fits (length p.rows) (length p.columns) s.changes
          → Fits (length p.rows) (length p.columns) c)
      → IsConsistent s
      → IsConsistent (record s { changes = c })
  change-IsConsistent s p c shown keeps v =
      let b : BelongsTo (some p) s.changes s.selection = rw shown at v in
      let result : BelongsTo (some p) c s.selection = (b.0, keeps b.1, b.2) in rw shown result

  select-IsConsistent :
      (s : GridSession V) (p : GridPage V) (sel : Selection.GridSelection)
      → page_of s.state ≡ some p
      → (IsSelectionOf (length p.rows) s.selection → IsSelectionOf (length p.rows) sel)
      → IsConsistent s
      → IsConsistent (record s { selection = sel })
  select-IsConsistent s p sel shown keeps v =
      let b : BelongsTo (some p) s.changes s.selection = rw shown at v in
      let result : BelongsTo (some p) s.changes sel = (b.0, b.1, keeps b.2) in rw shown result

  pub select_row-IsConsistent :
      (row : ℕ) (mode : GridRowSelectionMode) (s t : GridSession V) (changed : Bool)
      → select_row row mode s ≡ ok (t, changed)
      → IsConsistent s
      → IsConsistent t
  unfolding select_row
  select_row-IsConsistent row mode s t changed h v =
      let (_, in_page, rest) = >>=-eq-ok (require_row s row) _ h in
      let (_, _, result) = >>=-eq-ok (refuse_deleted s row) _ rest in
      let (p, shown, row_in) = require_row_page s row in_page in
      subst (λ (r : GridSession V × Bool). IsConsistent r.0) (ok-injective result)
        (select-IsConsistent s p _ shown
          (select_row-IsSelectionOf (length p.rows) row mode s.changes.deleted_rows s.selection
            row_in)
          v)

  pub select_cell-IsConsistent :
      (cell : GridCell) (extending : Bool) (s t : GridSession V) (changed : Bool)
      → select_cell cell extending s ≡ ok (t, changed)
      → IsConsistent s
      → IsConsistent t
  unfolding select_cell
  select_cell-IsConsistent cell extending s t changed h v =
      let (_, in_page, result) = >>=-eq-ok (require_cell s cell) _ h in
      let (p, shown, _, _) = require_cell_page s cell in_page in
      subst (λ (r : GridSession V × Bool). IsConsistent r.0) (ok-injective result)
        (select-IsConsistent s p _ shown
          (λ _. select_cell-IsSelectionOf (length p.rows) cell extending s.selection) v)

  -- A cell that may be written lies in the page.
  prepare_cell_in :
      (s : GridSession V) (p : GridPage V) (cell : GridCell) (original : V)
      → page_of s.state ≡ some p
      → prepare_cell s cell ≡ ok original
      → CellIn (length p.rows) (length p.columns) cell
  unfolding prepare_cell
  prepare_cell_in s p cell original shown h =
      let (_, in_page, _) = >>=-eq-ok (require_cell s cell) _ h in
      let (q, also, r, c) = require_cell_page s cell in_page in ground arith

  prepare_cells_in :
      (s : GridSession V) (p : GridPage V) (values : List (GridCell × V))
      (prepared : List (GridCell × V × V))
      → page_of s.state ≡ some p
      → prepare_cells s values ≡ ok prepared
      → All (λ v. CellIn (length p.rows) (length p.columns) (v.0)) prepared
  unfolding prepare_cells
  prepare_cells_in s p [] prepared shown h = rw (← ok-injective h) tt
  prepare_cells_in s p ((cell, value) ∷ rest) prepared shown h =
      let (original, first, more) = >>=-eq-ok (prepare_cell s cell) _ h in
      let (others, rest_ok, result) = >>=-eq-ok (prepare_cells s rest) _ more in
      rw (← ok-injective result) (
        prepare_cell_in s p cell original shown first,
        prepare_cells_in s p rest others shown rest_ok,
      )

module _ {V : Type 0} ⦃j : JsonValue V⦄ where
  pub stage_cell_value-IsConsistent :
      (cell : GridCell) (value : V) (s t : GridSession V) (changed : Bool)
      → stage_cell_value cell value s ≡ ok (t, changed)
      → IsConsistent s
      → IsConsistent t
  unfolding stage_cell_value
  stage_cell_value-IsConsistent cell value s t changed h v =
      let (_, editable, rest) = >>=-eq-ok (require_editable s) _ h in
      let (original, prepared, result) = >>=-eq-ok (prepare_cell s cell) _ rest in
      let (p, shown, _) = require_editable_page s editable in
      subst (λ (r : GridSession V × Bool). IsConsistent r.0) (ok-injective result)
        (change-IsConsistent s p _ shown
          (stage_cell_value-Fits _ _ cell original value s.changes
            (prepare_cell_in s p cell original shown prepared))
          v)

  pub stage_cell_values-IsConsistent :
      (values : List (GridCell × V)) (s t : GridSession V) (changed : ℕ)
      → stage_cell_values values s ≡ ok (t, changed)
      → IsConsistent s
      → IsConsistent t
  unfolding stage_cell_values
  stage_cell_values-IsConsistent values s t changed h v =
      let (_, editable, rest) = >>=-eq-ok (require_editable s) _ h in
      let (prepared, made, result) = >>=-eq-ok (prepare_cells s values) _ rest in
      let (p, shown, _) = require_editable_page s editable in
      subst (λ (r : GridSession V × ℕ). IsConsistent r.0) (ok-injective result)
        (change-IsConsistent s p _ shown
          (stage_cell_values-Fits _ _ prepared s.changes
            (prepare_cells_in s p values prepared shown made))
          v)
