-- ===== src/Grid/Session/Edit.antt =====
-- application/grid_session.rs: selecting, staging edits, inserts and deletes. Every operation checks
-- the session first, and then calls the selection or the change set.
use astesia.Base.{
  ℕ, Bool, true, false, not, none, some, List, [], ◌∷◌, length, keep, ok, err, ◌>>=◌, ◌>>◌, ok_or,
  if◌then◌else◌,
}
use astesia.Base.OrdMap.Sets.{keys_of}
use astesia.Grid.Types.{
  JsonValue, GridCell, GridRowSelectionMode, GridResult, deleted_row, row_out_of_bounds,
  awaiting_data,
}
use astesia.Grid.Changes
use astesia.Grid.Selection
use astesia.Grid.Session.{GridSession, page, clear_selection}
use astesia.Grid.Session.Guards.{require_editable, require_row, require_cell}

module _ {V : Type 0} where
  pub refuse_deleted : GridSession V → ℕ → GridResult (Unit {0})
  refuse_deleted s row =
      if Changes.is_row_deleted s.changes row then err (deleted_row row) else ok tt

  unfoldable pub select_row :
      ℕ → GridRowSelectionMode → GridSession V → GridResult (GridSession V × Bool)
  unfolding refuse_deleted
  select_row row mode s = do
    require_row s row
    refuse_deleted s row
    let (selection, changed) = Selection.select_row row mode s.changes.deleted_rows s.selection
    ok (record s { selection = selection }, changed)

  unfoldable pub select_cell : GridCell → Bool → GridSession V → GridResult (GridSession V × Bool)
  select_cell cell extending s = do
    require_cell s cell
    let (selection, changed) = Selection.select_cell cell extending s.selection
    ok (record s { selection = selection }, changed)

  original_value : GridSession V → GridCell → GridResult V
  original_value s cell =
      ok_or (elim (page s) [ none ↦ none | some p ↦ Changes.page_value p cell ])
        (row_out_of_bounds cell.row)

  -- What a staged write to a cell asks for, and the value that it replaces.
  unfoldable pub prepare_cell : GridSession V → GridCell → GridResult V
  unfolding refuse_deleted original_value
  prepare_cell s cell = do require_cell s cell; refuse_deleted s cell.row; original_value s cell

  -- The loop of `stage_cell_values`: the first cell that is refused ends the call.
  unfoldable pub prepare_cells :
      GridSession V → List (GridCell × V) → GridResult (List (GridCell × V × V))
  unfolding prepare_cell
  prepare_cells s [] = ok []
  prepare_cells s ((cell, value) ∷ rest) = do
    original ← prepare_cell s cell
    prepared ← prepare_cells s rest
    ok ((cell, original, value) ∷ prepared)

module _ {V : Type 0} ⦃j : JsonValue V⦄ where
  unfoldable pub stage_cell_value : GridCell → V → GridSession V → GridResult (GridSession V × Bool)
  stage_cell_value cell value s = do
    require_editable s
    original ← prepare_cell s cell
    let (changes, changed) = Changes.stage_cell_value cell original value s.changes
    ok (record s { changes = changes }, changed)

  unfoldable pub stage_cell_values :
      List (GridCell × V) → GridSession V → GridResult (GridSession V × ℕ)
  stage_cell_values values s = do
    require_editable s
    prepared ← prepare_cells s values
    let (changes, changed) = Changes.stage_cell_values prepared s.changes
    ok (record s { changes = changes }, changed)

  unfoldable pub set_draft_value : ℕ → ℕ → V → GridSession V → GridResult (GridSession V × Bool)
  set_draft_value draft_id column value s = do
    require_editable s
    r ← Changes.set_draft_value draft_id column value s.changes
    ok (record s { changes = r.0 }, r.1)

module _ {V : Type 0} where
  unfoldable pub stage_insert : GridSession V → GridResult (GridSession V × ℕ)
  stage_insert s = do
    require_editable s
    p ← ok_or (page s) awaiting_data
    r ← Changes.insert_draft (length p.columns) s.changes
    ok (record s { changes = r.0 }, r.1)

  unfoldable pub unset_draft_value : ℕ → ℕ → GridSession V → GridResult (GridSession V × Bool)
  unset_draft_value draft_id column s = do
    require_editable s
    r ← Changes.unset_draft_value draft_id column s.changes
    ok (record s { changes = r.0 }, r.1)

  unfoldable pub remove_draft : ℕ → GridSession V → GridResult (GridSession V × Bool)
  remove_draft draft_id s = do
    require_editable s
    changes ← Changes.remove_draft draft_id s.changes
    ok (record s { changes = changes }, true)

  -- The selected rows that are not deleted yet.
  unfoldable pub rows_to_delete : GridSession V → List ℕ
  rows_to_delete s =
      keep (λ row. not (Changes.is_row_deleted s.changes row)) (keys_of s.selection.rows)

  unfoldable pub delete_these : List ℕ → GridSession V → GridSession V × Bool
  delete_these [] s = (s, false)
  delete_these (row ∷ rows) s =
      (clear_selection (record s { changes = Changes.delete_rows (row ∷ rows) s.changes }), true)

  unfoldable pub stage_delete_selection : GridSession V → GridResult (GridSession V × Bool)
  unfolding delete_these
  stage_delete_selection s = do require_editable s; ok (delete_these (rows_to_delete s) s)
