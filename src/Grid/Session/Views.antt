-- ===== src/Grid/Session/Views.antt =====
-- application/grid_session.rs: what a caller reads of a session, and how the requests and failures
-- that cross it are made.
use astesia.Base.{
  ℕ, suc, arith, ◌≡◌, String, Bool, true, false, not, ◌&&◌, ◌⊎◌, Option, none, some, List, [], ◌∷◌,
  if◌then◌else◌,
}
use astesia.Grid.Types.{
  GridColumn, GridQuery, GridCell, GridCellSelection, GridDraftRow, GridChangeSummary,
  GridLoadRequest, GridSaveFailure, QueryTarget, TableRef,
}
use astesia.Grid.Changes
use astesia.Grid.Selection
use astesia.Grid.Session.{GridSession, page}
use astesia.Grid.Session.Save.{undo, is_saving}

-- `columns.iter().position(|column| column.is_primary_key)`
unfoldable pub first_key : List GridColumn → Option ℕ
first_key [] = none
first_key (c ∷ cs) =
    let rest = first_key cs in
    if c.is_primary_key then some 0 else elim rest [ none ↦ none | some i ↦ some (suc i) ]

unfoldable pub for_chart_page : QueryTarget → TableRef → GridQuery → ℕ → ℕ → GridLoadRequest
for_chart_page target table query page page_size = record {
  generation = page;
  target = target;
  table = table;
  query = record query { page = page; page_size = page_size };
}

unfoldable pub before_execution : ℕ → String → GridSaveFailure
before_execution total_statements message = record {
  completed_statements = 0;
  total_statements = total_statements;
  message = message;
  recovery_sql = none;
}

unfoldable pub during_execution : ℕ → ℕ → String → GridSaveFailure
during_execution completed_statements total_statements message = record {
  completed_statements = completed_statements;
  total_statements = total_statements;
  message = message;
  recovery_sql = none;
}

module _ {V : Type 0} where
  unfoldable pub row_selected : ℕ → GridSession V → Bool
  row_selected row s = Selection.row_selected row s.selection

  unfoldable pub selected_row_count : GridSession V → ℕ
  selected_row_count s = Selection.row_count s.selection

  unfoldable pub has_selection : GridSession V → Bool
  has_selection s = Selection.has_selection s.selection

  unfoldable pub cell_selection : GridSession V → Option GridCellSelection
  cell_selection s = s.selection.cells

  unfoldable pub is_cell_dirty : GridSession V → GridCell → Bool
  is_cell_dirty s cell = Changes.is_cell_dirty s.changes cell

  unfoldable pub is_row_deleted : GridSession V → ℕ → Bool
  is_row_deleted s row = Changes.is_row_deleted s.changes row

  unfoldable pub drafts : GridSession V → List (GridDraftRow V)
  drafts s = s.changes.drafts

  unfoldable pub can_undo : GridSession V → Bool
  can_undo s = Changes.can_undo s.changes && not (is_saving s.state)

  unfoldable pub change_summary : GridSession V → GridChangeSummary
  change_summary s = Changes.summary s.changes

  key_edits : GridSession V → Option ℕ → ℕ
  key_edits s none = 0
  key_edits s (some key) = Changes.primary_key_edit_count s.changes key

  unfoldable pub primary_key_edit_count : GridSession V → ℕ
  unfolding key_edits first_key
  primary_key_edit_count s = elim (page s) [ none ↦ 0 | some p ↦ key_edits s (first_key p.columns) ]

  -- Where `can_undo` says yes, `undo` reports that it took something back; where it says no, `undo`
  -- changes nothing and reports that.
  pub undo_cases :
      (s : GridSession V)
      → ((can_undo s ≡ true) × ((undo s).1 ≡ true)) ⊎ ((can_undo s ≡ false) × (undo s ≡ (s, false)))
  unfolding can_undo undo Changes.can_undo Changes.undo is_saving
  undo_cases s = ground arith
