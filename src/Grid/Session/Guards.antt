-- ===== src/Grid/Session/Guards.antt =====
-- application/grid_session.rs, the checks that come before an edit: `editability`,
-- `require_editable`, `require_row`, `require_cell`.
pub mod Laws
pub mod Keys
use astesia.Base.{
  ℕ, suc, String, Bool, true, false, ◌||◌, not, Option, none, some, List, [], ◌∷◌, length, ok, err,
  ◌>>=◌, ◌>>◌, ok_or, ltb, if◌then◌else◌,
}
use astesia.Db.Engine.{EngineCapabilities, RowMutationMode, capabilities}
use astesia.Grid.Types.{
  GridColumn, GridPage, GridCell, GridEditability, awaiting_data, editable, read_only_engine,
  missing_primary_key, composite_primary_key, GridSessionError, GridResult, row_out_of_bounds,
  column_out_of_bounds,
}
use astesia.Grid.Session.{GridSession, page, require_available, require_not_busy}

-- `columns.iter().enumerate().filter(|(_, column)| column.is_primary_key)`
unfoldable pub primary_keys : ℕ → List GridColumn → List (ℕ × String)
primary_keys i [] = []
primary_keys i (c ∷ cs) =
    let rest = primary_keys (suc i) cs in if c.is_primary_key then (i, c.name) ∷ rest else rest

key_editability : List (ℕ × String) → GridEditability
key_editability [] = missing_primary_key
key_editability ((index, name) ∷ []) = editable index name
key_editability _ = composite_primary_key

is_structured : RowMutationMode → Bool
is_structured RowMutationMode.structured_sql = true
is_structured _ = false

unfoldable pub writes_rows : EngineCapabilities → Bool
unfolding is_structured
writes_rows c = not (c.data_browser_read_only || not (is_structured c.row_mutation))

pub allow : GridEditability → GridResult (ℕ × String)
allow awaiting_data = err GridSessionError.awaiting_data
allow (editable index name) = ok (index, name)
allow (read_only_engine db_type) = err (GridSessionError.read_only_engine db_type)
allow missing_primary_key = err GridSessionError.missing_primary_key
allow composite_primary_key = err GridSessionError.composite_primary_key

module _ {V : Type 0} where
  page_editability : Option (GridPage V) → GridEditability
  unfolding key_editability primary_keys
  page_editability none = awaiting_data
  page_editability (some p) = key_editability (primary_keys 0 p.columns)

  unfoldable pub editability : GridSession V → GridEditability
  unfolding page_editability
  editability s =
      if writes_rows (capabilities s.target.db_type)
      then page_editability (page s)
      else read_only_engine s.target.db_type

  -- The index and the name of the primary key column.
  unfoldable pub require_editable : GridSession V → GridResult (ℕ × String)
  unfolding allow
  require_editable s = do require_available s; require_not_busy s; allow (editability s)

  unfoldable pub require_row : GridSession V → ℕ → GridResult (Unit {0})
  require_row s row = do
    p ← ok_or (page s) GridSessionError.awaiting_data
    if ltb row (length p.rows) then ok tt else err (row_out_of_bounds row)

  unfoldable pub require_cell : GridSession V → GridCell → GridResult (Unit {0})
  unfolding require_row
  require_cell s cell = do
    require_row s cell.row
    p ← ok_or (page s) GridSessionError.awaiting_data
    if ltb cell.column (length p.columns) then ok tt else err (column_out_of_bounds cell.column)
