-- ===== src/Grid/Types.antt =====
-- application/grid_session.rs, the types: queries, pages, cells, drafts, plans and errors; and of
-- application/query_workspace.rs, db/sql_render.rs and db/mod.rs the structs that they hold.
-- A cell's value is serde_json's, which is a parameter here: `JsonValue` is its `==` and `is_null`.
-- `GridColumn` is `ColumnInfo` with its enum values. Its `kind`, which serves the cell editors
-- alone, is left out.
use Prim.Native.Nat.{compare}
use astesia.Base.{ℕ, String, Bool, Option, List, arith, Ordering, Outcome}
use astesia.Base.Order.{Ord, IsOrder, lex}
use astesia.Db.Engine.{DbType}

pub record JsonValue (V : Type 0) : Type 0 where
  pub eq : V → V → Bool
  pub is_null : V → Bool

pub data GridSortDirection : Type 0 where
  ascending descending : GridSortDirection

pub record GridSort : Type 0 where
  pub column : String
  pub direction : GridSortDirection

pub record GridQuery : Type 0 where
  pub page : ℕ
  pub page_size : ℕ
  pub filter : Option String
  pub sort : List GridSort

pub record QueryTarget : Type 0 where
  pub connection_id : String
  pub connection_name : String
  pub database : String
  pub db_type : DbType
  pub session_generation : ℕ

pub record TableRef : Type 0 where
  pub name : String
  pub schema : Option String

pub record ColumnInfo : Type 0 where
  pub name : String
  pub data_type : String
  pub nullable : Bool
  pub is_primary_key : Bool
  pub default_value : Option String
  pub comment : Option String

pub record GridColumn : Type 0 where
  pub info : ColumnInfo
  pub open info use *
  pub enum_values : List String

pub record GridPage (V : Type 0) : Type 0 where
  pub columns : List GridColumn
  pub rows : List (List V)
  pub total_rows : Option ℕ

pub record GridLoadRequest : Type 0 where
  pub generation : ℕ
  pub target : QueryTarget
  pub table : TableRef
  pub query : GridQuery

pub record GridSaveFailure : Type 0 where
  pub completed_statements : ℕ
  pub total_statements : ℕ
  pub message : String
  pub recovery_sql : Option String

pub data GridEditability : Type 0 where
  awaiting_data : GridEditability
  editable : ℕ → String → GridEditability
  read_only_engine : DbType → GridEditability
  missing_primary_key : GridEditability
  composite_primary_key : GridEditability

pub data GridRowSelectionMode : Type 0 where
  replace toggle extend : GridRowSelectionMode

pub record GridCell : Type 0 where
  pub row : ℕ
  pub column : ℕ

pub record GridCellSelection : Type 0 where
  pub anchor : GridCell
  pub focus : GridCell

pub record GridCellEdit (V : Type 0) : Type 0 where
  pub row : ℕ
  pub column : ℕ
  pub old_value : V
  pub new_value : V

pub record GridDraftRow (V : Type 0) : Type 0 where
  pub id : ℕ
  pub values : List (Option V)

pub record GridChangeSummary : Type 0 where
  pub updated_cells : ℕ
  pub inserted_rows : ℕ
  pub deleted_rows : ℕ

pub record GridUpdate (V : Type 0) : Type 0 where
  pub row : ℕ
  pub primary_key_value : V
  pub column : String
  pub new_value : V

pub record GridInsert (V : Type 0) : Type 0 where
  pub draft_id : ℕ
  pub columns : List String
  pub values : List V

pub record GridDelete (V : Type 0) : Type 0 where
  pub primary_key_values : List V

pub record GridSavePlan (V : Type 0) : Type 0 where
  pub target : QueryTarget
  pub table : TableRef
  pub primary_key_column : String
  pub updates : List (GridUpdate V)
  pub inserts : List (GridInsert V)
  pub delete : Option (GridDelete V)
  pub operation_count : ℕ

pub record GridSaveRequest (V : Type 0) : Type 0 where
  pub generation : ℕ
  pub plan : GridSavePlan V

pub data GridSessionError : Type 0 where
  invalid_page : GridSessionError
  invalid_page_size : GridSessionError
  invalid_page_shape : ℕ → ℕ → ℕ → GridSessionError
  loading : GridSessionError
  saving : GridSessionError
  unavailable : GridSessionError
  pending_changes : GridSessionError
  no_changes : GridSessionError
  awaiting_data : GridSessionError
  read_only_engine : DbType → GridSessionError
  missing_primary_key : GridSessionError
  composite_primary_key : GridSessionError
  row_out_of_bounds : ℕ → GridSessionError
  column_out_of_bounds : ℕ → GridSessionError
  deleted_row : ℕ → GridSessionError
  unknown_sort_column : String → GridSessionError
  duplicate_sort_column : String → GridSessionError
  draft_not_found : ℕ → GridSessionError
  missing_row_identity : ℕ → GridSessionError

abbrev pub GridResult : Type 0 → Type 0
GridResult A = Outcome GridSessionError A

-- `derive(Ord)` on `GridCell`
abbrev cell_cmp : GridCell → GridCell → Ordering
cell_cmp a b = lex (compare a.row b.row) (compare a.column b.column)

pub cell_cmp-IsOrder : IsOrder cell_cmp
cell_cmp-IsOrder = ground arith

instance abbrev pub cell_ord : Ord GridCell
cell_ord = record { cmp = cell_cmp; laws = cell_cmp-IsOrder }
