-- ===== src/Grid/Tests.antt =====
-- The grid's theorems at concrete inputs: a page of two rows, its key in the first column, and
-- numbers for the cells, of which 0 is null.
mod Sessions
mod Staging
use astesia.Base.{ℕ, Bool, true, false, not, none, some, List, [], ◌∷◌, String, ◌==◌}
use astesia.Db.Engine.{DbType}
use astesia.Grid.Types.{
  JsonValue, QueryTarget, TableRef, GridQuery, ColumnInfo, GridColumn, GridPage, GridCell,
  GridLoadRequest,
}
use astesia.Grid.Changes
use astesia.Grid.Changes.{GridChangeSet, empty, push, cell}
use astesia.Grid.Selection
use astesia.Grid.Session.{GridSession, GridState}

instance abbrev pub nat_json : JsonValue ℕ
nat_json = record { eq = λ a b. a == b; is_null = λ a. a == 0 }

abbrev pub at : ℕ → ℕ → GridCell
at row column = record { row = row; column = column }

abbrev pub column : String → Bool → GridColumn
column name is_key = record {
  info = record {
    name = name;
    data_type = "int";
    nullable = not is_key;
    is_primary_key = is_key;
    default_value = none;
    comment = none;
  };
  enum_values = [];
}

abbrev pub two_rows : GridPage ℕ
two_rows = record {
  columns = column "id" true ∷ column "age" false ∷ [];
  rows = (1 ∷ 30 ∷ []) ∷ (2 ∷ 40 ∷ []) ∷ [];
  total_rows = some 2;
}

abbrev pub two_rows_info : List ColumnInfo
two_rows_info = (column "id" true).info ∷ (column "age" false).info ∷ []

abbrev pub target : QueryTarget
target = record {
  connection_id = "c";
  connection_name = "local";
  database = "app";
  db_type = DbType.mysql;
  session_generation = 1;
}

abbrev pub table : TableRef
table = record { name = "users"; schema = none }

abbrev pub query : GridQuery
query = record { page = 1; page_size = 2; filter = none; sort = [] }

abbrev pub nothing : GridChangeSet ℕ
nothing = Changes.default

abbrev pub fresh : GridSession ℕ
fresh = record {
  target = target;
  table = table;
  query = query;
  next_load_generation = 0;
  next_save_generation = 0;
  state = GridState.idle;
  selection = Selection.default;
  changes = Changes.default;
}

abbrev pub request : ℕ → GridQuery → GridLoadRequest
request generation q = record { generation = generation; target = target; table = table; query = q }

abbrev pub waiting : GridSession ℕ
waiting = record fresh { next_load_generation = 1; state = GridState.loading 1 none }

abbrev pub shown : GridSession ℕ
shown = record fresh { next_load_generation = 1; state = GridState.ready two_rows }

abbrev pub one_edit : GridChangeSet ℕ
one_edit = record {
  next_draft_id = 0;
  staged = record {
    edits = (at 0 1, Changes.new_edit (at 0 1) 30 31) ∷ [];
    drafts = [];
    deleted_rows = [];
  };
  history = push (cell (at 0 1) none) empty;
}

abbrev pub edited : GridSession ℕ
edited = record shown { changes = one_edit }
