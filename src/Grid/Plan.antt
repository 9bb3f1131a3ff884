-- ===== src/Grid/Plan.antt =====
-- `GridChangeSet::save_plan` of application/grid_session/changes.rs: the staged changes as the
-- updates, inserts and deletes of one save. An index that is out of range panics, as `rows[..]` does.
pub mod Order
pub mod Laws
use astesia.Base.{
  ℕ, ◌+◌, String, Bool, Option, none, some, List, [], ◌∷◌, Ordering, length, get_elem?, ok, err,
  ◌>>=◌, expect, ◌==◌, if◌then◌else◌,
}
use astesia.Base.OrdMap.{OrdSet}
use Prim.Native.Nat.{compare}
use astesia.Base.Order.{lex}
use astesia.Base.Sort.{sort_by}
use astesia.Grid.Types.{
  JsonValue, GridColumn, GridPage, GridCellEdit, GridDraftRow, GridUpdate, GridInsert, GridDelete,
  GridSavePlan, GridResult, QueryTarget, TableRef, missing_row_identity,
}
use astesia.Grid.Changes.{GridChangeSet, Edits}

-- `page.rows[row][column]`
unfoldable pub index_page : {V : Type 0} → GridPage V → ℕ → ℕ → GridResult V
index_page page row column = do
  values ← expect (get_elem? page.rows row)
  expect (get_elem? values column)

abbrev pub edits_of : {V : Type 0} → Edits V → List (GridCellEdit V)
edits_of [] = []
edits_of ((_, edit) ∷ m) = edit ∷ edits_of m

bit : Bool → ℕ
bit b = if b then 1 else 0

-- The key `(row, column == primary_key, column)` of `sort_by_key`.
unfoldable pub edit_cmp : {V : Type 0} → ℕ → GridCellEdit V → GridCellEdit V → Ordering
unfolding bit
edit_cmp pk a b =
    lex (compare a.row b.row)
      (lex (compare (bit (a.column == pk)) (bit (b.column == pk))) (compare a.column b.column))

unfoldable pub sort_edits : {V : Type 0} → ℕ → List (GridCellEdit V) → List (GridCellEdit V)
unfolding edit_cmp
sort_edits pk edits = sort_by (edit_cmp pk) edits

-- The cells of a draft that have a value, with the names of their columns.
unfoldable pub insert_columns : {V : Type 0} → List GridColumn → List (Option V) → List String
insert_columns (c ∷ cs) (some v ∷ vs) = c.name ∷ insert_columns cs vs
insert_columns (c ∷ cs) (none ∷ vs) = insert_columns cs vs
insert_columns _ _ = []

unfoldable pub insert_values : {V : Type 0} → List GridColumn → List (Option V) → List V
insert_values (c ∷ cs) (some v ∷ vs) = v ∷ insert_values cs vs
insert_values (c ∷ cs) (none ∷ vs) = insert_values cs vs
insert_values _ _ = []

unfoldable pub plan_inserts :
    {V : Type 0} → GridPage V → List (GridDraftRow V) → List (GridInsert V)
unfolding insert_columns insert_values
plan_inserts page [] = []
plan_inserts page (d ∷ ds) =
    record {
      draft_id = d.id;
      columns = insert_columns page.columns d.values;
      values = insert_values page.columns d.values;
    }
    ∷ plan_inserts page ds

module _ {V : Type 0} ⦃j : JsonValue V⦄ where
  unfoldable pub plan_update : GridPage V → ℕ → GridCellEdit V → GridResult (GridUpdate V)
  unfolding index_page
  plan_update page pk edit = do
    key ← index_page page edit.row pk
    if j.is_null key then err (missing_row_identity edit.row) else do
      column ← expect (get_elem? page.columns edit.column)
      ok (record {
        row = edit.row;
        primary_key_value = key;
        column = column.name;
        new_value = edit.new_value;
      })

  unfoldable pub plan_updates :
      GridPage V → ℕ → List (GridCellEdit V) → GridResult (List (GridUpdate V))
  unfolding plan_update
  plan_updates page pk [] = ok []
  plan_updates page pk (edit ∷ edits) = do
    update ← plan_update page pk edit
    updates ← plan_updates page pk edits
    ok (update ∷ updates)

  unfoldable pub plan_delete : GridPage V → ℕ → ℕ → GridResult V
  unfolding index_page
  plan_delete page pk row = do
    key ← index_page page row pk
    if j.is_null key then err (missing_row_identity row) else ok key

  unfoldable pub plan_deletes : GridPage V → ℕ → OrdSet ℕ → GridResult (List V)
  unfolding plan_delete
  plan_deletes page pk [] = ok []
  plan_deletes page pk ((row, _) ∷ rows) = do
    key ← plan_delete page pk row
    keys ← plan_deletes page pk rows
    ok (key ∷ keys)

  unfoldable pub delete_of : List V → Option (GridDelete V)
  delete_of [] = none
  delete_of (key ∷ keys) = some (record { primary_key_values = key ∷ keys })

  unfoldable pub save_plan :
      GridPage V
      → QueryTarget
      → TableRef
      → ℕ
      → String
      → GridChangeSet V
      → GridResult (GridSavePlan V)
  unfolding delete_of
  save_plan page target table pk pk_column s = do
    updates ← plan_updates page pk (sort_edits pk (edits_of s.edits))
    keys ← plan_deletes page pk s.deleted_rows
    let inserts = plan_inserts page s.drafts
    ok (record {
      target = target;
      table = table;
      primary_key_column = pk_column;
      updates = updates;
      inserts = inserts;
      delete = delete_of keys;
      operation_count = length updates + length inserts + length s.deleted_rows;
    })
