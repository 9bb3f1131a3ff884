-- ===== src/Grid/Selection.antt =====
-- application/grid_session/selection.rs and `GridCellSelection`: the selected rows or cells.
pub mod Laws
use astesia.Base.{
  ℕ, zero, suc, ◌-◌, min, max, Bool, true, false, not, ◌&&◌, ◌||◌, Option, none, some, List, [],
  ◌∷◌, length, keep, is_some, ◌==◌, leb,
}
use astesia.Base.Order.{nat_ord}
use astesia.Base.OrdMap.{OrdSet, insert, remove, contains_key}
use astesia.Base.OrdMap.Sets.{insert_all}
use astesia.Grid.Types.{
  GridCell, GridCellSelection, GridRowSelectionMode, replace, toggle, extend, cell_ord,
}

pub record GridSelection : Type 0 where
  pub rows : OrdSet ℕ
  pub row_anchor : Option ℕ
  pub cells : Option GridCellSelection

abbrev pub default : GridSelection
default = record { rows = []; row_anchor = none; cells = none }

-- `count` numbers from `first` on.
unfoldable pub span : ℕ → ℕ → List ℕ
span first zero = []
span first (suc count) = first ∷ span (suc first) count

-- `(a.min(b)..=a.max(b))`
unfoldable pub between : ℕ → ℕ → List ℕ
unfolding span
between a b = span (min a b) (suc (max a b - min a b))

unfoldable pub in_range : ℕ → ℕ → ℕ → Bool
in_range a b x = leb (min a b) x && leb x (max a b)

unfoldable pub contains : GridCellSelection → GridCell → Bool
unfolding in_range
contains s cell =
    in_range s.anchor.row s.focus.row cell.row
    && in_range s.anchor.column s.focus.column cell.column

unfoldable pub top_left : GridCellSelection → GridCell
top_left s = record {
  row = min s.anchor.row s.focus.row;
  column = min s.anchor.column s.focus.column;
}

-- `==` on the row sets, and on cell selections, as the derived instances compare them.
same_rows : OrdSet ℕ → OrdSet ℕ → Bool
same_rows [] [] = true
same_rows ((a, _) ∷ s) ((b, _) ∷ t) = a == b && same_rows s t
same_rows _ _ = false

same_cell : GridCell → GridCell → Bool
same_cell a b = a.row == b.row && a.column == b.column

same_cells : Option GridCellSelection → GridCellSelection → Bool
unfolding same_cell
same_cells none t = false
same_cells (some s) t = same_cell s.anchor t.anchor && same_cell s.focus t.focus

no_rows : OrdSet ℕ → Bool
no_rows [] = true
no_rows (_ ∷ _) = false

unfoldable pub anchor_or : Option ℕ → ℕ → ℕ
anchor_or none row = row
anchor_or (some anchor) row = anchor

rows_for : GridRowSelectionMode → ℕ → OrdSet ℕ → GridSelection → OrdSet ℕ
unfolding contains_key between anchor_or
rows_for replace row deleted_rows s = insert row tt []
rows_for toggle row deleted_rows s = elim (contains_key row s.rows) [
  | true ↦ remove row s.rows
  | false ↦ insert row tt s.rows
]
rows_for extend row deleted_rows s =
    insert_all []
      (keep (λ r. not (contains_key r deleted_rows)) (between (anchor_or s.row_anchor row) row))

unfoldable pub select_row :
    ℕ → GridRowSelectionMode → OrdSet ℕ → GridSelection → GridSelection × Bool
unfolding rows_for same_rows
select_row row mode deleted_rows s =
    let rows = rows_for mode row deleted_rows s in
    (record { rows = rows; row_anchor = some row; cells = none }, not (same_rows s.rows rows))

cell_anchor : Option GridCellSelection → GridCell → GridCell
cell_anchor none cell = cell
cell_anchor (some s) cell = s.anchor

unfoldable pub select_cell : GridCell → Bool → GridSelection → GridSelection × Bool
unfolding cell_anchor same_cells no_rows
select_cell cell extending s =
    let selection : GridCellSelection = record {
      anchor = elim extending [ true ↦ cell_anchor s.cells cell | false ↦ cell ];
      focus = cell;
    } in
    (
      record { rows = []; row_anchor = none; cells = some selection },
      not (same_cells s.cells selection) || not (no_rows s.rows),
    )

unfoldable pub clear : GridSelection → GridSelection × Bool
unfolding no_rows
clear s = (default, not (no_rows s.rows) || is_some s.row_anchor || is_some s.cells)

unfoldable pub row_selected : ℕ → GridSelection → Bool
unfolding contains_key
row_selected row s = contains_key row s.rows

unfoldable pub row_count : GridSelection → ℕ
row_count s = length s.rows

unfoldable pub has_selection : GridSelection → Bool
unfolding no_rows
has_selection s = is_some s.cells || not (no_rows s.rows)
