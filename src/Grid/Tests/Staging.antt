-- ===== src/Grid/Tests/Staging.antt =====
-- The theorems on the change set, the selection, the page and the plan at concrete inputs.
use mathlib.Core.List.{Perm}
use astesia.Base.{
  ℕ, ◌<◌, ◌≡◌, ◌≢◌, get_elem?, refl, true, ◌⊎◌, Option, none, some, List, [], ◌∷◌, arith, ok, err,
  length, checked_succ,
}
use astesia.Base.OrdMap.{get}
use astesia.Grid.Types.{
  GridPage, GridCell, GridCellEdit, GridSavePlan, missing_row_identity, invalid_page_shape,
}
use astesia.Grid.Drafts
use astesia.Grid.Changes
use astesia.Grid.Changes.{
  GridChangeSet, StagedChanges, GridHistory, empty, push, cell, nothing_staged,
}
use astesia.Grid.Changes.Undo.{undo-stage_cell_value, undo-delete_rows}
use astesia.Grid.Changes.Batch.{undo-stage_cell_values}
use astesia.Grid.Changes.Invariant.{IsWellFormed}
use astesia.Grid.Selection.{GridSelection}
use astesia.Grid.Page
use astesia.Grid.Plan
use astesia.Base.Sort.{sort_by}
use astesia.Grid.Plan.Order.{IsInSaveOrder, AreUpdatesOf, save_plan_updates}
use astesia.Grid.Plan.Laws.{IsRectangular, HasKey, IsKeyless, IsTouched, save_plan_total}
use astesia.Grid.Tests.{nat_json, at, two_rows, two_rows_info, target, table, nothing, one_edit}

abbrev two_cells : List (GridCell × ℕ × ℕ)
two_cells = (at 0 1, 30, 31) ∷ (at 1 1, 40, 41) ∷ []

undo-stage_cell_values_example :
    (((Changes.stage_cell_values two_cells nothing).1 ≡ 0)
      × ((Changes.stage_cell_values two_cells nothing).0 ≡ nothing))
    ⊎ ((0 < (Changes.stage_cell_values two_cells nothing).1)
        × (Changes.undo (Changes.stage_cell_values two_cells nothing).0 ≡ (nothing, true)))
undo-stage_cell_values_example = undo-stage_cell_values two_cells nothing tt

stage_changes : (Changes.stage_cell_value (at 0 1) 30 31 nothing).1 ≡ true
unfolding Changes.stage_cell_value get
stage_changes = refl

undo-stage_cell_value_example :
    Changes.undo (Changes.stage_cell_value (at 0 1) 30 31 nothing).0 ≡ (nothing, true)
undo-stage_cell_value_example = undo-stage_cell_value (at 0 1) 30 31 nothing tt stage_changes

abbrev with_draft : Option ℕ → GridHistory ℕ → GridChangeSet ℕ
with_draft v h = record {
  next_draft_id = 1;
  staged = record {
    edits = [];
    drafts = record { id = 1; values = none ∷ v ∷ [] } ∷ [];
    deleted_rows = [];
  };
  history = h;
}

abbrev drafted : GridChangeSet ℕ
drafted = with_draft none (push (Changes.draft_added 1) empty)

abbrev written : GridChangeSet ℕ
written =
    with_draft (some 5) (push (Changes.draft_cell 1 1 none) (push (Changes.draft_added 1) empty))

abbrev unwritten : GridChangeSet ℕ
unwritten = with_draft none (
    push (Changes.draft_cell 1 1 (some 5))
      (push (Changes.draft_cell 1 1 none) (push (Changes.draft_added 1) empty)))

insert_one : Changes.insert_draft 2 nothing ≡ ok (drafted, 1)
unfolding Changes.insert_draft checked_succ
insert_one = refl

set_one : Changes.set_draft_value 1 1 5 drafted ≡ ok (written, true)
unfolding Changes.set_draft_value Drafts.find Drafts.write
set_one = refl

unset_one : Changes.unset_draft_value 1 1 written ≡ ok (unwritten, true)
unfolding Changes.unset_draft_value Drafts.find Drafts.write
unset_one = refl

abbrev removed : GridChangeSet ℕ
removed = record drafted {
  staged = Changes.nothing_staged;
  history =
      push (Changes.draft_removed 0 (record { id = 1; values = none ∷ none ∷ [] }))
        (push (Changes.draft_added 1) empty);
}

remove_one : Changes.remove_draft 1 drafted ≡ ok removed
unfolding Changes.remove_draft Drafts.position Drafts.remove_at
remove_one = refl

undo-delete_rows_example :
    Changes.undo (Changes.delete_rows (0 ∷ 1 ∷ []) one_edit) ≡ (one_edit, true)
unfolding get
undo-delete_rows_example =
    undo-delete_rows (0 ∷ 1 ∷ []) one_edit (tt, tt) tt ((refl, tt), (tt, tt)) (refl, (refl, tt))

abbrev rows_1 : GridSelection
rows_1 = record { rows = (1, tt) ∷ []; row_anchor = some 1; cells = none }

abbrev two_edits : List (GridCellEdit ℕ)
two_edits = Changes.new_edit (at 0 0) 1 7 ∷ Changes.new_edit (at 0 1) 30 31 ∷ []

abbrev key_and_age : GridChangeSet ℕ
key_and_age = record nothing {
  staged = record nothing_staged {
    edits =
        (at 0 0, Changes.new_edit (at 0 0) 1 7) ∷ (at 0 1, Changes.new_edit (at 0 1) 30 31) ∷ [];
  };
}

abbrev key_last : GridSavePlan ℕ
key_last = record {
  target = target;
  table = table;
  primary_key_column = "id";
  updates =
      record { row = 0; primary_key_value = 1; column = "age"; new_value = 31 }
      ∷ record { row = 0; primary_key_value = 1; column = "id"; new_value = 7 }
      ∷ [];
  inserts = [];
  delete = none;
  operation_count = 2;
}

plan_key_last : Plan.save_plan two_rows target table 0 "id" key_and_age ≡ ok key_last
unfolding Plan.save_plan Plan.plan_updates Plan.sort_edits Plan.plan_deletes Plan.plan_inserts
    sort_by
plan_key_last = refl

save_plan_updates_example :
    (es : List (GridCellEdit ℕ)) × Perm es two_edits
    × IsInSaveOrder 0 es
    × AreUpdatesOf two_rows 0 es key_last.updates
save_plan_updates_example =
    save_plan_updates two_rows 0 target table "id" key_and_age key_last plan_key_last

one_edit-IsWellFormed : IsWellFormed 2 2 0 one_edit.staged
one_edit-IsWellFormed = record {
  edits_sorted = (tt, tt);
  edits_in = (
    record { row_in = omega arith; column_in = omega arith; own_row = refl; own_column = refl },
    tt,
  );
  deleted_sorted = tt;
  deleted_in = tt;
  drafts_below = tt;
  drafts_wide = tt;
}

save_plan_total_example :
    ((plan : GridSavePlan ℕ) × (Plan.save_plan two_rows target table 0 "id" one_edit ≡ ok plan)
      × (length plan.updates ≡ 1)
      × (length plan.inserts ≡ 0)
      × (plan.operation_count ≡ 1)
      × (HasKey two_rows 0 0 × Unit {0})
      × Unit {0})
    ⊎ ((row : ℕ) × (Plan.save_plan two_rows target table 0 "id" one_edit
          ≡ err (missing_row_identity row))
        × IsKeyless two_rows 0 row
        × IsTouched one_edit row)
save_plan_total_example =
    save_plan_total two_rows 0 target table "id" one_edit 0 (refl, (refl, tt)) (omega arith)
      one_edit-IsWellFormed

new_cases_example :
    ((p : GridPage ℕ) × (Page.new (two_rows_info) two_rows.rows (some 2) ≡ ok p)
      × IsRectangular p
      × (p.rows ≡ two_rows.rows)
      × (length p.columns ≡ 2))
    ⊎ ((row : ℕ) × (values : List ℕ) × (get_elem? two_rows.rows row ≡ some values)
        × (length values ≢ 2)
        × (Page.new (two_rows_info) two_rows.rows (some 2)
            ≡ err (invalid_page_shape row 2 (length values))))
new_cases_example = Page.new_cases two_rows_info two_rows.rows (some 2)
