-- ===== src/Grid/Tests/Sessions.antt =====
-- The theorems on sessions at concrete inputs.
use astesia.Base.{
  get_elem?, ℕ, ◌≡◌, ◌≢◌, refl, true, false, ◌⊎◌, inl, inr, Option, none, some, [], ◌∷◌, arith, ok,
  err, length, checked_succ,
}
use astesia.Base.OrdMap.{insert}
use astesia.Base.Sort.{sort_by}
use astesia.Db.Engine.{DbType, capabilities}
use astesia.Grid.Types.{
  GridQuery, GridPage, GridColumn, GridSavePlan, missing_row_identity, GridSaveRequest,
  GridSaveFailure,
}
use astesia.Grid.Changes
use astesia.Grid.Changes.{GridChangeSet, StagedChanges, GridHistory, empty, push, cell}
use astesia.Grid.Plan
use astesia.Grid.Plan.Laws.{HasKey, IsKeyless, IsTouched}
use astesia.Grid.Selection
use astesia.Grid.Session.{
  GridSession, GridState, same_query, require_idle_clean_session, invalidate_page, page, new,
  require_available, require_not_busy, begin_load, finish_load, loaded, failure_text, has_changes,
}
use astesia.Grid.Session.Query.{set_page}
use astesia.Grid.Session.Guards.{require_editable, editability, writes_rows, require_cell}
use astesia.Grid.Session.Guards.Keys.{keys, require_editable_key}
use astesia.Grid.Session.Edit
use astesia.Grid.Session.Save.{save_plan, begin_save, finish_save, saved, undo, is_saving}
use astesia.Grid.Session.Views.{can_undo, undo_cases}
use astesia.Grid.Session.Results.{finish_save_cases, finish_save-begin_save}
use astesia.Grid.Session.Invariant.{IsConsistent, IsClean}
use astesia.Grid.Session.Lifecycle.{finish_load_cases}
use astesia.Grid.Session.Requests.{finish_load-begin_load, finish_load_older, undo_after_navigation}
use astesia.Grid.Session.Reach.{load, loads, stages, Reach, here, next, Reach-IsConsistent}
use astesia.Grid.Session.Saving.{undo_times, undo_all, save_plan-IsConsistent}
use astesia.Grid.Tests.{
  nat_json, at, two_rows, target, table, query, nothing, fresh, request, waiting, shown, one_edit,
  edited,
}

new-fresh : new target table 2 ≡ ok fresh
unfolding new
new-fresh = refl

begin_fresh : begin_load fresh ≡ ok (waiting, request 1 query)
unfolding begin_load checked_succ Changes.has_changes
begin_fresh = refl

load_shown : shown ≡ (finish_load (request 1 query) (inl two_rows) waiting).0
unfolding finish_load
load_shown = refl

stage_one : Edit.stage_cell_value (at 0 1) 31 shown ≡ ok (edited, true)
unfolding Edit.stage_cell_value Changes.stage_cell_value require_editable Edit.prepare_cell
    require_available require_not_busy editability writes_rows capabilities page require_cell
    Changes.is_row_deleted Changes.page_value insert
stage_one = refl

no_history : Changes.has_history nothing ≡ false
unfolding Changes.has_history
no_history = refl

Reach-edited : Reach fresh edited
Reach-edited =
    next
      (next (next here (load (request 1 query) begin_fresh))
        (loads (request 1 query) (inl two_rows) ((refl, (refl, tt)), no_history) load_shown))
      (stages (at 0 1) 31 true stage_one)

Reach-IsConsistent_example : IsConsistent edited
Reach-IsConsistent_example = Reach-IsConsistent target table 2 fresh edited new-fresh Reach-edited

editable_edited : require_editable edited ≡ ok (0, "id")
unfolding require_editable require_available require_not_busy editability writes_rows capabilities
    page
editable_edited = refl

save_plan-IsConsistent_example :
    (p : GridPage ℕ) × (page edited ≡ some p)
    × (((plan : GridSavePlan ℕ) × (save_plan edited ≡ ok plan)
          × (length plan.updates ≡ 1)
          × (length plan.inserts ≡ 0)
          × (plan.operation_count ≡ 1)
          × (HasKey p 0 0 × Unit {0})
          × Unit {0})
        ⊎ ((row : ℕ) × (save_plan edited ≡ err (missing_row_identity row))
            × IsKeyless p 0 row
            × IsTouched one_edit row))
save_plan-IsConsistent_example =
    save_plan-IsConsistent edited (0, "id") Reach-IsConsistent_example editable_edited

edited_calm : is_saving edited.state ≡ false
unfolding is_saving
edited_calm = refl

undo_all_example :
    IsClean (undo_times 1 edited).changes
    × (undo_times 1 edited ≡ record edited { changes = (undo_times 1 edited).changes })
    × (undo (undo_times 1 edited) ≡ (undo_times 1 edited, false))
unfolding Changes.height
undo_all_example = undo_all target table 2 fresh edited new-fresh Reach-edited edited_calm

finish_load_cases_example :
    ((old : Option (GridPage ℕ)) × (GridState.loading 1 none ≡ GridState.loading 1 old)
      × (same_query query query ≡ true)
      × (finish_load (request 1 query) (inl two_rows) waiting
          ≡ (loaded (inl two_rows) old waiting, true)))
    ⊎ (((old : Option (GridPage ℕ))
          → GridState.loading 1 none ≡ GridState.loading 1 old
          → same_query query query ≡ false)
        × (finish_load (request 1 query) (inl two_rows) waiting ≡ (waiting, false)))
finish_load_cases_example = finish_load_cases (request 1 query) (inl two_rows) waiting

finish_load-begin_load_example :
    ((request 1 query).target ≡ target)
    × ((request 1 query).table ≡ table)
    × ((request 1 query).query ≡ query)
    × ((request 1 query).generation ≡ 1)
    × (finish_load (request 1 query) (inl two_rows) waiting ≡ (
      record fresh {
        next_load_generation = 1;
        state = GridState.ready two_rows;
        selection = Selection.default;
      },
      true,
    ))
    × (finish_load (request 1 query) (inr "gone") waiting
        ≡ (record fresh { next_load_generation = 1; state = GridState.failed "gone" none }, true))
unfolding page
finish_load-begin_load_example =
    finish_load-begin_load fresh waiting (request 1 query) two_rows "gone" begin_fresh

finish_load_older_example : finish_load (request 0 query) (inl two_rows) waiting ≡ (waiting, false)
finish_load_older_example =
    finish_load_older fresh waiting (request 1 query) (request 0 query) (inl two_rows) begin_fresh
      (omega arith)

-- A value was staged, and then the original again: nothing is staged, but the history has both.
abbrev put_back : GridSession ℕ
put_back = record shown {
  changes = record {
    next_draft_id = 0;
    staged = Changes.nothing_staged;
    history =
        push (cell (at 0 1) (some (Changes.new_edit (at 0 1) 30 31)))
          (push (cell (at 0 1) none) empty);
  };
}

abbrev second_page : GridQuery
second_page = record query { page = 2 }

abbrev left_page : GridSession ℕ
left_page = record put_back { query = second_page; state = GridState.idle }

abbrev waiting_again : GridSession ℕ
waiting_again = record left_page { next_load_generation = 2; state = GridState.loading 2 none }

leave : set_page 2 put_back ≡ ok (left_page, true)
unfolding set_page require_idle_clean_session Changes.has_changes invalidate_page
leave = refl

begin_again : begin_load left_page ≡ ok (waiting_again, request 2 second_page)
unfolding begin_load checked_succ Changes.has_changes
begin_again = refl

undo_after_navigation_example :
    (page (undo (finish_load (request 2 second_page) (inl two_rows) waiting_again).0).0
      ≡ some two_rows)
    × ((undo (finish_load (request 2 second_page) (inl two_rows) waiting_again).0).0.changes
        ≡ (Changes.undo put_back.changes).0)
undo_after_navigation_example =
    undo_after_navigation 2 put_back left_page waiting_again (request 2 second_page) two_rows leave
      begin_again

abbrev failure : GridSaveFailure
failure = record {
  completed_statements = 0;
  total_statements = 1;
  message = "locked";
  recovery_sql = none;
}

abbrev save_request : GridSaveRequest ℕ
save_request = record {
  generation = 1;
  plan = record {
    target = target;
    table = table;
    primary_key_column = "id";
    updates = record { row = 0; primary_key_value = 1; column = "age"; new_value = 31 } ∷ [];
    inserts = [];
    delete = none;
    operation_count = 1;
  };
}

abbrev saving_edited : GridSession ℕ
saving_edited = record edited { next_save_generation = 1; state = GridState.saving 1 two_rows }

begin_edited : begin_save edited ≡ ok (saving_edited, save_request)
unfolding begin_save checked_succ Changes.has_changes save_plan require_editable require_available
    require_not_busy editability writes_rows capabilities page Plan.save_plan Plan.plan_updates
    Plan.sort_edits Plan.plan_deletes Plan.plan_inserts has_changes sort_by
begin_edited = refl

finish_save-begin_save_example :
    (p : GridPage ℕ) × (page edited ≡ some p)
    × (finish_save save_request (inr failure) saving_edited ≡ (
      record edited {
        next_save_generation = 1;
        state = GridState.save_failed (failure_text failure) p;
      },
      true,
    ))
    × IsClean (finish_save save_request (inl tt) saving_edited).0.changes
    × ((finish_save save_request (inl tt) saving_edited).0.state ≡ GridState.idle)
    × ((finish_save save_request (inl tt) saving_edited).1 ≡ true)
finish_save-begin_save_example =
    finish_save-begin_save edited saving_edited save_request failure begin_edited

finish_save_cases_example :
    ((p : GridPage ℕ) × (GridState.saving 1 two_rows ≡ GridState.saving 1 p)
      × (finish_save save_request (inr failure) saving_edited
          ≡ (saved (inr failure) p saving_edited, true)))
    ⊎ (((p : GridPage ℕ) → GridState.saving 1 two_rows ≢ GridState.saving 1 p)
        × (finish_save save_request (inr failure) saving_edited ≡ (saving_edited, false)))
finish_save_cases_example = finish_save_cases save_request (inr failure) saving_edited

undo_cases_example :
    ((can_undo edited ≡ true) × ((undo edited).1 ≡ true))
    ⊎ ((can_undo edited ≡ false) × (undo edited ≡ (edited, false)))
undo_cases_example = undo_cases edited

require_editable_key_example :
    (writes_rows (capabilities DbType.mysql) ≡ true)
    × ((p : GridPage ℕ) × (page edited ≡ some p)
        × (length (keys p.columns) ≡ 1)
        × (c : GridColumn) × (get_elem? p.columns 0 ≡ some c)
        × (c.is_primary_key ≡ true)
        × (c.name ≡ "id"))
require_editable_key_example = require_editable_key edited (0, "id") editable_edited
