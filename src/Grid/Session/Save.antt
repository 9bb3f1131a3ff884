-- ===== src/Grid/Session/Save.antt =====
-- application/grid_session.rs: `save_plan`, `begin_save` and `finish_save`, and what they clear.
use astesia.Base.{
  Bool, true, false, ◌||◌, not, ◌⊎◌, inl, inr, ok, err, ◌>>=◌, ok_or, expect, checked_succ, ◌==◌,
  if◌then◌else◌,
}
use astesia.Grid.Types.{
  JsonValue, GridPage, GridSaveFailure, GridSaveRequest, GridSavePlan, GridResult, awaiting_data,
  no_changes,
}
use astesia.Grid.Changes
use astesia.Grid.Plan
use astesia.Grid.Selection
use astesia.Grid.Session.{
  GridState, idle, saving, ready, save_failed, GridSession, page, has_changes, clear_selection,
  failure_text,
}
use astesia.Grid.Session.Guards.{require_editable}

module _ {V : Type 0} ⦃j : JsonValue V⦄ where
  unfoldable pub save_plan : GridSession V → GridResult (GridSavePlan V)
  save_plan s = do
    key ← require_editable s
    p ← ok_or (page s) awaiting_data
    Plan.save_plan p s.target s.table key.0 key.1 s.changes

  unfoldable pub begin_save : GridSession V → GridResult (GridSession V × GridSaveRequest V)
  begin_save s =
      if has_changes s
      then (do
        plan ← save_plan s
        generation ← expect (checked_succ s.next_save_generation)
        p ← expect (page s)
        ok (
          record s { next_save_generation = generation; state = saving generation p },
          record { generation = generation; plan = plan },
        ))
      else err no_changes

module _ {V : Type 0} where
  unfoldable pub clear_changes : GridSession V → GridSession V
  clear_changes s = record s { changes = Changes.clear s.changes }

  unfoldable pub saved : Unit {0} ⊎ GridSaveFailure → GridPage V → GridSession V → GridSession V
  unfolding clear_changes
  saved (inl _) p s = clear_selection (clear_changes (record s { state = idle }))
  saved (inr error) p s = record s { state = save_failed (failure_text error) p }

  unfoldable pub finish_saving :
      GridState V
      → GridSaveRequest V
      → Unit {0} ⊎ GridSaveFailure
      → GridSession V
      → GridSession V × Bool
  unfolding saved
  finish_saving (saving generation p) request result s =
      if not (generation == request.generation) then (s, false) else (saved result p s, true)
  finish_saving _ request result s = (s, false)

  unfoldable pub finish_save :
      GridSaveRequest V → Unit {0} ⊎ GridSaveFailure → GridSession V → GridSession V × Bool
  unfolding finish_saving
  finish_save request result s = finish_saving s.state request result s

  unfoldable pub is_saving : GridState V → Bool
  is_saving (saving _ _) = true
  is_saving _ = false

  unfoldable pub undo : GridSession V → GridSession V × Bool
  unfolding is_saving
  undo s =
      if is_saving s.state
      then (s, false)
      else (let (changes, done) = Changes.undo s.changes in (record s { changes = changes }, done))

  unfoldable pub settled : GridState V → GridState V
  settled (save_failed _ p) = ready p
  settled state = state

  unfoldable pub discard_changes : GridSession V → GridSession V × Bool
  unfolding is_saving settled
  discard_changes s = if is_saving s.state then (s, false) else (
    record s {
      changes = Changes.clear s.changes;
      state = settled s.state;
      selection = (Selection.clear s.selection).0;
    },
    Changes.has_changes s.changes || Changes.has_history s.changes,
  )
