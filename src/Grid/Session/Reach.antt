-- ===== src/Grid/Session/Reach.antt =====
-- The calls of a session as steps, and what holds after any sequence of them.
use astesia.Base.{ℕ, ◌≡◌, refl, Bool, false, ◌⊎◌, Option, List, arith, String, ok}
use astesia.Grid.Types.{
  JsonValue, GridPage, GridCell, GridSort, GridRowSelectionMode, GridLoadRequest, GridSaveRequest,
  GridSaveFailure, QueryTarget, TableRef,
}
use astesia.Grid.Changes
use astesia.Grid.Selection
use astesia.Grid.Selection.Laws.{default-IsSelectionOf}
use astesia.Grid.Session.{GridState, page_of, GridSession, new, begin_load, finish_load}
use astesia.Grid.Session.Query.{set_page, set_filter, set_query_options, invalidate_session}
use astesia.Grid.Session.Save.{begin_save, finish_save, undo, discard_changes}
use astesia.Grid.Session.Edit.{
  select_row, select_cell, stage_cell_value, stage_cell_values, stage_insert, set_draft_value,
  unset_draft_value, remove_draft, stage_delete_selection,
}
use astesia.Grid.Session.Invariant.{IsConsistent}
use astesia.Grid.Session.Consistent.{
  select_row-IsConsistent, select_cell-IsConsistent, stage_cell_value-IsConsistent,
  stage_cell_values-IsConsistent,
}
use astesia.Grid.Session.Drafts.{
  set_draft_value-IsConsistent, unset_draft_value-IsConsistent, stage_insert-IsConsistent,
  remove_draft-IsConsistent, stage_delete_selection-IsConsistent, undo-IsConsistent,
  discard_changes-IsConsistent,
}
use astesia.Grid.Session.Lifecycle.{MayArrive, begin_load-IsConsistent, finish_load-IsConsistent}
use astesia.Grid.Session.Navigation.{
  set_page-IsConsistent, set_filter-IsConsistent, set_query_options-IsConsistent,
  invalidate_session-IsConsistent, begin_save-IsConsistent, finish_save-IsConsistent,
}

module _ {V : Type 0} ⦃j : JsonValue V⦄ where
  -- One call that returned. A page is left, or a new one arrives, only where there is no undo
  -- history; the program does not check that.
  pub data Step (s t : GridSession V) : Type 0 where
    load : (r : GridLoadRequest) → begin_load s ≡ ok (t, r) → Step s t
    loads :
        (r : GridLoadRequest) (result : GridPage V ⊎ String)
        → MayArrive result s
        → t ≡ (finish_load r result s).0
        → Step s t
    save : (r : GridSaveRequest V) → begin_save s ≡ ok (t, r) → Step s t
    saves :
        (r : GridSaveRequest V) (result : Unit {0} ⊎ GridSaveFailure)
        → t ≡ (finish_save r result s).0
        → Step s t
    invalidates :
        (id : String) (generation : ℕ) (reason : String)
        → t ≡ (invalidate_session id generation reason s).0
        → Step s t
    pages :
        (n : ℕ) (b : Bool)
        → set_page n s ≡ ok (t, b)
        → Changes.has_history s.changes ≡ false
        → Step s t
    filters :
        (f : Option String) (b : Bool)
        → set_filter f s ≡ ok (t, b)
        → Changes.has_history s.changes ≡ false
        → Step s t
    queries :
        (f : Option String) (sort : List GridSort) (b : Bool)
        → set_query_options f sort s ≡ ok (t, b)
        → Changes.has_history s.changes ≡ false
        → Step s t
    selects_row :
        (row : ℕ) (mode : GridRowSelectionMode) (b : Bool)
        → select_row row mode s ≡ ok (t, b)
        → Step s t
    selects_cell : (c : GridCell) (e b : Bool) → select_cell c e s ≡ ok (t, b) → Step s t
    stages : (c : GridCell) (v : V) (b : Bool) → stage_cell_value c v s ≡ ok (t, b) → Step s t
    stages_all : (vs : List (GridCell × V)) (n : ℕ) → stage_cell_values vs s ≡ ok (t, n) → Step s t
    inserts : (id : ℕ) → stage_insert s ≡ ok (t, id) → Step s t
    sets : (id column : ℕ) (v : V) (b : Bool) → set_draft_value id column v s ≡ ok (t, b) → Step s t
    unsets : (id column : ℕ) (b : Bool) → unset_draft_value id column s ≡ ok (t, b) → Step s t
    removes : (id : ℕ) (b : Bool) → remove_draft id s ≡ ok (t, b) → Step s t
    deletes : (b : Bool) → stage_delete_selection s ≡ ok (t, b) → Step s t
    undoes : t ≡ (undo s).0 → Step s t
    discards : t ≡ (discard_changes s).0 → Step s t

  pub data Reach (s : GridSession V) : GridSession V → Type 0 where
    here : Reach s s
    next : {t u : GridSession V} → Reach s t → Step t u → Reach s u

  Step-IsConsistent : (s t : GridSession V) → Step s t → IsConsistent s → IsConsistent t
  Step-IsConsistent s t (load r h) v = begin_load-IsConsistent s t r h v
  Step-IsConsistent s t (loads r result m e) v = rw e (finish_load-IsConsistent r result s m v)
  Step-IsConsistent s t (save r h) v = begin_save-IsConsistent s t r h v
  Step-IsConsistent s t (saves r result e) v = rw e (finish_save-IsConsistent r result s v)
  Step-IsConsistent s t (invalidates id g reason e) v =
      rw e (invalidate_session-IsConsistent id g reason s v)
  Step-IsConsistent s t (pages n b h c) v = set_page-IsConsistent n s t b h c v
  Step-IsConsistent s t (filters f b h c) v = set_filter-IsConsistent f s t b h c v
  Step-IsConsistent s t (queries f sort b h c) v = set_query_options-IsConsistent f sort s t b h c v
  Step-IsConsistent s t (selects_row row mode b h) v = select_row-IsConsistent row mode s t b h v
  Step-IsConsistent s t (selects_cell c e b h) v = select_cell-IsConsistent c e s t b h v
  Step-IsConsistent s t (stages c x b h) v = stage_cell_value-IsConsistent c x s t b h v
  Step-IsConsistent s t (stages_all vs n h) v = stage_cell_values-IsConsistent vs s t n h v
  Step-IsConsistent s t (inserts id h) v = stage_insert-IsConsistent s t id h v
  Step-IsConsistent s t (sets id column x b h) v =
      set_draft_value-IsConsistent id column x s t b h v
  Step-IsConsistent s t (unsets id column b h) v =
      unset_draft_value-IsConsistent id column s t b h v
  Step-IsConsistent s t (removes id b h) v = remove_draft-IsConsistent id s t b h v
  Step-IsConsistent s t (deletes b h) v = stage_delete_selection-IsConsistent s t b h v
  Step-IsConsistent s t (undoes e) v = rw e (undo-IsConsistent s v)
  Step-IsConsistent s t (discards e) v = rw e (discard_changes-IsConsistent s v)

  Reach-keeps : {s t : GridSession V} → Reach s t → IsConsistent s → IsConsistent t
  Reach-keeps here v = v
  Reach-keeps (next {t} {u} r st) v = Step-IsConsistent t u st (Reach-keeps r v)

  new_shape :
      (target : QueryTarget) (table : TableRef) (size : ℕ) (s : GridSession V)
      → new target table size ≡ ok s
      → (s.state ≡ GridState.idle)
        × (s.changes ≡ Changes.default)
        × (s.selection ≡ Selection.default)
  unfolding new
  new_shape target table size s h = ground arith

  new-IsConsistent :
      (target : QueryTarget) (table : TableRef) (size : ℕ) (s : GridSession V)
      → new target table size ≡ ok s
      → IsConsistent s
  unfolding page_of
  new-IsConsistent target table size s h =
      let (idle, changes, selection) = new_shape target table size s h in
      rw (idle, changes, selection)
        (record { none_staged = refl; no_history = refl }, default-IsSelectionOf 0)

  -- After any sequence of calls on a new session the staged changes, the undo history and the
  -- selection belong to the page that is shown; where no page is shown, nothing is staged and there is
  -- no history. This is where the calls leave a page, or take a new one, only without an undo history,
  -- and where each page that arrives is rectangular.
  pub Reach-IsConsistent :
      (target : QueryTarget) (table : TableRef) (size : ℕ) (s t : GridSession V)
      → new target table size ≡ ok s
      → Reach s t
      → IsConsistent t
  Reach-IsConsistent target table size s t h r =
      Reach-keeps r (new-IsConsistent target table size s h)
