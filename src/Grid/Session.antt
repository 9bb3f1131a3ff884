-- ===== src/Grid/Session.antt =====
-- application/grid_session.rs and application/grid_session/lifecycle.rs: the session of one data
-- grid, its loads and its saves. A method returns the new session beside its result. Where the
-- source returns `Err` it has changed nothing, so an error carries no session.
pub mod Guards
pub mod Query
pub mod Save
pub mod Edit
pub mod Project
pub mod Invariant
pub mod Consistent
pub mod Drafts
pub mod Lifecycle
pub mod Navigation
pub mod Requests
pub mod Reach
pub mod Views
pub mod Saving
pub mod Results
use astesia.Base.{
  ℕ, ◌+◌, String, Bool, true, false, ◌&&◌, ◌||◌, not, Option, none, some, List, [], ◌∷◌, ◌⊎◌, inl,
  inr, ok, err, ◌>>=◌, ◌>>◌, expect, checked_succ, ◌==◌, if◌then◌else◌, str_eq,
}
use Prim.Native.String.{◌++◌}
use astesia.Base.Text.{show}
use astesia.Grid.Types.{
  GridSortDirection, ascending, descending, GridSort, GridQuery, QueryTarget, TableRef, GridPage,
  GridLoadRequest, GridSaveFailure, GridSessionError, GridResult, invalid_page_size,
  pending_changes,
}
use astesia.Grid.Changes
use astesia.Grid.Changes.{GridChangeSet}
use astesia.Grid.Selection
use astesia.Grid.Selection.{GridSelection}
use astesia.Grid.Plan

pub data GridState (V : Type 0) : Type 0 where
  idle : GridState V
  loading : ℕ → Option (GridPage V) → GridState V
  saving : ℕ → GridPage V → GridState V
  ready : GridPage V → GridState V
  failed : String → Option (GridPage V) → GridState V
  save_failed : String → GridPage V → GridState V
  unavailable : String → Option (GridPage V) → GridState V

pub data GridSessionStatus : Type 0 where
  idle loading saving ready : GridSessionStatus
  failed save_failed unavailable : String → GridSessionStatus

pub record GridSession (V : Type 0) : Type 0 where
  pub target : QueryTarget
  pub table : TableRef
  pub query : GridQuery
  pub next_load_generation : ℕ
  pub next_save_generation : ℕ
  pub state : GridState V
  pub selection : GridSelection
  pub changes : GridChangeSet V

-- `==` on queries, as the derived instances compare them.
same_filter : Option String → Option String → Bool
same_filter none none = true
same_filter (some a) (some b) = str_eq a b
same_filter _ _ = false

same_direction : GridSortDirection → GridSortDirection → Bool
same_direction ascending ascending = true
same_direction descending descending = true
same_direction _ _ = false

same_sort : List GridSort → List GridSort → Bool
unfolding same_direction
same_sort [] [] = true
same_sort (a ∷ as') (b ∷ bs) =
    str_eq a.column b.column && same_direction a.direction b.direction && same_sort as' bs
same_sort _ _ = false

unfoldable pub same_query : GridQuery → GridQuery → Bool
unfolding same_filter same_sort
same_query a b =
    a.page == b.page
    && a.page_size == b.page_size
    && same_filter a.filter b.filter
    && same_sort a.sort b.sort

-- `Display for GridSaveFailure`
unfoldable pub failure_text : GridSaveFailure → String
failure_text f =
    if f.completed_statements == 0
    then f.message
    else f.message
      ++ " (statement "
      ++ show (f.completed_statements + 1)
      ++ " of "
      ++ show f.total_statements
      ++ " failed; batch rolled back)"

module _ {V : Type 0} where
  unfoldable pub page_of : GridState V → Option (GridPage V)
  page_of idle = none
  page_of (loading _ page) = page
  page_of (failed _ page) = page
  page_of (unavailable _ page) = page
  page_of (saving _ page) = some page
  page_of (ready page) = some page
  page_of (save_failed _ page) = some page

  unfoldable pub page : GridSession V → Option (GridPage V)
  unfolding page_of
  page s = page_of s.state

  status_of : GridState V → GridSessionStatus
  status_of idle = idle
  status_of (loading _ _) = loading
  status_of (saving _ _) = saving
  status_of (ready _) = ready
  status_of (failed error _) = failed error
  status_of (save_failed error _) = save_failed error
  status_of (unavailable reason _) = unavailable reason

  unfoldable pub status : GridSession V → GridSessionStatus
  unfolding status_of
  status s = status_of s.state

  unfoldable pub new : QueryTarget → TableRef → ℕ → GridResult (GridSession V)
  new target table page_size =
      if page_size == 0
      then err invalid_page_size
      else ok (record {
        target = target;
        table = table;
        query = record { page = 1; page_size = page_size; filter = none; sort = [] };
        next_load_generation = 0;
        next_save_generation = 0;
        state = idle;
        selection = Selection.default;
        changes = Changes.default;
      })

  available : GridState V → GridResult (Unit {0})
  available (unavailable _ _) = err GridSessionError.unavailable
  available _ = ok tt

  unfoldable pub require_available : GridSession V → GridResult (Unit {0})
  unfolding available
  require_available s = available s.state

  not_busy : GridState V → GridResult (Unit {0})
  not_busy (loading _ _) = err GridSessionError.loading
  not_busy (saving _ _) = err GridSessionError.saving
  not_busy _ = ok tt

  unfoldable pub require_not_busy : GridSession V → GridResult (Unit {0})
  unfolding not_busy
  require_not_busy s = not_busy s.state

  unfoldable pub has_changes : GridSession V → Bool
  has_changes s = Changes.has_changes s.changes

  unfoldable pub require_idle_clean_session : GridSession V → GridResult (Unit {0})
  unfolding require_available require_not_busy has_changes
  require_idle_clean_session s = do
    require_available s
    require_not_busy s
    if has_changes s then err pending_changes else ok tt

  unfoldable pub clear_selection : GridSession V → GridSession V
  unfolding Selection.clear
  clear_selection s = record s { selection = (Selection.clear s.selection).0 }

  unfoldable pub invalidate_page : GridSession V → GridSession V
  unfolding clear_selection
  invalidate_page s = clear_selection (record s { state = idle })

  unfoldable pub begin_load : GridSession V → GridResult (GridSession V × GridLoadRequest)
  unfolding page require_idle_clean_session
  begin_load s = do
    require_idle_clean_session s
    generation ← expect (checked_succ s.next_load_generation)
    ok (
      record s { next_load_generation = generation; state = loading generation (page s) },
      record { generation = generation; target = s.target; table = s.table; query = s.query },
    )

  unfoldable pub loaded : GridPage V ⊎ String → Option (GridPage V) → GridSession V → GridSession V
  unfolding clear_selection
  loaded (inl new_page) old s = clear_selection (record s { state = ready new_page })
  loaded (inr error) old s = record s { state = failed error old }

  finish_loading :
      GridState V → GridLoadRequest → GridPage V ⊎ String → GridSession V → GridSession V × Bool
  unfolding loaded same_query
  finish_loading (loading generation old) request result s =
      if not (generation == request.generation) || not (same_query request.query s.query)
      then (s, false)
      else (loaded result old s, true)
  finish_loading _ request result s = (s, false)

  -- The result is that of the load: a page or a message.
  unfoldable pub finish_load :
      GridLoadRequest → GridPage V ⊎ String → GridSession V → GridSession V × Bool
  unfolding finish_loading
  finish_load request result s = finish_loading s.state request result s
