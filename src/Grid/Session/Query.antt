-- ===== src/Grid/Session/Query.antt =====
-- application/grid_session.rs: `set_page`, `set_query_options`, `set_filter` and
-- `invalidate_session`, the operations that make the session's page stale.
use astesia.Base.{
  ℕ, String, Bool, true, false, ◌&&◌, ◌||◌, not, Option, none, some, List, [], ◌∷◌, ok, err, ◌>>=◌,
  ◌>>◌, ok_or, ◌==◌, if◌then◌else◌, str_eq,
}
use astesia.Base.Text.{trim, is_empty}
use astesia.Grid.Types.{
  GridSort, GridColumn, GridResult, invalid_page, awaiting_data, unknown_sort_column,
  duplicate_sort_column,
}
use astesia.Grid.Session.{
  GridState, unavailable, GridSession, page, same_filter, same_sort, require_idle_clean_session,
  invalidate_page,
}

unfoldable pub has_column : List GridColumn → String → Bool
has_column [] name = false
has_column (c ∷ cs) name = str_eq c.name name || has_column cs name

has_seen : List String → String → Bool
has_seen [] name = false
has_seen (x ∷ xs) name = str_eq x name || has_seen xs name

-- The loop over the sort items; `seen` holds the columns before the item.
unfoldable pub check_sort : List GridColumn → List String → List GridSort → GridResult (Unit {0})
unfolding has_column has_seen
check_sort columns seen [] = ok tt
check_sort columns seen (item ∷ rest) =
    let others = check_sort columns (item.column ∷ seen) rest in
    if not (has_column columns item.column)
    then err (unknown_sort_column item.column)
    else if has_seen seen item.column
    then err (duplicate_sort_column item.column)
    else others

-- A filter that is blank is none.
unfoldable pub clean_filter : Option String → Option String
clean_filter none = none
clean_filter (some text) = if is_empty (trim text) then none else some (trim text)

module _ {V : Type 0} where
  is_unavailable : GridState V → Bool
  is_unavailable (unavailable _ _) = true
  is_unavailable _ = false

  unfoldable pub invalidate_session : String → ℕ → String → GridSession V → GridSession V × Bool
  unfolding is_unavailable page
  invalidate_session connection_id session_generation reason s =
      if not (str_eq s.target.connection_id connection_id)
        || not (s.target.session_generation == session_generation)
        || is_unavailable s.state
      then (s, false)
      else (record s { state = unavailable reason (page s) }, true)

  unfoldable pub set_page : ℕ → GridSession V → GridResult (GridSession V × Bool)
  set_page new_page s = if new_page == 0 then err invalid_page else do
    require_idle_clean_session s
    if s.query.page == new_page
        then ok (s, false)
        else ok (invalidate_page (record s { query = record s.query { page = new_page } }), true)

  unfoldable pub set_query_options :
      Option String → List GridSort → GridSession V → GridResult (GridSession V × Bool)
  unfolding same_filter same_sort
  set_query_options filter sort s = do
    require_idle_clean_session s
    p ← ok_or (page s) awaiting_data
    check_sort p.columns [] sort
    let new_filter = clean_filter filter
    if same_filter s.query.filter new_filter && same_sort s.query.sort sort
        then ok (s, false)
        else ok (
          invalidate_page
              (record s { query = record s.query { filter = new_filter; sort = sort; page = 1 } }),
          true,
        )

  unfoldable pub set_filter : Option String → GridSession V → GridResult (GridSession V × Bool)
  unfolding same_filter
  set_filter filter s = do
    require_idle_clean_session s
    let new_filter = clean_filter filter
    if same_filter s.query.filter new_filter
        then ok (s, false)
        else ok (
          invalidate_page (record s { query = record s.query { filter = new_filter; page = 1 } }),
          true,
        )
