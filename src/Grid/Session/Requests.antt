-- ===== src/Grid/Session/Requests.antt =====
-- A request and its result: the result of the newest load is taken, and that of an older one is not.
use text.Mathlib.TextPositions.{eq_refl}
use astesia.Base.{
  ℕ, suc, ◌≤◌, ◌≡◌, refl, sym, subst, ap, ◌∙◌, Bool, true, false, ◌⊎◌, inl, inr, Option, none, some,
  List, [], ◌∷◌, arith, String, ok,
}
use astesia.Grid.Types.{
  GridPage, GridQuery, GridSort, GridSortDirection, GridLoadRequest, ascending, descending,
}
use astesia.Grid.Changes
use astesia.Grid.Selection
use astesia.Grid.Session.{
  GridState, GridSession, page, page_of, same_query, same_sort, same_filter, same_direction,
  begin_load, finish_load, loaded, finish_loading, invalidate_page, clear_selection,
}
use astesia.Grid.Session.Query.{set_page}
use astesia.Grid.Session.Save.{undo, is_saving}
use astesia.Grid.Session.Lifecycle.{begin_load_shape}
use astesia.Grid.Session.Navigation.{set_page_cases}

same_direction_self : (d : GridSortDirection) → same_direction d d ≡ true
unfolding same_direction
same_direction_self ascending = refl
same_direction_self descending = refl

same_sort_self : (l : List GridSort) → same_sort l l ≡ true
unfolding same_sort
same_sort_self [] = refl
same_sort_self (x ∷ l) =
    ground (arith, eq_refl x.column, same_direction_self x.direction, same_sort_self l)

same_filter_self : (f : Option String) → same_filter f f ≡ true
unfolding same_filter
same_filter_self none = refl
same_filter_self (some text) = eq_refl text

same_query_self : (q : GridQuery) → same_query q q ≡ true
unfolding same_query
same_query_self q = ground (arith, same_filter_self q.filter, same_sort_self q.sort)

module _ {V : Type 0} where
  finish_loading_mine :
      (g : ℕ) (old : Option (GridPage V)) (request : GridLoadRequest) (result : GridPage V ⊎ String)
      (s : GridSession V)
      → g ≡ request.generation
      → request.query ≡ s.query
      → finish_loading (GridState.loading g old) request result s ≡ (loaded result old s, true)
  unfolding finish_loading
  finish_loading_mine g old request result s e q =
      ground (arith, subst (λ x. same_query x s.query ≡ true) (sym q) (same_query_self s.query))

  -- The result of the load that was begun is taken.
  finish_load_taken :
      (s t : GridSession V) (request : GridLoadRequest) (result : GridPage V ⊎ String)
      → begin_load s ≡ ok (t, request)
      → finish_load request result t ≡ (loaded result (page s) t, true)
  unfolding finish_load
  finish_load_taken s t request result h =
      let (q, _, _, shape, _, _) = begin_load_shape s t request h in
      let state = ap (λ (r : GridSession V). r.state) shape in
      let query : request.query ≡ t.query = q ∙ sym (ap (λ (r : GridSession V). r.query) shape) in
      ap (λ st. finish_loading st request result t) state
      ∙ finish_loading_mine request.generation (page s) request result t refl query

  -- A load that was begun asks for the session's target, table and query, under a new generation, and
  -- its result is taken. After a page the session is ready with that page and nothing is selected;
  -- after an error it has failed with that error and keeps the page that it showed before the load.
  -- All else, the staged changes among it, is as before the load, but for the generation given out.
  pub finish_load-begin_load :
      (s t : GridSession V) (request : GridLoadRequest) (p : GridPage V) (error : String)
      → begin_load s ≡ ok (t, request)
      → (request.target ≡ s.target)
        × (request.table ≡ s.table)
        × (request.query ≡ s.query)
        × (request.generation ≡ suc s.next_load_generation)
        × (finish_load request (inl p) t ≡ (
          record s {
            next_load_generation = suc s.next_load_generation;
            state = GridState.ready p;
            selection = Selection.default;
          },
          true,
        ))
        × (finish_load request (inr error) t ≡ (
          record s {
            next_load_generation = suc s.next_load_generation;
            state = GridState.failed error (page s);
          },
          true,
        ))
  unfolding loaded clear_selection Selection.clear
  finish_load-begin_load s t request p error h =
      let (q, target, table, shape, next, _) = begin_load_shape s t request h in
      let arrived = finish_load_taken s t request (inl p) h in
      let failed = finish_load_taken s t request (inr error) h in
      (
        target,
        table,
        q,
        next,
        arrived ∙ ap (λ r. (loaded (inl p) (page s) r, true)) shape ∙ rw next refl,
        failed ∙ ap (λ r. (loaded (inr error) (page s) r, true)) shape ∙ rw next refl,
      )

  -- After a load has begun, the result of a request that was made before it changes nothing, a page
  -- as little as an error.
  pub finish_load_older :
      (s t : GridSession V) (request older : GridLoadRequest) (result : GridPage V ⊎ String)
      → begin_load s ≡ ok (t, request)
      → older.generation ≤ s.next_load_generation
      → finish_load older result t ≡ (t, false)
  unfolding finish_load finish_loading
  finish_load_older s t request older result h le =
      let (_, _, _, shape, next, _) = begin_load_shape s t request h in
      let state = ap (λ (r : GridSession V). r.state) shape in rw state (ground arith)

  undo_ready :
      (s : GridSession V) (p : GridPage V)
      → s.state ≡ GridState.ready p
      → (page (undo s).0 ≡ some p) × ((undo s).0.changes ≡ (Changes.undo s.changes).0)
  unfolding undo is_saving page page_of
  undo_ready s p e = ground arith

  arrived_ready :
      (p : GridPage V) (old : Option (GridPage V)) (s : GridSession V)
      → ((loaded (inl p) old s).state ≡ GridState.ready p)
        × ((loaded (inl p) old s).changes ≡ s.changes)
  unfolding loaded clear_selection
  arrived_ready p old s = (refl, refl)

  navigated_changes :
      (n : ℕ) (s t : GridSession V) (changed : Bool)
      → set_page n s ≡ ok (t, changed)
      → t.changes ≡ s.changes
  unfolding invalidate_page clear_selection
  navigated_changes n s t changed h = elim (set_page_cases n s t changed h) [
    | inl same ↦ ap (λ (r : GridSession V). r.changes) same
    | inr left ↦ ap (λ (r : GridSession V). r.changes) left
  ]

  -- The undo history outlives the page: after `set_page` has left a page, and a load that was begun
  -- then has brought a new one, `undo` takes back the newest entry of the former page's history, while
  -- the new page is shown.
  pub undo_after_navigation :
      (n : ℕ) (s left waiting : GridSession V) (request : GridLoadRequest) (p : GridPage V)
      → set_page n s ≡ ok (left, true)
      → begin_load left ≡ ok (waiting, request)
      → (page (undo (finish_load request (inl p) waiting).0).0 ≡ some p)
        × ((undo (finish_load request (inl p) waiting).0).0.changes ≡ (Changes.undo s.changes).0)
  undo_after_navigation n s left waiting request p h k =
      let arrived = loaded (inl p) (page left) waiting in
      let taken = finish_load_taken left waiting request (inl p) k in
      let (_, _, _, shape, _, _) = begin_load_shape left waiting request k in
      let (ready, kept) = arrived_ready p (page left) waiting in
      let (shown, undone) = undo_ready arrived p ready in
      let same : arrived.changes ≡ s.changes =
        kept ∙ ap (λ (r : GridSession V). r.changes) shape ∙ navigated_changes n s left true h in
      rw taken (shown, undone ∙ ap (λ c. (Changes.undo c).0) same)
