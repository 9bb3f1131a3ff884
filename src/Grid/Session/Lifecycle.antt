-- ===== src/Grid/Session/Lifecycle.antt =====
-- Loads, saves and navigation: which requests a session accepts, and that each keeps it consistent.
use astesia.Base.{
  ℕ, suc, ◌≡◌, refl, sym, subst, ap, Bool, true, false, ◌⊎◌, inl, inr, Option, arith, String,
  length, ok, checked_succ, Bool-cases, ◌==◌, ==_iff,
}
use astesia.Grid.Types.{GridPage, GridLoadRequest}
use astesia.Grid.Changes
use astesia.Grid.Changes.{GridChangeSet}
use astesia.Grid.Plan.Laws.{IsRectangular}
use astesia.Grid.Selection.Laws.{clear-IsSelectionOf}
use astesia.Grid.Session.{
  GridState, GridSession, page, page_of, has_changes, same_query, begin_load, finish_load,
  clear_selection, loaded, finish_loading,
}
use astesia.Grid.Session.Invariant.{IsClean-Fits, IsConsistent, BelongsTo-IsClean}

module _ {V : Type 0} where
  -- The page, the changes and the selection are as they were.
  keep-IsConsistent :
      (s t : GridSession V)
      → page_of t.state ≡ page_of s.state
      → t.changes ≡ s.changes
      → t.selection ≡ s.selection
      → IsConsistent s
      → IsConsistent t
  keep-IsConsistent s t p c e v = rw (p, c, e) v

  loading_page :
      (s : GridSession V) (g : ℕ) (old : Option (GridPage V))
      → s.state ≡ GridState.loading g old
      → page_of s.state ≡ old
  unfolding page_of
  loading_page s g old e = rw e refl

  pub begin_load_shape :
      (s t : GridSession V) (request : GridLoadRequest)
      → begin_load s ≡ ok (t, request)
      → (request.query ≡ s.query)
        × (request.target ≡ s.target)
        × (request.table ≡ s.table)
        × (t ≡ record s {
          next_load_generation = request.generation;
          state = GridState.loading request.generation (page s);
        })
        × (request.generation ≡ suc s.next_load_generation)
        × (has_changes s ≡ false)
  unfolding begin_load checked_succ
  begin_load_shape s t request h = ground arith

  pub begin_load-IsConsistent :
      (s t : GridSession V) (request : GridLoadRequest)
      → begin_load s ≡ ok (t, request)
      → IsConsistent s
      → IsConsistent t
  unfolding page page_of
  begin_load-IsConsistent s t request h v =
      let (_, _, _, shape, _, _) = begin_load_shape s t request h in
      subst IsConsistent (sym shape) v

  finishing_cases :
      (state : GridState V) (request : GridLoadRequest) (result : GridPage V ⊎ String)
      (s : GridSession V)
      → ((old : Option (GridPage V)) × (state ≡ GridState.loading request.generation old)
          × (same_query request.query s.query ≡ true)
          × (finish_loading state request result s ≡ (loaded result old s, true)))
        ⊎ (((old : Option (GridPage V))
              → state ≡ GridState.loading request.generation old
              → same_query request.query s.query ≡ false)
            × (finish_loading state request result s ≡ (s, false)))
  unfolding finish_loading
  finishing_cases (GridState.loading g old) request result s =
      elim (Bool-cases (g == request.generation)) [
        | inr other ↦ inr (λ _ e. absurd (ground arith), ground arith)
        | inl mine ↦ elim (Bool-cases (same_query request.query s.query)) [
          | inl fresh ↦ inl (
            old,
            ap (λ n. GridState.loading n old) ((==_iff g request.generation).0 mine),
            fresh,
            ground arith,
          )
          | inr stale ↦ inr (λ _ _. stale, ground arith)
        ]
      ]
  finishing_cases _ request result s = inr (λ _ e. absurd (cc), refl)

  -- A load result is taken exactly when the session waits for this request, under the query that
  -- it still has. Any other result changes nothing.
  pub finish_load_cases :
      (request : GridLoadRequest) (result : GridPage V ⊎ String) (s : GridSession V)
      → ((old : Option (GridPage V)) × (s.state ≡ GridState.loading request.generation old)
          × (same_query request.query s.query ≡ true)
          × (finish_load request result s ≡ (loaded result old s, true)))
        ⊎ (((old : Option (GridPage V))
              → s.state ≡ GridState.loading request.generation old
              → same_query request.query s.query ≡ false)
            × (finish_load request result s ≡ (s, false)))
  unfolding finish_load
  finish_load_cases request result s = finishing_cases s.state request result s

  -- A page that arrives has to be rectangular, and finds no undo history.
  abbrev pub MayArrive : GridPage V ⊎ String → GridSession V → Type 0
  MayArrive (inl p) s = IsRectangular p × (Changes.has_history s.changes ≡ false)
  MayArrive (inr _) s = Unit

  loaded-IsConsistent :
      (result : GridPage V ⊎ String) (old : Option (GridPage V)) (s : GridSession V)
      → page_of s.state ≡ old
      → MayArrive result s
      → IsConsistent s
      → IsConsistent (loaded result old s)
  unfolding loaded clear_selection page_of
  loaded-IsConsistent (inl p) old s e m v = (
    m.0,
    IsClean-Fits _ _ s.changes (BelongsTo-IsClean _ s.changes s.selection m.1 v),
    clear-IsSelectionOf (length p.rows) s.selection,
  )
  loaded-IsConsistent (inr error) old s e m v = rw (← e) v

  pub finish_load-IsConsistent :
      (request : GridLoadRequest) (result : GridPage V ⊎ String) (s : GridSession V)
      → MayArrive result s
      → IsConsistent s
      → IsConsistent (finish_load request result s).0
  finish_load-IsConsistent request result s m v = elim (finish_load_cases request result s) [
    | inl (old, waits, _, taken) ↦
        subst (λ (r : GridSession V × Bool). IsConsistent r.0) (sym taken)
          (loaded-IsConsistent result old s (loading_page s request.generation old waits) m v)
    | inr (_, ignored) ↦ subst (λ (r : GridSession V × Bool). IsConsistent r.0) (sym ignored) v
  ]
