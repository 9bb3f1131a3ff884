-- ===== src/Grid/Session/Navigation.antt =====
-- Navigation, saves and invalidation keep the session consistent, where there is no undo history
-- when the page is left.
use astesia.Base.{
  ℕ, ◌≡◌, refl, sym, subst, Bool, false, ◌⊎◌, inl, inr, Option, some, List, [], arith, String, ok,
  >>=-eq-ok, ok_or, Bool-cases, Option-cases, ◌==◌,
}
use astesia.Grid.Types.{
  JsonValue, GridPage, GridSort, GridSaveRequest, GridSaveFailure, GridSessionError,
}
use astesia.Grid.Changes
use astesia.Grid.Changes.{GridChangeSet}
use astesia.Grid.Selection.Laws.{clear-IsSelectionOf}
use astesia.Grid.Session.{
  GridState, GridSession, page, page_of, require_idle_clean_session, clear_selection,
  invalidate_page,
}
use astesia.Grid.Session.Query.{
  set_page, set_filter, set_query_options, invalidate_session, clean_filter, check_sort,
}
use astesia.Grid.Session.Save.{begin_save, finish_save, clear_changes, saved, finish_saving}
use astesia.Grid.Session.Invariant.{IsConsistent, BelongsTo, BelongsTo-IsClean}

module _ {V : Type 0} where
  -- Leaving the page, with no undo history.
  invalidated :
      (s t : GridSession V)
      → t.changes ≡ s.changes
      → Changes.has_history s.changes ≡ false
      → IsConsistent s
      → IsConsistent (invalidate_page t)
  unfolding invalidate_page clear_selection page_of
  invalidated s t c clean v =
      (rw c (BelongsTo-IsClean _ s.changes s.selection clean v), clear-IsSelectionOf 0 t.selection)

  pub set_page_cases :
      (n : ℕ) (s t : GridSession V) (changed : Bool)
      → set_page n s ≡ ok (t, changed)
      → (t ≡ s) ⊎ (t ≡ invalidate_page (record s { query = record s.query { page = n } }))
  unfolding set_page
  set_page_cases n s t changed h = ground arith

  pub set_page-IsConsistent :
      (n : ℕ) (s t : GridSession V) (changed : Bool)
      → set_page n s ≡ ok (t, changed)
      → Changes.has_history s.changes ≡ false
      → IsConsistent s
      → IsConsistent t
  set_page-IsConsistent n s t changed h clean v = elim (set_page_cases n s t changed h) [
    | inl same ↦ subst IsConsistent (sym same) v
    | inr left ↦ subst IsConsistent (sym left) (invalidated s _ refl clean v)
  ]

  set_filter_cases :
      (filter : Option String) (s t : GridSession V) (changed : Bool)
      → set_filter filter s ≡ ok (t, changed)
      → (t ≡ s)
        ⊎ (t
            ≡ invalidate_page
                (record s { query = record s.query { filter = clean_filter filter; page = 1 } }))
  unfolding set_filter
  set_filter_cases filter s t changed h = ground arith

  pub set_filter-IsConsistent :
      (filter : Option String) (s t : GridSession V) (changed : Bool)
      → set_filter filter s ≡ ok (t, changed)
      → Changes.has_history s.changes ≡ false
      → IsConsistent s
      → IsConsistent t
  set_filter-IsConsistent filter s t changed h clean v =
      elim (set_filter_cases filter s t changed h) [
        | inl same ↦ subst IsConsistent (sym same) v
        | inr left ↦ subst IsConsistent (sym left) (invalidated s _ refl clean v)
      ]

  set_query_options_cases :
      (filter : Option String) (sort : List GridSort) (s t : GridSession V) (changed : Bool)
      → set_query_options filter sort s ≡ ok (t, changed)
      → (t ≡ s)
        ⊎ (t
            ≡ invalidate_page (record s {
              query = record s.query { filter = clean_filter filter; sort = sort; page = 1 };
            }))
  unfolding set_query_options
  set_query_options_cases filter sort s t changed h =
      let (_, _, rest) = >>=-eq-ok (require_idle_clean_session s) _ h in
      let (p, _, more) = >>=-eq-ok (ok_or (page s) GridSessionError.awaiting_data) _ rest in
      let (_, _, result) = >>=-eq-ok (check_sort p.columns [] sort) _ more in ground arith

  pub set_query_options-IsConsistent :
      (filter : Option String) (sort : List GridSort) (s t : GridSession V) (changed : Bool)
      → set_query_options filter sort s ≡ ok (t, changed)
      → Changes.has_history s.changes ≡ false
      → IsConsistent s
      → IsConsistent t
  set_query_options-IsConsistent filter sort s t changed h clean v =
      elim (set_query_options_cases filter sort s t changed h) [
        | inl same ↦ subst IsConsistent (sym same) v
        | inr left ↦ subst IsConsistent (sym left) (invalidated s _ refl clean v)
      ]

  pub invalidate_session-IsConsistent :
      (id : String) (generation : ℕ) (reason : String) (s : GridSession V)
      → IsConsistent s
      → IsConsistent (invalidate_session id generation reason s).0
  unfolding invalidate_session page page_of
  invalidate_session-IsConsistent id generation reason s v = ground arith

  saving_page :
      (s : GridSession V) (g : ℕ) (p : GridPage V)
      → s.state ≡ GridState.saving g p
      → page_of s.state ≡ some p
  unfolding page_of
  saving_page s g p e = rw e refl

  saved-IsConsistent :
      (result : Unit {0} ⊎ GridSaveFailure) (p : GridPage V) (s : GridSession V)
      → page_of s.state ≡ some p
      → IsConsistent s
      → IsConsistent (saved result p s)
  unfolding saved clear_selection clear_changes page_of Changes.clear
  saved-IsConsistent (inl _) p s e v =
      (record { none_staged = refl; no_history = refl }, clear-IsSelectionOf 0 s.selection)
  saved-IsConsistent (inr error) p s e v = rw e at v

  finish_saving-IsConsistent :
      (state : GridState V) (request : GridSaveRequest V) (result : Unit {0} ⊎ GridSaveFailure)
      (s : GridSession V)
      → s.state ≡ state
      → IsConsistent s
      → IsConsistent (finish_saving state request result s).0
  unfolding finish_saving
  finish_saving-IsConsistent (GridState.saving g p) request result s e v =
      elim (Bool-cases (g == request.generation)) [
        | inr other ↦ rw (other, finish_saving) v
        | inl mine ↦
            rw (mine, finish_saving) (saved-IsConsistent result p s (saving_page s g p e) v)
      ]
  finish_saving-IsConsistent _ request result s e v = v

  pub finish_save-IsConsistent :
      (request : GridSaveRequest V) (result : Unit {0} ⊎ GridSaveFailure) (s : GridSession V)
      → IsConsistent s
      → IsConsistent (finish_save request result s).0
  unfolding finish_save
  finish_save-IsConsistent request result s v =
      finish_saving-IsConsistent s.state request result s refl v

module _ {V : Type 0} ⦃j : JsonValue V⦄ where
  pub begin_save_shape :
      (s t : GridSession V) (request : GridSaveRequest V)
      → begin_save s ≡ ok (t, request)
      → (p : GridPage V) × (page_of s.state ≡ some p)
        × (t ≡ record s {
          next_save_generation = request.generation;
          state = GridState.saving request.generation p;
        })
  unfolding begin_save page
  begin_save_shape s t request h = elim (Option-cases (page_of s.state)) [
    | inl missing ↦ absurd (ground arith)
    | inr (p, shown) ↦ (p, shown, ground arith)
  ]

  pub begin_save-IsConsistent :
      (s t : GridSession V) (request : GridSaveRequest V)
      → begin_save s ≡ ok (t, request)
      → IsConsistent s
      → IsConsistent t
  unfolding page_of
  begin_save-IsConsistent s t request h v =
      let (p, shown, shape) = begin_save_shape s t request h in
      let b : BelongsTo (some p) s.changes s.selection = rw shown at v in
      subst IsConsistent (sym shape) b
