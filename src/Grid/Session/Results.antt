-- ===== src/Grid/Session/Results.antt =====
-- A save and its result: what a success and what a failure leave, and which results are taken.
use astesia.Base.{
  ℕ, ◌≡◌, ◌≢◌, refl, sym, subst, ap, ◌∙◌, Bool, true, false, ◌⊎◌, inl, inr, some, arith, ok, ◌==◌,
  ==_iff, Bool-cases,
}
use astesia.Grid.Types.{JsonValue, GridPage, GridSaveRequest, GridSaveFailure}
use astesia.Grid.Changes
use astesia.Grid.Session.{GridState, GridSession, page, failure_text, clear_selection}
use astesia.Grid.Session.Save.{begin_save, finish_save, finish_saving, saved, clear_changes}
use astesia.Grid.Session.Invariant.{IsClean}
use astesia.Grid.Session.Navigation.{begin_save_shape}

module _ {V : Type 0} where
  saving_cases :
      (state : GridState V) (request : GridSaveRequest V) (result : Unit {0} ⊎ GridSaveFailure)
      (s : GridSession V)
      → ((p : GridPage V) × (state ≡ GridState.saving request.generation p)
          × (finish_saving state request result s ≡ (saved result p s, true)))
        ⊎ (((p : GridPage V) → state ≢ GridState.saving request.generation p)
            × (finish_saving state request result s ≡ (s, false)))
  unfolding finish_saving
  saving_cases (GridState.saving g p) request result s =
      elim (Bool-cases (g == request.generation)) [
        | inr other ↦ inr (λ _ e. absurd (ground arith), ground arith)
        | inl mine ↦
            inl (
              p,
              ap (λ n. GridState.saving n p) ((==_iff g request.generation).0 mine),
              ground arith,
            )
      ]
  saving_cases _ request result s = inr (λ _ e. absurd (cc), refl)

  -- The result of a save is taken exactly when the session is saving under the request's generation.
  -- Any other result changes nothing.
  pub finish_save_cases :
      (request : GridSaveRequest V) (result : Unit {0} ⊎ GridSaveFailure) (s : GridSession V)
      → ((p : GridPage V) × (s.state ≡ GridState.saving request.generation p)
          × (finish_save request result s ≡ (saved result p s, true)))
        ⊎ (((p : GridPage V) → s.state ≢ GridState.saving request.generation p)
            × (finish_save request result s ≡ (s, false)))
  unfolding finish_save
  finish_save_cases request result s = saving_cases s.state request result s

  saving_mine :
      (g : ℕ) (p : GridPage V) (request : GridSaveRequest V) (result : Unit {0} ⊎ GridSaveFailure)
      (s : GridSession V)
      → g ≡ request.generation
      → finish_saving (GridState.saving g p) request result s ≡ (saved result p s, true)
  unfolding finish_saving
  saving_mine g p request result s e = ground arith

  saved-IsClean : (p : GridPage V) (s : GridSession V) → IsClean (saved (inl tt) p s).changes
  unfolding saved clear_changes clear_selection Changes.clear
  saved-IsClean p s = record { none_staged = refl; no_history = refl }

  saved-idle : (p : GridPage V) (s : GridSession V) → (saved (inl tt) p s).state ≡ GridState.idle
  unfolding saved clear_changes clear_selection
  saved-idle p s = refl

  failed_keeps :
      (p : GridPage V) (s t : GridSession V) (error : GridSaveFailure) (g : ℕ)
      → t ≡ record s { next_save_generation = g; state = GridState.saving g p }
      → saved (inr error) p t ≡ record s {
        next_save_generation = g;
        state = GridState.save_failed (failure_text error) p;
      }
  unfolding saved
  failed_keeps p s t error g e = rw e refl

module _ {V : Type 0} ⦃j : JsonValue V⦄ where
  -- A save that was begun and fails keeps the page, every staged change, the history and the
  -- selection: only the state and the generation are new. A save that succeeds leaves nothing staged,
  -- no history and an idle session. Both results are taken.
  pub finish_save-begin_save :
      (s t : GridSession V) (request : GridSaveRequest V) (error : GridSaveFailure)
      → begin_save s ≡ ok (t, request)
      → (p : GridPage V) × (page s ≡ some p)
        × (finish_save request (inr error) t ≡ (
          record s {
            next_save_generation = request.generation;
            state = GridState.save_failed (failure_text error) p;
          },
          true,
        ))
        × IsClean (finish_save request (inl tt) t).0.changes
        × ((finish_save request (inl tt) t).0.state ≡ GridState.idle)
        × ((finish_save request (inl tt) t).1 ≡ true)
  unfolding finish_save page
  finish_save-begin_save s t request error h =
      let (p, shown, shape) = begin_save_shape s t request h in
      let state = ap (λ (r : GridSession V). r.state) shape in
      let fails =
        ap (λ st. finish_saving st request (inr error) t) state
        ∙ saving_mine request.generation p request (inr error) t refl in
      let works =
        ap (λ st. finish_saving st request (inl tt) t) state
        ∙ saving_mine request.generation p request (inl tt) t refl in
      (
        p,
        shown,
        fails ∙ ap (λ r. (r, true)) (failed_keeps p s t error request.generation shape),
        subst (λ (r : GridSession V × Bool). IsClean r.0.changes) (sym works) (saved-IsClean p t),
        ap (λ (r : GridSession V × Bool). r.0.state) works ∙ saved-idle p t,
        ap (λ (r : GridSession V × Bool). r.1) works,
      )
