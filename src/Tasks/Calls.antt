-- ===== src/Tasks/Calls.antt =====
-- What each call of the task manager makes of the phase of each task.
use astesia.Base.{
  ℕ, String, ◌≡◌, refl, sym, subst, ap, ◌∙◌, true, ◌⊎◌, inl, inr, none, some, arith, if◌then◌else◌,
  Bool-cases, Option-cases,
}
use astesia.Base.Order.{Ord}
use astesia.Base.Table.{Key, Table, get, insert, update, IsTable, get-insert, get-update}
use astesia.Tasks.{
  Float, TaskEntry, is_terminal, new_entry, spawn, update_progress, finish, prune_completed,
}
use astesia.Tasks.Invariant.{
  IsValid, AreValid, get-IsValid, cancel_task_shape, update_progress_cases, finish_cases,
  written-IsValid,
}
use astesia.Tasks.Prune.{prune_completed-get, prune_completed_active}
use astesia.Tasks.Steps.{World, Step, spawns, cancels, progresses, finishes, recorded}
use astesia.Tasks.Once.{complete_once}
use astesia.Tasks.Phases.{
  absent, ended, Call, spawning, cancelling, reporting, finishing, elsewhere, finishing_elsewhere,
  may_follow, phase_of, same_phase_self, reported_phase, finishing_elsewhere_self, cancelled_phase,
  progressed_phase, ended_phase, finished_phase,
}

module _ {I F : Type 0} ⦃k : Key I⦄ ⦃o : Ord I⦄ ⦃f : Float F⦄ where
  -- What the call of a step is to the task of an id.
  unfoldable pub call_for : {w t : World I F} → I → Step w t → Call
  call_for id (spawns j _ _ _ _ _ _) = if k.same j id then spawning else elsewhere
  call_for id (cancels j _ _ _) = if k.same j id then cancelling else elsewhere
  call_for id (progresses j _ _ _) = if k.same j id then reporting else elsewhere
  call_for id (finishes j _ _ _) = if k.same j id then finishing else finishing_elsewhere

  updated_phase :
      (call : Call) (id j : I) (d e : TaskEntry I F) (m : Table I (TaskEntry I F))
      → get j m ≡ some d
      → may_follow call (phase_of (some d)) (phase_of (some e)) ≡ true
      → may_follow
          (if k.same j id then call else elsewhere)
          (phase_of (get id m))
          (phase_of (get id (update j e m)))
        ≡ true
  unfolding may_follow
  updated_phase call id j d e m found h = elim (Bool-cases (k.same j id)) [
    | inl hit ↦
        let old : get id m ≡ some d = ap (λ i. get i m) (sym ((k.same_iff j id).0 hit)) ∙ found in
        let written : get id (update j e m) ≡ some e = get-update id j e m ∙ ground arith in
        rw (hit, old, written) h
    | inr other ↦
        let kept : get id (update j e m) ≡ get id m = get-update id j e m ∙ ground arith in
        rw (other, kept) (same_phase_self (phase_of (get id m)))
  ]

  spawned_phase :
      (id j : I) (name message : String) (now : ℕ) (m : Table I (TaskEntry I F))
      → get j m ≡ none
      → may_follow
          (if k.same j id then spawning else elsewhere)
          (phase_of (get id m))
          (phase_of (get id (insert j (new_entry j name message now) m)))
        ≡ true
  unfolding may_follow phase_of new_entry
  spawned_phase id j name message now m new = elim (Bool-cases (k.same j id)) [
    | inl hit ↦
        let old : get id m ≡ none = ap (λ i. get i m) (sym ((k.same_iff j id).0 hit)) ∙ new in
        let written : get id (insert j (new_entry j name message now) m)
            ≡ some (new_entry j name message now) =
          get-insert id j (new_entry j name message now) m ∙ ground arith in
        rw (hit, old, written) refl
    | inr other ↦
        let kept : get id (insert j (new_entry j name message now) m) ≡ get id m =
          get-insert id j (new_entry j name message now) m ∙ ground arith in
        rw (other, kept) (same_phase_self (phase_of (get id m)))
  ]

  -- A call to finish finds no task of its id.
  missed_phase :
      (id j : I) (m : Table I (TaskEntry I F))
      → get j m ≡ none
      → may_follow
          (if k.same j id then finishing else finishing_elsewhere)
          (phase_of (get id m))
          (phase_of (get id m))
        ≡ true
  unfolding may_follow phase_of
  missed_phase id j m gone = elim (Bool-cases (k.same j id)) [
    | inl hit ↦
        let old : get id m ≡ none = ap (λ i. get i m) (sym ((k.same_iff j id).0 hit)) ∙ gone in
        rw (hit, old) refl
    | inr other ↦ rw other (finishing_elsewhere_self (phase_of (get id m)))
  ]

  -- What pruning forgets has ended.
  pruned_phase :
      (id : I) (m : Table I (TaskEntry I F))
      → AreValid m
      → IsTable m
      → may_follow finishing_elsewhere (phase_of (get id m)) (phase_of (get id (prune_completed m)))
        ≡ true
  unfolding may_follow phase_of is_terminal
  pruned_phase id m v t = elim (prune_completed-get id m) [
    | inl same ↦ rw same (finishing_elsewhere_self (phase_of (get id m)))
    | inr gone ↦ elim (Option-cases (get id m)) [
      | inl none_there ↦ rw (gone, none_there) refl
      | inr (e, found) ↦ elim (Bool-cases (is_terminal e)) [
        | inl over ↦ let is_ended = ended_phase e over in rw (gone, found) (rw is_ended refl)
        | inr going ↦ absurd (cc (prune_completed_active id e m v t found going))
      ]
    ]
  ]

  finished_call :
      (id j : I) (d e : TaskEntry I F) (m : Table I (TaskEntry I F))
      → get j m ≡ some d
      → is_terminal e ≡ true
      → AreValid (update j e m)
      → IsTable (update j e m)
      → may_follow
          (if k.same j id then finishing else finishing_elsewhere)
          (phase_of (get id m))
          (phase_of (get id (prune_completed (update j e m))))
        ≡ true
  unfolding phase_of
  finished_call id j d e m found over v t = elim (Bool-cases (k.same j id)) [
    | inl hit ↦
        let old : get id m ≡ some d = ap (λ i. get i m) (sym ((k.same_iff j id).0 hit)) ∙ found in
        let written : get id (update j e m) ≡ some e = get-update id j e m ∙ ground arith in
        let q = phase_of (get id (prune_completed (update j e m))) in
        let gone_or_ended : (q ≡ ended) ⊎ (q ≡ absent) =
          elim (prune_completed-get id (update j e m)) [
            | inl same ↦ inl (ap phase_of (same ∙ written) ∙ ended_phase e over)
            | inr gone ↦ inr (ap phase_of gone)
          ] in
        rw (hit, old) (finished_phase d q gone_or_ended)
    | inr other ↦
        let kept : get id (update j e m) ≡ get id m = get-update id j e m ∙ ground arith in
        rw other (
          subst
            (λ x.
              may_follow finishing_elsewhere (phase_of x)
                (phase_of (get id (prune_completed (update j e m))))
              ≡ true)
            kept (pruned_phase id (update j e m) v t))
  ]

  -- From a valid manager on, each call takes the phase of each task only where `may_follow` allows:
  -- a task becomes active only when it is spawned, stopped only when it is cancelled, and ended only
  -- when it is finished; no ended task is taken up again and no request to stop is taken back; and
  -- only a call to finish forgets tasks, one that ended before or that it ends itself.
  pub Step-may_follow :
      (id : I) (w t : World I F) (s : Step w t)
      → IsValid w.manager
      → may_follow
          (call_for id s)
          (phase_of (get id w.manager.entries))
          (phase_of (get id t.manager.entries))
        ≡ true
  unfolding spawn call_for
  Step-may_follow id w t (spawns j name message now new fresh e) v =
      rw e (spawned_phase id j name message now w.manager.entries new)
  Step-may_follow id w t (cancels j s h e) v =
      let (d, token, found, going, _, shape) = cancel_task_shape j w.manager s h in
      rw (e, shape)
        (updated_phase cancelling id j d _ w.manager.entries found (cancelled_phase d going))
  Step-may_follow id w t (progresses j progress message e) v =
      rw (e, recorded (update_progress j progress message w.manager) w.log)
        (elim (update_progress_cases j progress message w.manager) [
          | inl same ↦ rw same (reported_phase (k.same j id) (phase_of (get id w.manager.entries)))
          | inr (d, found, going, calm, shape) ↦
              let kept = progressed_phase progress message d in
              rw shape (
                updated_phase reporting id j d _ w.manager.entries found
                  (rw kept (reported_phase true (phase_of (some d)))))
        ])
  Step-may_follow id w t (finishes j outcome now e) v =
      rw (e, recorded (finish j outcome now w.manager) w.log)
        (elim (finish_cases j outcome now w.manager) [
          | inl (absent_there, same) ↦ rw same (missed_phase id j w.manager.entries absent_there)
          | inr (d, found, shape) ↦
              let (valid, once) = written-IsValid j outcome now d w.manager found v in
              let over = (complete_once j outcome now d (get-IsValid w.manager j d v found)).0 in
              rw shape (finished_call id j d _ w.manager.entries found over valid once)
        ])
