-- ===== src/Tasks/Evolution.antt =====
-- What one call does to one entry.
use astesia.Base.{
  ℕ, String, ◌≡◌, refl, sym, ap, ◌∙◌, true, false, inl, inr, Option, none, some, arith, Bool-cases,
}
use astesia.Base.Order.{Ord}
use astesia.Base.Table.{Key, Table, get, update, insert, IsTable, get-insert, get-update}
use astesia.Tasks.{
  Float, TaskStatus, TaskOutcome, TaskEntry, is_terminal, is_cancelling, new_entry, complete, spawn,
  progressed, finish, prune_completed,
}
use astesia.Tasks.Invariant.{
  IsValid, AreValid, written-IsValid, cancel_task_shape, update_progress_cases, finish_cases,
}
use astesia.Tasks.Prune.{prune_completed-get, prune_completed_active}
use astesia.Tasks.Steps.{World, Step, spawns, cancels, progresses, finishes, recorded}

module _ {I F : Type 0} ⦃f : Float F⦄ where
  -- The ways in which a call leaves an entry.
  pub data Evolves (d e : TaskEntry I F) : Type 0 where
    untouched : e ≡ d → Evolves d e
    stopping :
        is_terminal d ≡ false
        → e ≡ record d { task = record d.task { status = TaskStatus.cancelling; message = "正在取消" } }
        → Evolves d e
    advancing :
        (progress : F) (message : String)
        → is_terminal d ≡ false
        → is_cancelling d.task.status ≡ false
        → e ≡ progressed progress message d
        → Evolves d e
    ending : (outcome : TaskOutcome) (now : ℕ) → e ≡ (complete outcome now d).0 → Evolves d e

  -- What a call makes of the entry: nothing, where it is pruned or is not there, and a new one, where
  -- the task is spawned.
  pub data Becomes (id : I) : Option (TaskEntry I F) → Option (TaskEntry I F) → Type 0 where
    still_absent : Becomes id none none
    created :
        (name message : String) (now : ℕ) → Becomes id none (some (new_entry id name message now))
    evolved : {d e : TaskEntry I F} → Evolves d e → Becomes id (some d) (some e)
    ended_gone :
        {d : TaskEntry I F} (e : TaskEntry I F)
        → Evolves d e
        → is_terminal e ≡ true
        → Becomes id (some d) none

  Becomes-self : (id : I) (x : Option (TaskEntry I F)) → Becomes id x x
  Becomes-self id none = still_absent
  Becomes-self id (some e) = evolved (untouched refl)

  Becomes-none :
      (id : I) (x y : Option (TaskEntry I F))
      → Becomes id x y
      → ((e : TaskEntry I F) → y ≡ some e → is_terminal e ≡ true)
      → Becomes id x none
  unfolding is_terminal new_entry
  Becomes-none id _ _ still_absent h = still_absent
  Becomes-none id _ _ (created name message now) h = absurd (cc (h _ refl))
  Becomes-none id _ _ (evolved {d} {e} ev) h = ended_gone e ev (h e refl)
  Becomes-none id _ _ (ended_gone e ev t) h = ended_gone e ev t

module _ {I F : Type 0} ⦃k : Key I⦄ ⦃f : Float F⦄ where
  update-Becomes :
      (id j : I) (d e : TaskEntry I F) (m : Table I (TaskEntry I F))
      → get id m ≡ some d
      → Evolves d e
      → Becomes j (get j m) (get j (update id e m))
  update-Becomes id j d e m found ev = elim (Bool-cases (k.same id j)) [
    | inl hit ↦
        let old : get j m ≡ some d = ap (λ i. get i m) (sym ((k.same_iff id j).0 hit)) ∙ found in
        let written : get j (update id e m) ≡ some e = get-update j id e m ∙ ground arith in
        rw (old, written) (evolved ev)
    | inr other ↦
        let kept : get j (update id e m) ≡ get j m = get-update j id e m ∙ ground arith in
        rw kept (Becomes-self j (get j m))
  ]

  insert-Becomes :
      (id j : I) (name message : String) (now : ℕ) (m : Table I (TaskEntry I F))
      → get id m ≡ none
      → Becomes j (get j m) (get j (insert id (new_entry id name message now) m))
  insert-Becomes id j name message now m absent = elim (Bool-cases (k.same id j)) [
    | inl hit ↦
        let eq = (k.same_iff id j).0 hit in
        let old : get j m ≡ none = ap (λ i. get i m) (sym eq) ∙ absent in
        let written : get j (insert id (new_entry id name message now) m)
            ≡ some (new_entry j name message now) =
          get-insert j id (new_entry id name message now) m ∙ ground arith in
        rw (old, written) (created name message now)
    | inr other ↦
        let kept : get j (insert id (new_entry id name message now) m) ≡ get j m =
          get-insert j id (new_entry id name message now) m ∙ ground arith in
        rw kept (Becomes-self j (get j m))
  ]

module _ {I F : Type 0} ⦃k : Key I⦄ ⦃o : Ord I⦄ ⦃f : Float F⦄ where
  prune-Becomes :
      (j : I) (x : Option (TaskEntry I F)) (m : Table I (TaskEntry I F))
      → AreValid m
      → IsTable m
      → Becomes j x (get j m)
      → Becomes j x (get j (prune_completed m))
  unfolding is_terminal
  prune-Becomes j x m v t b = elim (prune_completed-get j m) [
    | inl same ↦ rw same b
    | inr gone ↦ rw gone (
        Becomes-none j x (get j m) b (λ e found. elim (Bool-cases (is_terminal e)) [
          | inl ended ↦ ended
          | inr active ↦ absurd (cc (prune_completed_active j e m v t found active))
        ]))
  ]

  -- From a valid manager on, a call makes of each id's entry what `Becomes` lists.
  pub Step-Becomes :
      (j : I) (w t : World I F)
      → Step w t
      → IsValid w.manager
      → Becomes j (get j w.manager.entries) (get j t.manager.entries)
  unfolding spawn
  Step-Becomes j w t (spawns id name message now absent fresh e) v =
      rw e (insert-Becomes id j name message now w.manager.entries absent)
  Step-Becomes j w t (cancels id s h e) v =
      let (d, token, found, active, _, shape) = cancel_task_shape id w.manager s h in
      rw (e, shape) (update-Becomes id j d _ w.manager.entries found (stopping active refl))
  Step-Becomes j w t (progresses id progress message e) v =
      rw e (elim (update_progress_cases id progress message w.manager) [
        | inl same ↦ rw same (Becomes-self j (get j w.manager.entries))
        | inr (d, found, active, calm, shape) ↦ rw shape (
            update-Becomes id j d _ w.manager.entries found
              (advancing progress message active calm refl))
      ])
  Step-Becomes j w t (finishes id outcome now e) v =
      rw (e, recorded (finish id outcome now w.manager) w.log)
        (elim (finish_cases id outcome now w.manager) [
          | inl (_, same) ↦ rw same (Becomes-self j (get j w.manager.entries))
          | inr (d, found, shape) ↦
              let written = update id (complete outcome now d).0 w.manager.entries in
              let (valid, once) = written-IsValid id outcome now d w.manager found v in
              rw shape (
                prune-Becomes j (get j w.manager.entries) written valid once
                  (update-Becomes id j d _ w.manager.entries found (ending outcome now refl)))
        ])
