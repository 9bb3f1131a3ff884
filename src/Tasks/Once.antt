-- ===== src/Tasks/Once.antt =====
-- Every task is announced as ended once.
use astesia.Base.{
  ℕ, ◌≤◌, String, ◌≡◌, refl, sym, subst, ap, ◌∙◌, true, false, ◌⊎◌, inl, inr, Option, none, some,
  List, ◌∷◌, arith, ok, if◌then◌else◌, Bool-cases, Option-cases,
}
use astesia.Base.Order.{Ord}
use astesia.Base.Table.{Key, Table, get, update, insert, get-insert, get-update}
use astesia.Tasks.{
  Float, TaskOutcome, TaskEntry, UiEvent, task_completed, TaskManager, new, is_terminal, new_entry,
  complete, cancel_task, spawn, update_progress, progressed, finish, prune_completed,
}
use astesia.Tasks.Invariant.{
  IsValidEntry, IsValid, get-IsValid, cancel_task_shape, complete-IsValid, update_progress_cases,
  finish_cases,
}
use astesia.Tasks.Prune.{prune_completed-get}
use astesia.Tasks.Steps.{
  World, record_event, completions, Step, spawns, cancels, progresses, finishes, Reach, here, next,
  start, Reach-IsValid,
}

-- How many announcements an entry goes with. A task that is gone was announced once, if it was there.
abbrev pub Announced : {I F : Type 0} → Option (TaskEntry I F) → ℕ → Type 0
Announced none n = n ≤ 1
Announced (some e) n = n ≡ (if is_terminal e then 1 else 0)

module _ {I F : Type 0} ⦃f : Float F⦄ where
  -- A valid entry ends by the outcome, and is announced exactly if it had not ended before. One that
  -- has ended stays as it is.
  pub complete_once :
      (id : I) (outcome : TaskOutcome) (now : ℕ) (e : TaskEntry I F)
      → IsValidEntry id e
      → (is_terminal (complete outcome now e).0 ≡ true)
        × (((is_terminal e ≡ true) × (complete outcome now e ≡ (e, none)))
            ⊎ ((is_terminal e ≡ false)
                × ((complete outcome now e).1
                    ≡ some (task_completed (complete outcome now e).0.task))))
  unfolding complete is_terminal
  complete_once id (TaskOutcome.completed m) now e v = ground arith
  complete_once id (TaskOutcome.partial m) now e v = ground arith
  complete_once id (TaskOutcome.failed m) now e v = ground arith
  complete_once id (TaskOutcome.cancelled m) now e v = ground arith

module _ {I F : Type 0} ⦃k : Key I⦄ ⦃o : Ord I⦄ ⦃f : Float F⦄ where
  -- What holds between the entries and the log: each id is announced as `Announced` says.
  abbrev pub AllAnnounced : World I F → Type 0
  AllAnnounced w = (j : I) → Announced (get j w.manager.entries) (completions j w.log)

  -- An entry is written that goes with the announcements of its id.
  update-Announced :
      (id j : I) (d e : TaskEntry I F) (m : Table I (TaskEntry I F)) (n : ℕ)
      → get id m ≡ some d
      → is_terminal e ≡ is_terminal d
      → Announced (get j m) n
      → Announced (get j (update id e m)) n
  update-Announced id j d e m n found same a = elim (Bool-cases (k.same id j)) [
    | inl hit ↦
        let eq : id ≡ j = (k.same_iff id j).0 hit in
        let old : get j m ≡ some d = ap (λ i. get i m) (sym eq) ∙ found in
        let written : get j (update id e m) ≡ some e = get-update j id e m ∙ ground arith in
        let counted = subst (λ x. Announced x n) old a in
        subst (λ x. Announced x n) (sym written) (rw same counted)
    | inr other ↦
        let kept : get j (update id e m) ≡ get j m = get-update j id e m ∙ ground arith in
        subst (λ x. Announced x n) (sym kept) a
  ]

  spawn_announced :
      (w : World I F) (id : I) (name message : String) (now : ℕ)
      → completions id w.log ≡ 0
      → AllAnnounced w
      → AllAnnounced (record_event (spawn id name message now w.manager) w.log)
  unfolding spawn completions new_entry is_terminal
  spawn_announced w id name message now fresh a j =
      let got = get-insert j id (new_entry id name message now) w.manager.entries in
      elim (Bool-cases (k.same id j)) [
        | inl hit ↦
            let written : get j (insert id (new_entry id name message now) w.manager.entries)
                ≡ some (new_entry id name message now) =
              got ∙ ground arith in
            subst (λ x. Announced x (completions j w.log)) (sym written)
              (ap (λ i. completions i w.log) (sym ((k.same_iff id j).0 hit)) ∙ fresh)
        | inr other ↦
            let kept : get j (insert id (new_entry id name message now) w.manager.entries)
                ≡ get j w.manager.entries =
              got ∙ ground arith in
            subst (λ x. Announced x (completions j w.log)) (sym kept) (a j)
      ]

  cancel_announced :
      (w : World I F) (id : I) (s : TaskManager I F)
      → cancel_task id w.manager ≡ ok s
      → AllAnnounced w
      → AllAnnounced (record { manager = s; log = w.log })
  unfolding is_terminal
  cancel_announced w id s h a j =
      let (e, token, found, active, _, shape) = cancel_task_shape id w.manager s h in
      rw shape (update-Announced id j e _ w.manager.entries (completions j w.log) found refl (a j))

  progress_announced :
      (w : World I F) (id : I) (progress : F) (message : String)
      → AllAnnounced w
      → AllAnnounced (record_event (update_progress id progress message w.manager) w.log)
  unfolding is_terminal progressed completions
  progress_announced w id progress message a j =
      elim (update_progress_cases id progress message w.manager) [
        | inl same ↦ rw same (a j)
        | inr (e, found, active, _, shape) ↦
            rw shape
              (update-Announced id j e _ w.manager.entries (completions j w.log) found refl (a j))
      ]

  prune-Announced :
      (j : I) (m : Table I (TaskEntry I F)) (n : ℕ)
      → Announced (get j m) n
      → Announced (get j (prune_completed m)) n
  unfolding is_terminal
  prune-Announced j m n a = elim (prune_completed-get j m) [
    | inl same ↦ subst (λ x. Announced x n) (sym same) a
    | inr gone ↦ subst (λ x. Announced x n) (sym gone) (at_most (get j m) n a)
  ]
    where
      at_most : (x : Option (TaskEntry I F)) (n : ℕ) → Announced x n → n ≤ 1
      at_most none n a = a
      at_most (some e) n a = ground arith

  -- An entry that had not ended is written as ended, and its id is announced once more.
  ended-Announced :
      (id j : I) (d e : TaskEntry I F) (m : Table I (TaskEntry I F)) (log : List (UiEvent I F))
      → get id m ≡ some d
      → is_terminal d ≡ false
      → is_terminal e ≡ true
      → e.task.id ≡ id
      → Announced (get j m) (completions j log)
      → Announced (get j (update id e m)) (completions j (task_completed e.task ∷ log))
  unfolding completions is_terminal
  ended-Announced id j d e m log found active ended own a = elim (Bool-cases (k.same id j)) [
    | inl hit ↦
        let eq : id ≡ j = (k.same_iff id j).0 hit in
        let old : get j m ≡ some d = ap (λ i. get i m) (sym eq) ∙ found in
        let written : get j (update id e m) ≡ some e = get-update j id e m ∙ ground arith in
        let counted = subst (λ x. Announced x (completions j log)) old a in
        subst (λ x. Announced x (completions j (task_completed e.task ∷ log))) (sym written)
          (rw (own, hit) (ground arith))
    | inr other ↦
        let kept : get j (update id e m) ≡ get j m = get-update j id e m ∙ ground arith in
        subst (λ x. Announced x (completions j (task_completed e.task ∷ log))) (sym kept)
          (rw (own, other) a)
  ]

  finish_announced :
      (w : World I F) (id : I) (outcome : TaskOutcome) (now : ℕ)
      → IsValid w.manager
      → AllAnnounced w
      → AllAnnounced (record_event (finish id outcome now w.manager) w.log)
  finish_announced w id outcome now v a j = elim (finish_cases id outcome now w.manager) [
    | inl (_, same) ↦ rw same (a j)
    | inr (e, found, shape) ↦
        let valid = get-IsValid w.manager id e v found in
        let (ended, old) = complete_once id outcome now e valid in
        elim old [
          | inl (before, same) ↦
              rw (shape, same)
                (prune-Announced j (update id e w.manager.entries) (completions j w.log) (
                  update-Announced id j e e w.manager.entries (completions j w.log) found refl
                    (a j)))
          | inr (before, event) ↦
              rw (shape, event)
                (prune-Announced j _ _ (
                  ended-Announced id j e (complete outcome now e).0 w.manager.entries w.log found
                    before ended (complete-IsValid id outcome now e valid).own_id (a j)))
        ]
  ]

  -- A call keeps the announcements of every id right.
  Step-announced :
      (w t : World I F) → Step w t → IsValid w.manager → AllAnnounced w → AllAnnounced t
  Step-announced w t (spawns id name message now absent fresh e) v a =
      rw e (spawn_announced w id name message now fresh a)
  Step-announced w t (cancels id s h e) v a = rw e (cancel_announced w id s h a)
  Step-announced w t (progresses id progress message e) v a =
      rw e (progress_announced w id progress message a)
  Step-announced w t (finishes id outcome now e) v a = rw e (finish_announced w id outcome now v a)

  Reach-announced : {w : World I F} → Reach start w → AllAnnounced w
  unfolding new get completions
  Reach-announced here = λ j. omega arith
  Reach-announced (next {t} {u} r s) = Step-announced t u s (Reach-IsValid r) (Reach-announced r)

  -- Whatever calls are made from a new manager on, an id's end is announced at most once, and exactly
  -- once or not at all as its task has ended or not, while the manager has the task.
  pub Reach-once :
      (w : World I F) (id : I)
      → Reach start w
      → (completions id w.log ≤ 1)
        × ((e : TaskEntry I F)
            → get id w.manager.entries ≡ some e
            → completions id w.log ≡ (if is_terminal e then 1 else 0))
  unfolding is_terminal
  Reach-once w id r = elim (Option-cases (get id w.manager.entries)) [
    | inl gone ↦ (
      subst (λ x. Announced x (completions id w.log)) gone (Reach-announced r id),
      λ e found. absurd (cc),
    )
    | inr (e, found) ↦
        let counted : completions id w.log ≡ (if is_terminal e then 1 else 0) =
          subst (λ x. Announced x (completions id w.log)) found (Reach-announced r id) in
        (ground arith, λ d also. ground arith)
  ]
