-- ===== src/Tasks/Invariant.antt =====
-- What holds of every entry between two calls, and that each call keeps it.
use astesia.Base.{
  ℕ, String, ◌≡◌, refl, sym, subst, Bool-cases, ◌⊎◌, inl, inr, false, ◌||◌, none, some, List, [],
  ◌∷◌, arith, ok, All, if◌then◌else◌, Option-cases,
}
use astesia.Base.Order.{Ord}
use astesia.Base.Table.{
  Key, Table, get, insert, remove, update, IsTable, insert-IsTable, update-IsTable, remove-IsTable,
  All-remove, All-update, All-get,
}
use astesia.Tasks.{
  Float, TaskStatus, TaskOutcome, is_terminal_status, TaskEntry, UiEvent, TaskManager, is_terminal,
  new_entry, expired, complete, remove_each, prune_completed, cancel_task, spawn, update_progress,
  progressed, finish, is_cancelling,
}

-- The entry under `id`: its status, its time and its flag agree on whether the task has ended, and it
-- holds its own token exactly until then.
pub record IsValidEntry {I F : Type 0} (id : I) (e : TaskEntry I F) : Type 0 where
  pub own_id : e.task.id ≡ id
  pub status_agrees : is_terminal_status e.task.status ≡ is_terminal e
  pub sent_agrees : e.completion_event_sent ≡ is_terminal e
  pub token_kept : e.cancellation ≡ (if is_terminal e then none else some id)

abbrev pub AreValid : {I F : Type 0} → Table I (TaskEntry I F) → Type 0
AreValid m = All (λ p. IsValidEntry p.0 p.1) m

pub record IsValid {I F : Type 0} ⦃k : Key I⦄ (s : TaskManager I F) : Type 0 where
  pub entries_valid : AreValid s.entries
  pub keys_once : IsTable s.entries

module _ {I F : Type 0} ⦃f : Float F⦄ where
  pub complete-IsValid :
      (id : I) (outcome : TaskOutcome) (now : ℕ) (e : TaskEntry I F)
      → IsValidEntry id e
      → IsValidEntry id (complete outcome now e).0
  unfolding complete is_terminal_status
  complete-IsValid id (TaskOutcome.completed m) now e v = ground arith
  complete-IsValid id (TaskOutcome.partial m) now e v = ground arith
  complete-IsValid id (TaskOutcome.failed m) now e v = ground arith
  complete-IsValid id (TaskOutcome.cancelled m) now e v = ground arith

  pub progressed-IsValid :
      (id : I) (progress : F) (message : String) (e : TaskEntry I F)
      → IsValidEntry id e
      → IsValidEntry id (progressed progress message e)
  unfolding progressed is_terminal
  progressed-IsValid id progress message e v = ground arith

module _ {I F : Type 0} ⦃k : Key I⦄ where
  -- A write under a key that holds a valid entry.
  pub update-AreValid :
      (id : I) (e : TaskEntry I F) (m : Table I (TaskEntry I F))
      → IsValidEntry id e
      → AreValid m
      → AreValid (update id e m)
  update-AreValid id e m v a =
      All-update (λ p. IsValidEntry p.0 p.1) id e m
        (λ j same. subst (λ i. IsValidEntry i e) (sym ((k.same_iff j id).0 same)) v) a

  pub get-IsValid :
      (s : TaskManager I F) (id : I) (e : TaskEntry I F)
      → IsValid s
      → get id s.entries ≡ some e
      → IsValidEntry id e
  get-IsValid s id e v h = All-get (λ p. IsValidEntry p.0 p.1) id s.entries v.entries_valid h

  pub remove_each-IsValid :
      (ids : List (ℕ × I)) (m : Table I (TaskEntry I F))
      → AreValid m
      → IsTable m
      → AreValid (remove_each ids m) × IsTable (remove_each ids m)
  unfolding remove_each
  remove_each-IsValid [] m a t = (a, t)
  remove_each-IsValid ((at, id) ∷ ids) m a t =
      remove_each-IsValid ids (remove id m) (All-remove (λ p. IsValidEntry p.0 p.1) id m a)
        (remove-IsTable id m t)

  cancelled-IsValid :
      (id : I) (e : TaskEntry I F) (message : String)
      → is_terminal e ≡ false
      → IsValidEntry id e
      → IsValidEntry id
          (record e { task = record e.task { status = TaskStatus.cancelling; message = message } })
  unfolding is_terminal is_terminal_status
  cancelled-IsValid id e message h v = ground arith

  -- A call of `cancel_task` that succeeds finds an entry that has not ended.
  pub cancel_task_shape :
      (id : I) (s t : TaskManager I F)
      → cancel_task id s ≡ ok t
      → (e : TaskEntry I F) × (token : I) × (get id s.entries ≡ some e)
        × (is_terminal e ≡ false)
        × (e.cancellation ≡ some token)
        × (t ≡ record {
          entries =
              update id
                (record e {
                  task = record e.task { status = TaskStatus.cancelling; message = "正在取消" };
                })
                s.entries;
          signals = token ∷ s.signals;
        })
  unfolding cancel_task is_terminal
  cancel_task_shape id s t h = elim (Option-cases (get id s.entries)) [
    | inl missing ↦ absurd (ground arith)
    | inr (e, found) ↦ elim (Option-cases e.cancellation) [
      | inl gone ↦ absurd (ground arith)
      | inr (token, held) ↦ (e, token, found, ground arith, held, ground arith)
    ]
  ]

  pub cancel_task-IsValid :
      (id : I) (s t : TaskManager I F) → cancel_task id s ≡ ok t → IsValid s → IsValid t
  cancel_task-IsValid id s t h v =
      let (e, token, found, active, _, shape) = cancel_task_shape id s t h in
      rw shape (record {
        entries_valid =
            update-AreValid id _ s.entries
              (cancelled-IsValid id e "正在取消" active (get-IsValid s id e v found)) v.entries_valid;
        keys_once = update-IsTable id _ s.entries v.keys_once;
      })

module _ {I F : Type 0} ⦃k : Key I⦄ ⦃f : Float F⦄ where
  pub spawn-IsValid :
      (id : I) (name message : String) (now : ℕ) (s : TaskManager I F)
      → IsValid s
      → IsValid (spawn id name message now s).0
  unfolding spawn insert new_entry is_terminal is_terminal_status
  spawn-IsValid id name message now s v = record {
    entries_valid = (
      record { own_id = refl; status_agrees = refl; sent_agrees = refl; token_kept = refl },
      All-remove (λ p. IsValidEntry p.0 p.1) id s.entries v.entries_valid,
    );
    keys_once = insert-IsTable id (new_entry id name message now) s.entries v.keys_once;
  }

  -- Progress is written to an entry that is neither ended nor being cancelled, or to none.
  pub update_progress_cases :
      (id : I) (progress : F) (message : String) (s : TaskManager I F)
      → (update_progress id progress message s ≡ (s, none))
        ⊎ ((e : TaskEntry I F) × (get id s.entries ≡ some e)
            × (is_terminal e ≡ false)
            × (is_cancelling e.task.status ≡ false)
            × (update_progress id progress message s ≡ (
              record s { entries = update id (progressed progress message e) s.entries },
              some (UiEvent.task_progress id (progressed progress message e).task.progress message),
            )))
  unfolding update_progress
  update_progress_cases id progress message s = elim (Option-cases (get id s.entries)) [
    | inl missing ↦ inl (ground arith)
    | inr (e, found) ↦ elim (Bool-cases (is_terminal e || is_cancelling e.task.status)) [
      | inl stopped ↦ inl (ground arith)
      | inr active ↦ inr (e, found, ground arith, ground arith, ground arith)
    ]
  ]

  pub update_progress-IsValid :
      (id : I) (progress : F) (message : String) (s : TaskManager I F)
      → IsValid s
      → IsValid (update_progress id progress message s).0
  update_progress-IsValid id progress message s v =
      elim (update_progress_cases id progress message s) [
        | inl same ↦ rw same v
        | inr (e, found, _, _, shape) ↦ rw shape (record {
          entries_valid =
              update-AreValid id _ s.entries
                (progressed-IsValid id progress message e (get-IsValid s id e v found))
                v.entries_valid;
          keys_once = update-IsTable id _ s.entries v.keys_once;
        })
      ]

module _ {I F : Type 0} ⦃k : Key I⦄ ⦃o : Ord I⦄ ⦃f : Float F⦄ where
  -- The entries right before `finish` prunes them.
  pub finish_cases :
      (id : I) (outcome : TaskOutcome) (now : ℕ) (s : TaskManager I F)
      → ((get id s.entries ≡ none) × (finish id outcome now s ≡ (s, none)))
        ⊎ ((e : TaskEntry I F) × (get id s.entries ≡ some e)
            × (finish id outcome now s ≡ (
              record s {
                entries = prune_completed (update id (complete outcome now e).0 s.entries);
              },
              (complete outcome now e).1,
            )))
  unfolding finish
  finish_cases id outcome now s = elim (Option-cases (get id s.entries)) [
    | inl missing ↦ inl (missing, ground arith)
    | inr (e, found) ↦ inr (e, found, ground arith)
  ]

  -- `finish` writes a valid entry before it prunes.
  pub written-IsValid :
      (id : I) (outcome : TaskOutcome) (now : ℕ) (e : TaskEntry I F) (s : TaskManager I F)
      → get id s.entries ≡ some e
      → IsValid s
      → AreValid (update id (complete outcome now e).0 s.entries)
        × IsTable (update id (complete outcome now e).0 s.entries)
  written-IsValid id outcome now e s found v = (
    update-AreValid id _ s.entries (complete-IsValid id outcome now e (get-IsValid s id e v found))
        v.entries_valid,
    update-IsTable id _ s.entries v.keys_once,
  )

  pub finish-IsValid :
      (id : I) (outcome : TaskOutcome) (now : ℕ) (s : TaskManager I F)
      → IsValid s
      → IsValid (finish id outcome now s).0
  unfolding prune_completed
  finish-IsValid id outcome now s v = elim (finish_cases id outcome now s) [
    | inl (_, same) ↦ rw same v
    | inr (e, found, shape) ↦
        let written = update id (complete outcome now e).0 s.entries in
        let (good, alone) = written-IsValid id outcome now e s found v in
        let (valid, once) = remove_each-IsValid (expired written) written good alone in
        rw shape (record { entries_valid = valid; keys_once = once })
  ]
