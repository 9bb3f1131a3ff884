-- ===== src/Tasks/Cancel.antt =====
-- What a cancellation does.
use astesia.Base.{
  String, ◌≡◌, refl, sym, ◌∙◌, true, false, ◌↔◌, inl, inr, none, some, arith, ok, err, Bool-cases,
  Option-cases,
}
use mathlib.Core.Option.{some-injective}
use astesia.Base.Table.{Key, get, update, get-update, same_self}
use astesia.Tasks.{
  Float, TaskStatus, BackgroundTask, TaskEntry, TaskManager, is_terminal, is_cancelling,
  is_cancelled, cancel_task, cancel_entry, no_such_task, update_progress, get_task, signalled,
}
use astesia.Tasks.Invariant.{IsValid, get-IsValid, cancel_task_shape}

module _ {I F : Type 0} ⦃k : Key I⦄ where
  -- In a valid manager, `cancel_task` fails exactly if the manager has no such task or it has ended.
  pub cancel_task-err_iff :
      (id : I) (s : TaskManager I F)
      → IsValid s
      → (cancel_task id s ≡ err no_such_task)
        ↔ ((e : TaskEntry I F) → get id s.entries ≡ some e → is_terminal e ≡ true)
  unfolding cancel_task cancel_entry is_terminal
  cancel_task-err_iff id s v = elim (Option-cases (get id s.entries)) [
    | inl missing ↦ (λ h e found. absurd (cc), λ h. ground arith)
    | inr (e, found) ↦
        let valid = get-IsValid s id e v found in
        elim (Bool-cases (is_terminal e)) [
          | inl ended ↦ (λ h d also. ground arith, λ h. ground arith)
          | inr active ↦
              let held : e.cancellation ≡ some id = valid.token_kept ∙ ground arith in
              (λ h. absurd (ground arith), λ h. absurd (cc (h e found)))
        ]
  ]

module _ {I F : Type 0} ⦃k : Key I⦄ ⦃f : Float F⦄ where
  -- A successful cancellation in a valid manager shows the task as being cancelled, sets off the token of
  -- this task and of no other, leaves the other tasks alone, and keeps the worker's later progress from
  -- being shown.
  pub cancel_task_lem :
      (id : I) (s t : TaskManager I F)
      → IsValid s
      → cancel_task id s ≡ ok t
      → ((d : BackgroundTask I F) × (get_task id t ≡ some d) × (d.status ≡ TaskStatus.cancelling))
        × (is_cancelled id t ≡ true)
        × ((j : I)
            → k.same id j ≡ false
            → (is_cancelled j t ≡ is_cancelled j s) × (get_task j t ≡ get_task j s))
        × ((progress : F) (message : String) → update_progress id progress message t ≡ (t, none))
  unfolding get_task is_cancelled signalled is_terminal is_cancelling update_progress
  cancel_task_lem id s t v h =
      let (e, token, found, active, held, shape) = cancel_task_shape id s t h in
      let valid = get-IsValid s id e v found in
      let own : token ≡ id = some-injective _ _ (sym held ∙ valid.token_kept ∙ ground arith) in
      let d : TaskEntry I F = record e {
        task = record e.task { status = TaskStatus.cancelling; message = "正在取消" };
      } in
      let written : get id (update id d s.entries) ≡ some d =
        get-update id id d s.entries ∙ ground (arith, same_self id) in
      rw (shape, own)
        (
          (d.task, ground arith, refl),
          ground (arith, same_self id),
          (λ j other. (ground arith, ground (arith, get-update j id d s.entries))),
          (λ progress message. ground arith),
        )
