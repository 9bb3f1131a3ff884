-- ===== src/Tasks.antt =====
-- tasks/mod.rs: the background tasks, their progress, cancellation and history.
-- A task's id is a UUID, here any key with an order. A time is a number. A method locks the entries,
-- changes them, unlocks and emits: here it returns the entries with the event, if there is one. The
-- clock's reading is an argument.
pub mod History
pub mod Named
pub mod Prune
pub mod Invariant
pub mod Steps
pub mod Evolution
pub mod Progress
pub mod Phases
pub mod Calls
pub mod Ended
pub mod Cancel
pub mod Listing
pub mod Tests
pub mod Once
use Prim.Native.Nat.{compare}
use astesia.Base.{
  ℕ, ◌-◌, String, Bool, true, false, ◌||◌, Option, none, some, List, [], ◌∷◌, Ordering, length,
  Outcome, ok, err, is_some, if◌then◌else◌,
}
use astesia.Base.Order.{Ord, lex}
use astesia.Base.Sort.{sort_by}
use astesia.Base.Table.{Key, Table, get, insert, remove, update}

abbrev pub max_completed_tasks : ℕ
max_completed_tasks = 256

-- An `f32` of which the program uses the constants, `max` and `clamp(0.0, 1.0)`.
pub record Float (F : Type 0) : Type 0 where
  pub zero : F
  pub one : F
  pub max : F → F → F
  pub clamp : F → F

pub data TaskStatus : Type 0 where
  pending running cancelling completed partial failed cancelled : TaskStatus

unfoldable pub is_terminal_status : TaskStatus → Bool
is_terminal_status TaskStatus.completed = true
is_terminal_status TaskStatus.partial = true
is_terminal_status TaskStatus.failed = true
is_terminal_status TaskStatus.cancelled = true
is_terminal_status _ = false

pub is_cancelling : TaskStatus → Bool
is_cancelling TaskStatus.cancelling = true
is_cancelling _ = false

pub data TaskOutcome : Type 0 where
  completed partial failed cancelled : String → TaskOutcome

pub record BackgroundTask (I F : Type 0) : Type 0 where
  pub id : I
  pub name : String
  pub status : TaskStatus
  pub progress : F
  pub message : String
  pub created_at : ℕ
  pub completed_at : Option ℕ

-- `cancellation` is the token that the worker's context shares; its state is in `TaskManager.signals`.
pub record TaskEntry (I F : Type 0) : Type 0 where
  pub task : BackgroundTask I F
  pub cancellation : Option I
  pub completion_event_sent : Bool

pub data UiEvent (I F : Type 0) : Type 0 where
  task_progress : I → F → String → UiEvent I F
  task_completed : BackgroundTask I F → UiEvent I F

-- The entries, and the tokens that have been cancelled. A task's token is named by its id.
pub record TaskManager (I F : Type 0) : Type 0 where
  pub entries : Table I (TaskEntry I F)
  pub signals : List I

module _ {I F : Type 0} where
  unfoldable pub new : TaskManager I F
  new = record { entries = []; signals = [] }

  unfoldable pub is_terminal : TaskEntry I F → Bool
  is_terminal e = is_some e.task.completed_at

  unfoldable pub mark_terminal : TaskStatus → String → ℕ → TaskEntry I F → TaskEntry I F
  mark_terminal status message now e = record e {
    task = record e.task { status = status; message = message; completed_at = some now };
  }

module _ {I F : Type 0} ⦃f : Float F⦄ where
  settle : TaskOutcome → ℕ → TaskEntry I F → TaskEntry I F
  unfolding mark_terminal
  settle (TaskOutcome.completed message) now e =
      mark_terminal TaskStatus.completed message now
        (record e { task = record e.task { progress = f.one } })
  settle (TaskOutcome.partial message) now e =
      mark_terminal TaskStatus.partial message now
        (record e { task = record e.task { progress = f.one } })
  settle (TaskOutcome.failed message) now e = mark_terminal TaskStatus.failed message now e
  settle (TaskOutcome.cancelled message) now e = mark_terminal TaskStatus.cancelled message now e

  -- The entry with its event, `completion_event_sent` set and the token let go.
  announce : TaskEntry I F → TaskEntry I F × Option (UiEvent I F)
  announce e = (record e { completion_event_sent = true }, some (task_completed e.task))

  unfoldable pub complete : TaskOutcome → ℕ → TaskEntry I F → TaskEntry I F × Option (UiEvent I F)
  unfolding is_terminal settle announce
  complete outcome now e =
      let released : TaskEntry I F = record e { cancellation = none } in
      if released.completion_event_sent
      then (released, none)
      else announce (if is_terminal released then released else settle outcome now released)

-- The completed tasks with their times, in the order of the entries.
unfoldable pub completed_of : {I F : Type 0} → Table I (TaskEntry I F) → List (ℕ × I)
completed_of [] = []
completed_of ((_, e) ∷ m) = elim e.task.completed_at [
  | none ↦ completed_of m
  | some at ↦ (at, e.task.id) ∷ completed_of m
]

module _ {I : Type 0} ⦃o : Ord I⦄ where
  -- The order of pairs, by time and then by id.
  unfoldable pub at_cmp : ℕ × I → ℕ × I → Ordering
  at_cmp a b = lex (compare a.0 b.0) (o.cmp a.1 b.1)

  -- `sort_unstable`: equal pairs cannot be told apart, so the order is that of any sort.
  unfoldable pub sort_completed : List (ℕ × I) → List (ℕ × I)
  unfolding at_cmp
  sort_completed xs = sort_by at_cmp xs

unfoldable pub take {ℓ} : {A : Type ℓ} → ℕ → List A → List A
take ℕ.zero xs = []
take (ℕ.suc n) [] = []
take (ℕ.suc n) (x ∷ xs) = x ∷ take n xs

module _ {I F : Type 0} ⦃k : Key I⦄ where
  unfoldable pub remove_each : List (ℕ × I) → Table I (TaskEntry I F) → Table I (TaskEntry I F)
  remove_each [] m = m
  remove_each ((_, id) ∷ ids) m = remove_each ids (remove id m)

module _ {I F : Type 0} ⦃o : Ord I⦄ where
  -- The oldest of the completed tasks, as many as are beyond the limit.
  unfoldable pub expired : Table I (TaskEntry I F) → List (ℕ × I)
  unfolding completed_of sort_completed take
  expired m =
      let completed = completed_of m in
      take (length completed - max_completed_tasks) (sort_completed completed)

  unfoldable pub prune_completed : ⦃k : Key I⦄ → Table I (TaskEntry I F) → Table I (TaskEntry I F)
  unfolding remove_each
  prune_completed m = remove_each (expired m) m

-- `Reverse` of the time of creation.
unfoldable pub newest_cmp : {I F : Type 0} → BackgroundTask I F → BackgroundTask I F → Ordering
newest_cmp t u = compare u.created_at t.created_at

unfoldable pub tasks_of : {I F : Type 0} → Table I (TaskEntry I F) → List (BackgroundTask I F)
tasks_of [] = []
tasks_of ((_, e) ∷ m) = e.task ∷ tasks_of m

signalled : {I : Type 0} ⦃k : Key I⦄ → I → List I → Bool
signalled token [] = false
signalled ⦃k⦄ token (t ∷ ts) = k.same t token || signalled token ts

abbrev no_such_task : String
no_such_task = "任务不存在或已完成"

module _ {I F : Type 0} ⦃k : Key I⦄ where
  unfoldable pub list_tasks : TaskManager I F → List (BackgroundTask I F)
  unfolding tasks_of newest_cmp
  list_tasks s = sort_by newest_cmp (tasks_of s.entries)

  unfoldable pub get_task : I → TaskManager I F → Option (BackgroundTask I F)
  get_task id s = elim (get id s.entries) [ none ↦ none | some e ↦ some e.task ]

  cancel_entry : I → TaskEntry I F → TaskManager I F → Outcome String (TaskManager I F)
  unfolding is_terminal
  cancel_entry id e s = if is_terminal e then err no_such_task else elim e.cancellation [
    | none ↦ err no_such_task
    | some token ↦ ok (record {
      entries =
          update id
            (record e { task = record e.task { status = TaskStatus.cancelling; message = "正在取消" } })
            s.entries;
      signals = token ∷ s.signals;
    })
  ]

  unfoldable pub cancel_task : I → TaskManager I F → Outcome String (TaskManager I F)
  unfolding cancel_entry
  cancel_task id s = elim (get id s.entries) [
    | none ↦ err no_such_task
    | some e ↦ cancel_entry id e s
  ]

  -- `TaskContext::is_cancelled`
  unfoldable pub is_cancelled : I → TaskManager I F → Bool
  unfolding signalled
  is_cancelled id s = signalled id s.signals

module _ {I F : Type 0} ⦃f : Float F⦄ where
  unfoldable pub new_entry : I → String → String → ℕ → TaskEntry I F
  new_entry id name message now = record {
    task = record {
      id = id;
      name = name;
      status = TaskStatus.running;
      progress = f.zero;
      message = message;
      created_at = now;
      completed_at = none;
    };
    cancellation = some id;
    completion_event_sent = false;
  }

  pub progressed : F → String → TaskEntry I F → TaskEntry I F
  progressed progress message e = record e {
    task = record e.task { progress = f.max e.task.progress (f.clamp progress); message = message };
  }

module _ {I F : Type 0} ⦃k : Key I⦄ ⦃f : Float F⦄ where
  -- `id` is the new UUID. The worker is started after the entry is there.
  unfoldable pub spawn :
      I → String → String → ℕ → TaskManager I F → TaskManager I F × Option (UiEvent I F)
  spawn id name message now s = (
    record s { entries = insert id (new_entry id name message now) s.entries },
    some (task_progress id f.zero message),
  )

  unfoldable pub update_progress :
      I → F → String → TaskManager I F → TaskManager I F × Option (UiEvent I F)
  unfolding is_terminal is_cancelling progressed
  update_progress id progress message s = elim (get id s.entries) [
    | none ↦ (s, none)
    | some e ↦
        let e' = progressed progress message e in
        if is_terminal e || is_cancelling e.task.status then (s, none) else (
          record s { entries = update id e' s.entries },
          some (task_progress id e'.task.progress e'.task.message),
        )
  ]

module _ {I F : Type 0} ⦃k : Key I⦄ ⦃o : Ord I⦄ ⦃f : Float F⦄ where
  -- The worker's outcome; a panic of the worker arrives as `failed`.
  unfoldable pub finish :
      I → TaskOutcome → ℕ → TaskManager I F → TaskManager I F × Option (UiEvent I F)
  unfolding complete prune_completed
  finish id outcome now s = elim (get id s.entries) [
    | none ↦ (s, none)
    | some e ↦
        let (e', event) = complete outcome now e in
        (record s { entries = prune_completed (update id e' s.entries) }, event)
  ]
