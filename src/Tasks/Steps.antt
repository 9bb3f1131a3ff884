-- ===== src/Tasks/Steps.antt =====
-- The calls of a task manager as steps, with the events that it has emitted, newest first.
use astesia.Base.{ℕ, ◌+◌, String, ◌≡◌, refl, Option, none, some, List, [], ◌∷◌, ok, if◌then◌else◌}
use astesia.Base.Order.{Ord}
use astesia.Base.Table.{Key, get}
use astesia.Tasks.{
  Float, TaskOutcome, UiEvent, task_progress, task_completed, TaskManager, new, cancel_task, spawn,
  update_progress, finish,
}
use astesia.Tasks.Invariant.{
  IsValid, spawn-IsValid, cancel_task-IsValid, update_progress-IsValid, finish-IsValid,
}

pub record World (I F : Type 0) : Type 0 where
  pub manager : TaskManager I F
  pub log : List (UiEvent I F)

module _ {I F : Type 0} where
  abbrev pub record_event : TaskManager I F × Option (UiEvent I F) → List (UiEvent I F) → World I F
  record_event (s, none) log = record { manager = s; log = log }
  record_event (s, some event) log = record { manager = s; log = event ∷ log }

  -- How often the log says that the task has ended.
  unfoldable pub completions : ⦃k : Key I⦄ → I → List (UiEvent I F) → ℕ
  completions id [] = 0
  completions id (task_progress _ _ _ ∷ log) = completions id log
  completions ⦃k⦄ id (task_completed t ∷ log) =
      let rest = completions id log in if k.same t.id id then rest + 1 else rest

module _ {I F : Type 0} ⦃k : Key I⦄ ⦃o : Ord I⦄ ⦃f : Float F⦄ where
  -- One call. The UUID of a new task is new: no entry has it, and no event said that it ended.
  pub data Step (w t : World I F) : Type 0 where
    spawns :
        (id : I) (name message : String) (now : ℕ)
        → get id w.manager.entries ≡ none
        → completions id w.log ≡ 0
        → t ≡ record_event (spawn id name message now w.manager) w.log
        → Step w t
    cancels :
        (id : I) (s : TaskManager I F)
        → cancel_task id w.manager ≡ ok s
        → t ≡ record { manager = s; log = w.log }
        → Step w t
    progresses :
        (id : I) (progress : F) (message : String)
        → t ≡ record_event (update_progress id progress message w.manager) w.log
        → Step w t
    finishes :
        (id : I) (outcome : TaskOutcome) (now : ℕ)
        → t ≡ record_event (finish id outcome now w.manager) w.log
        → Step w t

  pub data Reach (w : World I F) : World I F → Type 0 where
    here : Reach w w
    next : {t u : World I F} → Reach w t → Step t u → Reach w u

  abbrev pub start : World I F
  start = record { manager = new; log = [] }

  pub recorded :
      (p : TaskManager I F × Option (UiEvent I F)) (log : List (UiEvent I F))
      → (record_event p log).manager ≡ p.0
  recorded (s, none) log = refl
  recorded (s, some e) log = refl

  -- A call keeps valid entries, each key once.
  pub Step-IsValid : (w t : World I F) → Step w t → IsValid w.manager → IsValid t.manager
  Step-IsValid w t (spawns id name message now absent new_id e) v =
      rw (e, recorded (spawn id name message now w.manager) w.log)
        (spawn-IsValid id name message now w.manager v)
  Step-IsValid w t (cancels id s h e) v = rw e (cancel_task-IsValid id w.manager s h v)
  Step-IsValid w t (progresses id progress message e) v =
      rw (e, recorded (update_progress id progress message w.manager) w.log)
        (update_progress-IsValid id progress message w.manager v)
  Step-IsValid w t (finishes id outcome now e) v =
      rw (e, recorded (finish id outcome now w.manager) w.log)
        (finish-IsValid id outcome now w.manager v)

  new-IsValid : IsValid (new {I = I} {F = F})
  unfolding new
  new-IsValid = record { entries_valid = tt; keys_once = tt }

  -- Whatever calls are made from a new manager on, every entry's status, time, flag and token agree on
  -- whether its task has ended, and every id has one entry at most.
  pub Reach-IsValid : {w : World I F} → Reach start w → IsValid w.manager
  Reach-IsValid here = new-IsValid
  Reach-IsValid (next {t} {u} r s) = Step-IsValid t u s (Reach-IsValid r)
