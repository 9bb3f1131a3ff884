-- ===== src/Tasks/Tests.antt =====
-- The theorems on tasks at concrete inputs. A share is in tenths, and `none` is NaN.
use astesia.Base.{
  ℕ, ◌≡◌, ◌≢◌, All, Ordering, String, if◌then◌else◌, refl, min, max, Bool, true, false, ◌≤◌, Option,
  none, some, [], arith, ok, length, ◌⊎◌,
}
use astesia.Base.Order.{nat_ord}
use astesia.Base.Table.{nat_key, get, insert, update}
use astesia.Tasks.{
  Float, TaskStatus, TaskOutcome, BackgroundTask, TaskEntry, TaskManager, new, new_entry,
  is_terminal, cancel_task, get_task, is_cancelled, completed_of, at_cmp, max_completed_tasks,
  spawn, update_progress, finish, complete, prune_completed, expired,
}
use astesia.Tasks.Invariant.{IsValid}
use astesia.Tasks.Steps.{
  World, record_event, Step, spawns, progresses, finishes, Reach, here, next, start, completions,
  Reach-IsValid,
}
use astesia.Tasks.Prune.{prune_completed_lem}
use astesia.Tasks.Once.{Reach-once}
use astesia.Tasks.Phases.{may_follow, phase_of}
use astesia.Tasks.Calls.{call_for, Step-may_follow}
use astesia.Tasks.Progress.{FloatLaws, IsShare, Reach-IsShare, Step-progress}
use astesia.Tasks.Cancel.{cancel_task_lem}

abbrev tenths_max : Option ℕ → Option ℕ → Option ℕ
tenths_max none b = b
tenths_max (some a) none = some a
tenths_max (some a) (some b) = some (max a b)

abbrev tenths_clamp : Option ℕ → Option ℕ
tenths_clamp none = none
tenths_clamp (some a) = some (min a 10)

instance abbrev tenths : Float (Option ℕ)
tenths = record { zero = some 0; one = some 10; max = tenths_max; clamp = tenths_clamp }

abbrev IsAtMost : Option ℕ → Option ℕ → Type 0
IsAtMost (some a) (some b) = a ≤ b
IsAtMost none none = Unit
IsAtMost _ _ = false ≡ true

abbrev tenths_laws : FloatLaws (Option ℕ) IsAtMost
tenths_laws = record {
  is_nan = is_nan;
  at_most_self = at_most_self;
  at_most_trans = at_most_trans;
  zero_at_most_one = omega arith;
  zero_number = refl;
  one_number = refl;
  max_number = max_number;
  max_nan = max_nan;
  clamp_number = clamp_number;
  clamp_nan = clamp_nan;
}
  where
    is_nan : Option ℕ → Bool
    is_nan none = true
    is_nan (some _) = false

    at_most_self : (a : Option ℕ) → is_nan a ≡ false → IsAtMost a a
    at_most_self none h = tt
    at_most_self (some a) h = omega arith

    at_most_trans : (a b c : Option ℕ) → IsAtMost a b → IsAtMost b c → IsAtMost a c
    at_most_trans none none none h g = tt
    at_most_trans none none (some c) h g = g
    at_most_trans none (some b) c h g = absurd (cc h)
    at_most_trans (some a) none c h g = absurd (cc h)
    at_most_trans (some a) (some b) none h g = g
    at_most_trans (some a) (some b) (some c) h g = omega arith

    max_number :
        (a b : Option ℕ)
        → is_nan a ≡ false
        → is_nan b ≡ false
        → ((tenths_max a b ≡ a) ⊎ (tenths_max a b ≡ b))
          × IsAtMost a (tenths_max a b)
          × IsAtMost b (tenths_max a b)
    max_number none b h g = absurd (cc h)
    max_number (some a) none h g = absurd (cc g)
    max_number (some a) (some b) h g = grind arith

    max_nan : (a b : Option ℕ) → is_nan a ≡ false → is_nan b ≡ true → tenths_max a b ≡ a
    max_nan none b h g = absurd (cc h)
    max_nan (some a) none h g = refl
    max_nan (some a) (some b) h g = absurd (cc g)

    clamp_number :
        (a : Option ℕ)
        → is_nan a ≡ false
        → (is_nan (tenths_clamp a) ≡ false)
          × IsAtMost (some 0) (tenths_clamp a)
          × IsAtMost (tenths_clamp a) (some 10)
    clamp_number none h = absurd (cc h)
    clamp_number (some a) h = (refl, omega arith, omega arith)

    clamp_nan : (a : Option ℕ) → is_nan a ≡ true → is_nan (tenths_clamp a) ≡ true
    clamp_nan none h = refl
    clamp_nan (some a) h = absurd (cc h)

abbrev Tenths : Type 0
Tenths = TaskManager ℕ (Option ℕ)

abbrev spawned : World ℕ (Option ℕ)
spawned = record_event (spawn 1 "导出" "等待" 5 new) []

abbrev advanced : World ℕ (Option ℕ)
advanced = record_event (update_progress 1 (some 4) "导出中" spawned.manager) spawned.log

abbrev done : World ℕ (Option ℕ)
done = record_event (finish 1 (TaskOutcome.completed "完成") 9 advanced.manager) advanced.log

spawn-Step : Step start spawned
unfolding new get completions
spawn-Step = spawns 1 "导出" "等待" 5 refl refl refl

Reach-advanced : Reach start advanced
Reach-advanced = next (next here spawn-Step) (progresses 1 (some 4) "导出中" refl)

Reach-done : Reach start done
Reach-done = next Reach-advanced (finishes 1 (TaskOutcome.completed "完成") 9 refl)

abbrev exporting : TaskEntry ℕ (Option ℕ)
exporting = record {
  task = record {
    id = 1;
    name = "导出";
    status = TaskStatus.running;
    progress = some 4;
    message = "导出中";
    created_at = 5;
    completed_at = none;
  };
  cancellation = some 1;
  completion_event_sent = false;
}

abbrev exported : TaskEntry ℕ (Option ℕ)
exported = record {
  task = record {
    id = 1;
    name = "导出";
    status = TaskStatus.completed;
    progress = some 10;
    message = "完成";
    created_at = 5;
    completed_at = some 9;
  };
  cancellation = none;
  completion_event_sent = true;
}

has_exporting : get 1 advanced.manager.entries ≡ some exporting
unfolding spawn update_progress get insert new_entry update
has_exporting = refl

has_exported : get 1 done.manager.entries ≡ some exported
unfolding spawn update_progress finish complete get prune_completed expired insert new_entry update
    new
has_exported = refl

finishing : Step advanced done
finishing = finishes 1 (TaskOutcome.completed "完成") 9 refl

stopped : (t : Tenths) × (cancel_task 1 advanced.manager ≡ ok t)
unfolding cancel_task spawn update_progress get insert new_entry update
stopped = (_, refl)

Reach-IsValid_example : IsValid done.manager
Reach-IsValid_example = Reach-IsValid Reach-done

Reach-once_example :
    (completions 1 done.log ≤ 1)
    × ((e : TaskEntry ℕ (Option ℕ))
        → get 1 done.manager.entries ≡ some e
        → completions 1 done.log ≡ (if is_terminal e then 1 else 0))
Reach-once_example = Reach-once done 1 Reach-done

Step-may_follow_example :
    may_follow
      (call_for 1 finishing)
      (phase_of (get 1 advanced.manager.entries))
      (phase_of (get 1 done.manager.entries))
    ≡ true
Step-may_follow_example = Step-may_follow 1 advanced done finishing (Reach-IsValid Reach-advanced)

Reach-IsShare_example : IsShare IsAtMost tenths_laws exporting.task.progress
Reach-IsShare_example =
    Reach-IsShare IsAtMost tenths_laws advanced 1 exporting Reach-advanced has_exporting

Step-progress_example : IsAtMost exporting.task.progress exported.task.progress
Step-progress_example =
    Step-progress IsAtMost tenths_laws advanced done 1 exporting exported Reach-advanced finishing
      has_exporting has_exported

cancel_task_lem_example :
    ((d : BackgroundTask ℕ (Option ℕ)) × (get_task 1 stopped.0 ≡ some d)
      × (d.status ≡ TaskStatus.cancelling))
    × (is_cancelled 1 stopped.0 ≡ true)
    × ((j : ℕ)
        → nat_key.same 1 j ≡ false
        → (is_cancelled j stopped.0 ≡ is_cancelled j advanced.manager)
          × (get_task j stopped.0 ≡ get_task j advanced.manager))
    × ((progress : Option ℕ) (message : String)
        → update_progress 1 progress message stopped.0 ≡ (stopped.0, none))
cancel_task_lem_example =
    cancel_task_lem 1 advanced.manager stopped.0 (Reach-IsValid Reach-advanced) stopped.1

prune_completed_lem_example :
    (length (completed_of (prune_completed done.manager.entries))
      ≡ min (length (completed_of done.manager.entries)) max_completed_tasks)
    × All
        (λ p.
          All (λ q. at_cmp p q ≢ Ordering.gt) (completed_of (prune_completed done.manager.entries)))
        (expired done.manager.entries)
prune_completed_lem_example =
    prune_completed_lem done.manager.entries (Reach-IsValid Reach-done).entries_valid
      (Reach-IsValid Reach-done).keys_once
