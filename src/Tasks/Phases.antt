-- ===== src/Tasks/Phases.antt =====
-- The life of a task in four phases, and which of them each call may lead to from which.
use astesia.Base.{
  String, ◌≡◌, refl, Bool, true, false, ◌⊎◌, inl, inr, Option, none, some, arith, if◌then◌else◌,
}
use astesia.Tasks.{Float, TaskStatus, TaskEntry, is_terminal, is_cancelling, progressed}

pub data Phase : Type 0 where
  absent active stopped ended : Phase

-- What a call is to a task: the call that spawns, cancels, reports on or finishes it, or a call for
-- another task, which may be one that finishes that task.
pub data Call : Type 0 where
  spawning cancelling reporting finishing elsewhere finishing_elsewhere : Call

unfoldable pub same_phase : Phase → Phase → Bool
same_phase absent absent = true
same_phase active active = true
same_phase stopped stopped = true
same_phase ended ended = true
same_phase _ _ = false

-- What each call may make of a task's phase. A task becomes active only by its own call to spawn,
-- stopped only by its own call to cancel, and ended only by its own call to finish. Only a call to
-- finish forgets a task: its own, which has ended it then, and that of another only a task that had
-- ended before.
unfoldable pub may_follow : Call → Phase → Phase → Bool
unfolding same_phase
may_follow spawning absent active = true
may_follow spawning _ _ = false
may_follow cancelling active stopped = true
may_follow cancelling stopped stopped = true
may_follow cancelling _ _ = false
may_follow reporting p q = same_phase p q
may_follow finishing absent absent = true
may_follow finishing absent _ = false
may_follow finishing _ ended = true
may_follow finishing _ absent = true
may_follow finishing _ _ = false
may_follow elsewhere p q = same_phase p q
may_follow finishing_elsewhere ended absent = true
may_follow finishing_elsewhere p q = same_phase p q

pub same_phase_self : (p : Phase) → same_phase p p ≡ true
unfolding same_phase
same_phase_self absent = refl
same_phase_self active = refl
same_phase_self stopped = refl
same_phase_self ended = refl

pub reported_phase :
    (b : Bool) (p : Phase) → may_follow (if b then reporting else elsewhere) p p ≡ true
unfolding may_follow
reported_phase true p = same_phase_self p
reported_phase false p = same_phase_self p

pub finishing_elsewhere_self : (p : Phase) → may_follow finishing_elsewhere p p ≡ true
unfolding may_follow
finishing_elsewhere_self absent = refl
finishing_elsewhere_self active = refl
finishing_elsewhere_self stopped = refl
finishing_elsewhere_self ended = refl

module _ {I F : Type 0} where
  unfoldable pub phase_of : Option (TaskEntry I F) → Phase
  unfolding is_terminal is_cancelling
  phase_of none = absent
  phase_of (some e) =
      if is_terminal e then ended else if is_cancelling e.task.status then stopped else active

module _ {I F : Type 0} ⦃f : Float F⦄ where
  pub cancelled_phase :
      (d : TaskEntry I F)
      → is_terminal d ≡ false
      → may_follow cancelling (phase_of (some d)) (
          phase_of (
            some (record d {
              task = record d.task { status = TaskStatus.cancelling; message = "正在取消" };
            })))
        ≡ true
  unfolding phase_of may_follow is_terminal is_cancelling
  cancelled_phase d going = ground arith

  pub progressed_phase :
      (progress : F) (message : String) (d : TaskEntry I F)
      → phase_of (some (progressed progress message d)) ≡ phase_of (some d)
  unfolding phase_of progressed is_terminal is_cancelling
  progressed_phase progress message d = ground arith

  pub ended_phase : (d : TaskEntry I F) → is_terminal d ≡ true → phase_of (some d) ≡ ended
  unfolding phase_of
  ended_phase d over = ground arith

  pub finished_phase :
      (d : TaskEntry I F) (q : Phase)
      → (q ≡ ended) ⊎ (q ≡ absent)
      → may_follow finishing (phase_of (some d)) q ≡ true
  unfolding phase_of may_follow is_terminal is_cancelling
  finished_phase d q (inl e) = rw e (ground arith)
  finished_phase d q (inr e) = rw e (ground arith)
