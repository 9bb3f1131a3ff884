-- ===== src/Tasks/Listing.antt =====
-- What `list_tasks` shows.
use Prim.Native.Nat.{compare}
use mathlib.Core.List.{Perm}
use astesia.Base.{arith}
use astesia.Base.Sort.{IsOrdered, sort_by-perm, sort_by-IsOrdered}
use astesia.Base.Table.{Key}
use astesia.Tasks.{BackgroundTask, TaskManager, list_tasks, newest_cmp, tasks_of}

module _ {I F : Type 0} ⦃k : Key I⦄ where
  -- The list shows the task of every entry and no other, no task before one that was created after it.
  pub list_tasks_lem :
      (s : TaskManager I F)
      → Perm (list_tasks s) (tasks_of s.entries)
        × IsOrdered (λ (t u : BackgroundTask I F). compare u.created_at t.created_at) (list_tasks s)
  unfolding list_tasks newest_cmp
  list_tasks_lem s = (
    sort_by-perm newest_cmp (tasks_of s.entries),
    sort_by-IsOrdered newest_cmp (λ a b c h g. ground arith) (λ a b h. ground arith)
        (tasks_of s.entries),
  )
