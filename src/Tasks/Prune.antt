-- ===== src/Tasks/Prune.antt =====
-- What `prune_completed` removes and what it keeps.
use astesia.Base.{
  ℕ, ◌-◌, min, ◌≡◌, ◌≢◌, ◌∙◌, true, false, ◌⊎◌, inl, inr, none, some, arith, Ordering, All, length,
  Bool-cases,
}
use astesia.Base.Order.{Ord}
use astesia.Base.Sort.{sort_by, All-sort_by, length-sort_by, sort_by-IsOrdered, All-unsort_by}
use astesia.Base.Table.{Key, Table, get, IsTable}
use astesia.Tasks.{
  TaskEntry, is_terminal, completed_of, at_cmp, sort_completed, take, remove_each, expired,
  prune_completed, max_completed_tasks,
}
use astesia.Tasks.Invariant.{AreValid}
use astesia.Tasks.History.{
  drop, All-take, length-take, AreDistinct-sort, AreDistinct-take, IsCompleted,
  completed_of-IsCompleted, completed_of-distinct,
}
use astesia.Tasks.Named.{
  at_trans, at_total, named, named_self, get-remove_each, length-remove_each, unnamed_active,
  All-join, All-imp, take-before-drop, All-remaining,
}

module _ {I F : Type 0} ⦃k : Key I⦄ ⦃o : Ord I⦄ where
  oldest_first :
      (n : ℕ) (m : Table I (TaskEntry I F))
      → AreValid m
      → All
          (λ p.
            All
              (λ q. at_cmp p q ≢ Ordering.gt)
              (completed_of (remove_each (take n (sort_completed (completed_of m))) m)))
          (take n (sort_completed (completed_of m)))
  unfolding sort_completed
  oldest_first n m v =
      let sorted = sort_by at_cmp (completed_of m) in
      let gone = take n sorted in
      All-imp (λ p. All (λ q. at_cmp p q ≢ Ordering.gt) (drop n sorted)) _ gone
        (λ p after.
          All-remaining (λ q. at_cmp p q ≢ Ordering.gt) gone m v
            (All-unsort_by at_cmp _ (completed_of m) (
              All-join (λ q. (named q.1 gone ≡ true) ⊎ (at_cmp p q ≢ Ordering.gt)) n sorted
                (All-imp (λ q. named q.1 gone ≡ true) _ gone (λ q h. inl h) (named_self gone))
                (All-imp (λ q. at_cmp p q ≢ Ordering.gt) _ (drop n sorted) (λ q h. inr h) after))))
        (take-before-drop at_cmp n sorted
          (sort_by-IsOrdered at_cmp at_trans at_total (completed_of m)))

  -- In valid entries whose keys stand once, `prune_completed` leaves 256 completed tasks, or all where
  -- there are no more, and no task that it removes was completed after one that it keeps.
  pub prune_completed_lem :
      (m : Table I (TaskEntry I F))
      → AreValid m
      → IsTable m
      → (length (completed_of (prune_completed m))
          ≡ min (length (completed_of m)) max_completed_tasks)
        × All
            (λ p. All (λ q. at_cmp p q ≢ Ordering.gt) (completed_of (prune_completed m)))
            (expired m)
  unfolding prune_completed expired sort_completed
  prune_completed_lem m v t =
      let pairs = completed_of m in
      let n = length pairs - max_completed_tasks in
      let sorted = sort_by at_cmp pairs in
      (
        omega (
          arith,
          length-remove_each (take n sorted) m t
              (AreDistinct-take n sorted
                (AreDistinct-sort at_cmp pairs (completed_of-distinct m v t)))
              (All-take (IsCompleted m) n sorted
                (All-sort_by at_cmp (IsCompleted m) pairs (completed_of-IsCompleted m v t))),
          length-take n sorted,
          length-sort_by at_cmp pairs,
        ),
        oldest_first n m v,
      )

  -- In valid entries whose keys stand once, `prune_completed` leaves an active task as it is.
  pub prune_completed_active :
      (id : I) (e : TaskEntry I F) (m : Table I (TaskEntry I F))
      → AreValid m
      → IsTable m
      → get id m ≡ some e
      → is_terminal e ≡ false
      → get id (prune_completed m) ≡ some e
  unfolding prune_completed expired sort_completed is_terminal
  prune_completed_active id e m v t h active =
      let pairs = completed_of m in
      let n = length pairs - max_completed_tasks in
      let sorted = sort_by at_cmp pairs in
      let gone = unnamed_active id e m (take n sorted) h (ground arith) (
        All-take (IsCompleted m) n sorted
          (All-sort_by at_cmp (IsCompleted m) pairs (completed_of-IsCompleted m v t))) in
      get-remove_each id (take n sorted) m ∙ ground arith

  -- What `prune_completed` leaves of a key: its entry, or nothing.
  pub prune_completed-get :
      (id : I) (m : Table I (TaskEntry I F))
      → (get id (prune_completed m) ≡ get id m) ⊎ (get id (prune_completed m) ≡ none)
  unfolding prune_completed
  prune_completed-get id m =
      let e = get-remove_each id (expired m) m in
      elim (Bool-cases (named id (expired m))) [
        | inl gone ↦ inr (ground arith)
        | inr kept ↦ inl (ground arith)
      ]
