-- ===== src/Tasks/History.antt =====
-- `prune_completed`: the history keeps the newest completed tasks, and every active one.
use astesia.Base.{
  ℕ, zero, suc, ◌+◌, min, ◌≡◌, refl, sym, subst, false, inl, inr, none, some, List, [], ◌∷◌, arith,
  Ordering, All, length, Option-cases,
}
use astesia.Base.Sort.{insert_by, sort_by, All-sort_by, All-insert_by}
use astesia.Base.Table.{Key, Table, get, remove, IsTable}
use astesia.Tasks.{TaskEntry, completed_of, take}
use astesia.Tasks.Invariant.{AreValid}

module _ {ℓ} {A : Type ℓ} where
  unfoldable pub drop : ℕ → List A → List A
  drop zero xs = xs
  drop (suc n) [] = []
  drop (suc n) (x ∷ xs) = drop n xs

  pub All-take {κ} : (P : A → Type κ) (n : ℕ) (xs : List A) → All P xs → All P (take n xs)
  unfolding take
  All-take P zero xs a = tt
  All-take P (suc n) [] a = tt
  All-take P (suc n) (x ∷ xs) a = (a.0, All-take P n xs a.1)

  pub length-take : (n : ℕ) (xs : List A) → length (take n xs) ≡ min n (length xs)
  unfolding take
  length-take zero xs = omega arith
  length-take (suc n) [] = omega arith
  length-take (suc n) (x ∷ xs) = omega (arith, length-take n xs)

module _ {I : Type 0} ⦃k : Key I⦄ where
  -- No id stands in two pairs.
  abbrev pub AreDistinct : List (ℕ × I) → Type 0
  AreDistinct [] = Unit
  AreDistinct (p ∷ ps) = All (λ q. k.same p.1 q.1 ≡ false) ps × AreDistinct ps

  AreDistinct-insert :
      (cmp : ℕ × I → ℕ × I → Ordering) (p : ℕ × I) (ps : List (ℕ × I))
      → All (λ q. k.same p.1 q.1 ≡ false) ps
      → AreDistinct ps
      → AreDistinct (insert_by cmp p ps)
  unfolding insert_by
  AreDistinct-insert cmp p [] a d = (tt, tt)
  AreDistinct-insert cmp p (q ∷ qs) a d = ground (
    arith,
    k.same_iff p.1 q.1,
    k.same_iff q.1 p.1,
    All-insert_by cmp (λ r. k.same q.1 r.1 ≡ false) p qs,
    AreDistinct-insert cmp p qs a.1 d.1,
  )

  pub AreDistinct-sort :
      (cmp : ℕ × I → ℕ × I → Ordering) (ps : List (ℕ × I))
      → AreDistinct ps
      → AreDistinct (sort_by cmp ps)
  unfolding sort_by
  AreDistinct-sort cmp [] d = tt
  AreDistinct-sort cmp (p ∷ ps) d =
      AreDistinct-insert cmp p (sort_by cmp ps)
        (All-sort_by cmp (λ q. k.same p.1 q.1 ≡ false) ps d.0) (AreDistinct-sort cmp ps d.1)

  pub AreDistinct-take : (n : ℕ) (ps : List (ℕ × I)) → AreDistinct ps → AreDistinct (take n ps)
  unfolding take
  AreDistinct-take zero ps d = tt
  AreDistinct-take (suc n) [] d = tt
  AreDistinct-take (suc n) (p ∷ ps) d =
      (All-take (λ q. k.same p.1 q.1 ≡ false) n ps d.0, AreDistinct-take n ps d.1)

module _ {I F : Type 0} ⦃k : Key I⦄ where
  -- The pair is that of a completed task of the table.
  abbrev pub IsCompleted : Table I (TaskEntry I F) → ℕ × I → Type 0
  IsCompleted m p = (e : TaskEntry I F) × (get p.1 m ≡ some e) × (e.task.completed_at ≡ some p.0)

  IsCompleted-cons :
      (i : I) (e : TaskEntry I F) (m : Table I (TaskEntry I F)) (ps : List (ℕ × I))
      → get i m ≡ none
      → All (IsCompleted m) ps
      → All (IsCompleted ((i, e) ∷ m)) ps
  unfolding get
  IsCompleted-cons i e m [] h a = tt
  IsCompleted-cons i e m (p ∷ ps) h a =
      let (d, found, at) = a.0 in
      ((d, ground (arith, k.same_iff i p.1), at), IsCompleted-cons i e m ps h a.1)

  pub completed_of-active :
      (i : I) (e : TaskEntry I F) (m : Table I (TaskEntry I F))
      → e.task.completed_at ≡ none
      → completed_of ((i, e) ∷ m) ≡ completed_of m
  unfolding completed_of
  completed_of-active i e m h = ground arith

  pub completed_of-ended :
      (i : I) (e : TaskEntry I F) (m : Table I (TaskEntry I F)) (at : ℕ)
      → e.task.completed_at ≡ some at
      → completed_of ((i, e) ∷ m) ≡ (at, e.task.id) ∷ completed_of m
  unfolding completed_of
  completed_of-ended i e m at h = ground arith

  remove_missing : (i : I) (m : Table I (TaskEntry I F)) → get i m ≡ none → remove i m ≡ m
  unfolding get remove
  remove_missing i [] h = refl
  remove_missing i ((j, d) ∷ m) h = ground (arith, remove_missing i m)

  get-first :
      (i j : I) (e : TaskEntry I F) (m : Table I (TaskEntry I F))
      → j ≡ i
      → get j ((i, e) ∷ m) ≡ some e
  unfolding get
  get-first i j e m h = ground (arith, k.same_iff i j)

  pub completed_of-IsCompleted :
      (m : Table I (TaskEntry I F)) → AreValid m → IsTable m → All (IsCompleted m) (completed_of m)
  unfolding completed_of
  completed_of-IsCompleted [] v t = tt
  completed_of-IsCompleted ((i, e) ∷ m) v t =
      let rest = IsCompleted-cons i e m (completed_of m) t.0 (completed_of-IsCompleted m v.1 t.1) in
      elim (Option-cases e.task.completed_at) [
        | inl active ↦
            subst (λ ps. All (IsCompleted ((i, e) ∷ m)) ps) (sym (completed_of-active i e m active))
              rest
        | inr (at, ended) ↦
            subst (λ ps. All (IsCompleted ((i, e) ∷ m)) ps)
              (sym (completed_of-ended i e m at ended))
              ((e, get-first i e.task.id e m v.0.own_id, ended), rest)
      ]

  absent-distinct :
      (i : I) (m : Table I (TaskEntry I F)) (ps : List (ℕ × I))
      → get i m ≡ none
      → All (IsCompleted m) ps
      → All (λ q. k.same i q.1 ≡ false) ps
  absent-distinct i m [] h a = tt
  absent-distinct i m (p ∷ ps) h a =
      let (d, found, _) = a.0 in (ground (arith, k.same_iff i p.1), absent-distinct i m ps h a.1)

  pub completed_of-distinct :
      (m : Table I (TaskEntry I F)) → AreValid m → IsTable m → AreDistinct (completed_of m)
  unfolding completed_of
  completed_of-distinct [] v t = tt
  completed_of-distinct ((i, e) ∷ m) v t =
      let rest = completed_of-distinct m v.1 t.1 in
      elim (Option-cases e.task.completed_at) [
        | inl active ↦ subst AreDistinct (sym (completed_of-active i e m active)) rest
        | inr (at, ended) ↦ subst AreDistinct (sym (completed_of-ended i e m at ended)) (
          absent-distinct e.task.id m (completed_of m)
              (subst (λ j. get j m ≡ none) (sym v.0.own_id) t.0)
              (completed_of-IsCompleted m v.1 t.1),
          rest,
        )
      ]

  -- Removing a completed task takes one pair away.
  pub length-remove :
      (i : I) (e : TaskEntry I F) (m : Table I (TaskEntry I F)) (at : ℕ)
      → IsTable m
      → get i m ≡ some e
      → e.task.completed_at ≡ some at
      → length (completed_of (remove i m)) + 1 ≡ length (completed_of m)
  unfolding get remove completed_of
  length-remove i e [] at t h c = absurd (cc)
  length-remove i e ((j, d) ∷ m) at t h c =
      ground (arith, k.same_iff j i, remove_missing j m, length-remove i e m at t.1)
