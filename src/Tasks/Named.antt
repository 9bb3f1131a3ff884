-- ===== src/Tasks/Named.antt =====
-- What removing the tasks that a list names leaves of a table.
use astesia.Base.{
  ℕ, zero, suc, ◌+◌, ◌≡◌, ◌≢◌, refl, sym, subst, ◌∙◌, Bool, true, false, not, ◌||◌, ◌⊎◌, inl, inr,
  none, some, List, [], ◌∷◌, arith, Ordering, All, length, keep, if◌then◌else◌,
}
use astesia.Base.Order.{Ord}
use astesia.Base.Sort.{IsOrdered}
use astesia.Base.Table.{
  Key, Table, get, remove, IsTable, get-remove, remove-IsTable, same_self, All-remove,
}
use astesia.Tasks.{TaskEntry, completed_of, at_cmp, take, remove_each}
use astesia.Tasks.Invariant.{IsValidEntry, AreValid}
use astesia.Tasks.History.{drop, AreDistinct, IsCompleted, length-remove}

module _ {I : Type 0} ⦃o : Ord I⦄ where
  pub at_trans :
      (a b c : ℕ × I)
      → at_cmp a b ≢ Ordering.gt
      → at_cmp b c ≢ Ordering.gt
      → at_cmp a c ≢ Ordering.gt
  unfolding at_cmp
  at_trans a b c h g = ground (
    arith,
    o.laws.cmp_trans a.1 b.1 c.1,
    o.laws.cmp_eq a.1 b.1,
    o.laws.cmp_eq b.1 c.1,
    o.laws.cmp_self c.1,
  )

  pub at_total : (a b : ℕ × I) → at_cmp a b ≡ Ordering.gt → at_cmp b a ≢ Ordering.gt
  unfolding at_cmp
  at_total a b h = ground (arith, o.laws.cmp_gt a.1 b.1)

module _ {I : Type 0} ⦃k : Key I⦄ where
  unfoldable pub named : I → List (ℕ × I) → Bool
  named id [] = false
  named id (p ∷ ps) = k.same p.1 id || named id ps

  pub named_self : (ps : List (ℕ × I)) → All (λ p. named p.1 ps ≡ true) ps
  unfolding named
  named_self ps = sub ps ps (λ i h. h)
    where
      sub :
          (ps qs : List (ℕ × I))
          → ((i : I) → named i ps ≡ true → named i qs ≡ true)
          → All (λ p. named p.1 qs ≡ true) ps
      sub [] qs h = tt
      sub (p ∷ ps) qs h =
          (h p.1 (ground (arith, same_self p.1)), sub ps qs (λ i g. h i (ground arith)))

module _ {I F : Type 0} ⦃k : Key I⦄ where
  pub get-remove_each :
      (id : I) (ps : List (ℕ × I)) (m : Table I (TaskEntry I F))
      → get id (remove_each ps m) ≡ (if named id ps then none else get id m)
  unfolding remove_each named
  get-remove_each id [] m = ground arith
  get-remove_each id (p ∷ ps) m =
      get-remove_each id ps (remove p.1 m) ∙ ground (arith, get-remove id p.1 m)

  pub still-IsCompleted :
      (i : I) (m : Table I (TaskEntry I F)) (ps : List (ℕ × I))
      → All (λ q. k.same i q.1 ≡ false) ps
      → All (IsCompleted m) ps
      → All (IsCompleted (remove i m)) ps
  still-IsCompleted i m [] d a = tt
  still-IsCompleted i m (p ∷ ps) d a =
      let (e, found, at) = a.0 in
      ((e, ground (arith, get-remove p.1 i m), at), still-IsCompleted i m ps d.1 a.1)

  pub length-remove_each :
      (ps : List (ℕ × I)) (m : Table I (TaskEntry I F))
      → IsTable m
      → AreDistinct ps
      → All (IsCompleted m) ps
      → length (completed_of (remove_each ps m)) + length ps ≡ length (completed_of m)
  unfolding remove_each
  length-remove_each [] m t d a = omega arith
  length-remove_each (p ∷ ps) m t d a =
      let (e, found, at) = a.0 in
      omega (
        arith,
        length-remove p.1 e m p.0 t found at,
        length-remove_each ps (remove p.1 m) (remove-IsTable p.1 m t) d.1
            (still-IsCompleted p.1 m ps d.0 a.1),
      )

  -- An active entry is not among completed pairs.
  pub unnamed_active :
      (id : I) (e : TaskEntry I F) (m : Table I (TaskEntry I F)) (ps : List (ℕ × I))
      → get id m ≡ some e
      → e.task.completed_at ≡ none
      → All (IsCompleted m) ps
      → named id ps ≡ false
  unfolding named
  unnamed_active id e m [] h c a = refl
  unnamed_active id e m (p ∷ ps) h c a =
      let (d, found, at) = a.0 in
      ground (arith, k.same_iff p.1 id, unnamed_active id e m ps h c a.1)

  pub completed_of-remove :
      (i : I) (m : Table I (TaskEntry I F))
      → AreValid m
      → completed_of (remove i m) ≡ keep (λ q. not (k.same q.1 i)) (completed_of m)
  unfolding completed_of remove keep
  completed_of-remove i [] v = refl
  completed_of-remove i ((j, e) ∷ m) v = ground (arith, v.0.own_id, completed_of-remove i m v.1)

module _ {ℓ} {A : Type ℓ} where
  pub All-join {κ} :
      (P : A → Type κ) (n : ℕ) (xs : List A) → All P (take n xs) → All P (drop n xs) → All P xs
  unfolding take drop
  All-join P zero xs a b = b
  All-join P (suc n) [] a b = tt
  All-join P (suc n) (x ∷ xs) a b = (a.0, All-join P n xs a.1 b)

  pub All-drop {κ} : (P : A → Type κ) (n : ℕ) (xs : List A) → All P xs → All P (drop n xs)
  unfolding drop
  All-drop P zero xs a = a
  All-drop P (suc n) [] a = tt
  All-drop P (suc n) (x ∷ xs) a = All-drop P n xs a.1

  pub All-imp {κ μ} :
      (P : A → Type κ) (Q : A → Type μ) (xs : List A) → ((x : A) → P x → Q x) → All P xs → All Q xs
  All-imp P Q [] h a = tt
  All-imp P Q (x ∷ xs) h a = (h x a.0, All-imp P Q xs h a.1)

  -- In an ordered list what is taken does not come after what is left.
  pub take-before-drop :
      (cmp : A → A → Ordering) (n : ℕ) (xs : List A)
      → IsOrdered cmp xs
      → All (λ x. All (λ y. cmp x y ≢ Ordering.gt) (drop n xs)) (take n xs)
  unfolding take drop
  take-before-drop cmp zero xs o = tt
  take-before-drop cmp (suc n) [] o = tt
  take-before-drop cmp (suc n) (x ∷ xs) o =
      (All-drop (λ y. cmp x y ≢ Ordering.gt) n xs o.0, take-before-drop cmp n xs o.1)

module _ {I : Type 0} ⦃k : Key I⦄ (Q : ℕ × I → Type 0) where
  pub unname :
      (p : ℕ × I) (ps xs : List (ℕ × I))
      → All (λ q. (named q.1 (p ∷ ps) ≡ true) ⊎ Q q) xs
      → All (λ q. (named q.1 ps ≡ true) ⊎ Q q) (keep (λ q. not (k.same q.1 p.1)) xs)
  unfolding keep named
  unname p ps [] a = tt
  unname p ps (q ∷ xs) a =
      ground (arith, k.same_iff p.1 q.1, k.same_iff q.1 p.1, unname p ps xs a.1)

  pub unnamed : (xs : List (ℕ × I)) → All (λ q. (named q.1 [] ≡ true) ⊎ Q q) xs → All Q xs
  unfolding named
  unnamed [] a = tt
  unnamed (q ∷ xs) a = (elim a.0 [ inl e ↦ absurd (cc e) | inr h ↦ h ], unnamed xs a.1)

module _ {I F : Type 0} ⦃k : Key I⦄ (Q : ℕ × I → Type 0) where
  pub All-remaining :
      (ps : List (ℕ × I)) (m : Table I (TaskEntry I F))
      → AreValid m
      → All (λ q. (named q.1 ps ≡ true) ⊎ Q q) (completed_of m)
      → All Q (completed_of (remove_each ps m))
  unfolding remove_each
  All-remaining [] m v a = unnamed Q (completed_of m) a
  All-remaining (p ∷ ps) m v a =
      All-remaining ps (remove p.1 m) (All-remove (λ r. IsValidEntry r.0 r.1) p.1 m v) (
        subst (λ xs. All (λ q. (named q.1 ps ≡ true) ⊎ Q q) xs) (sym (completed_of-remove p.1 m v))
          (unname Q p ps (completed_of m) a))
