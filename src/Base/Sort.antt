-- ===== src/Base/Sort.antt =====
-- `slice::sort_by`: a stable sort, which puts an element before the first that is greater.
use Prim.Native.Nat.{suc, Ordering}
use mathlib.Core.Path.{◌≡◌, refl, ap, ◌∙◌}
use mathlib.Core.Logic.{◌≢◌, ◌⊎◌, inl, inr}
use mathlib.Core.List.{List, [], ◌∷◌, Perm}
use mathlib.Core.List.Perm
use native.Mathlib.Omega.{arith}
use astesia.Base.Lists.{length, All, Any}

module _ {ℓ} {A : Type ℓ} where
  unfoldable pub insert_by : (A → A → Ordering) → A → List A → List A
  insert_by cmp x [] = x ∷ []
  insert_by cmp x (y ∷ ys) = elim (cmp x y) [
    | Ordering.gt ↦ y ∷ insert_by cmp x ys
    | _ ↦ x ∷ y ∷ ys
  ]

  unfoldable pub sort_by : (A → A → Ordering) → List A → List A
  unfolding insert_by
  sort_by cmp [] = []
  sort_by cmp (x ∷ xs) = insert_by cmp x (sort_by cmp xs)

  -- No element comes before a smaller one.
  abbrev pub IsOrdered : (A → A → Ordering) → List A → Type ℓ
  IsOrdered cmp [] = Unit
  IsOrdered cmp (x ∷ xs) = All (λ y. cmp x y ≢ Ordering.gt) xs × IsOrdered cmp xs

  pub All-insert_by {κ} :
      (cmp : A → A → Ordering) (P : A → Type κ) (x : A) (ys : List A)
      → P x
      → All P ys
      → All P (insert_by cmp x ys)
  unfolding insert_by
  All-insert_by cmp P x [] p a = (p, tt)
  All-insert_by cmp P x (y ∷ ys) p a = ground (arith, All-insert_by cmp P x ys p a.1)

  pub All-sort_by {κ} :
      (cmp : A → A → Ordering) (P : A → Type κ) (xs : List A) → All P xs → All P (sort_by cmp xs)
  unfolding sort_by
  All-sort_by cmp P [] a = tt
  All-sort_by cmp P (x ∷ xs) a =
      All-insert_by cmp P x (sort_by cmp xs) a.0 (All-sort_by cmp P xs a.1)

  All-uninsert_by {κ} :
      (cmp : A → A → Ordering) (P : A → Type κ) (x : A) (ys : List A)
      → All P (insert_by cmp x ys)
      → P x × All P ys
  unfolding insert_by
  All-uninsert_by cmp P x [] a = a
  All-uninsert_by cmp P x (y ∷ ys) a = ground (arith, All-uninsert_by cmp P x ys)

  pub All-unsort_by {κ} :
      (cmp : A → A → Ordering) (P : A → Type κ) (xs : List A) → All P (sort_by cmp xs) → All P xs
  unfolding sort_by
  All-unsort_by cmp P [] a = tt
  All-unsort_by cmp P (x ∷ xs) a =
      let (p, rest) = All-uninsert_by cmp P x (sort_by cmp xs) a in (p, All-unsort_by cmp P xs rest)

  Any-uninsert_by :
      (cmp : A → A → Ordering) (P : A → Type 0) (x : A) (ys : List A)
      → Any P (insert_by cmp x ys)
      → P x ⊎ Any P ys
  unfolding insert_by
  Any-uninsert_by cmp P x [] a = a
  Any-uninsert_by cmp P x (y ∷ ys) a = ground (arith, Any-uninsert_by cmp P x ys)

  pub Any-unsort_by :
      (cmp : A → A → Ordering) (P : A → Type 0) (xs : List A) → Any P (sort_by cmp xs) → Any P xs
  unfolding sort_by
  Any-unsort_by cmp P [] a = a
  Any-unsort_by cmp P (x ∷ xs) a = elim (Any-uninsert_by cmp P x (sort_by cmp xs) a) [
    | inl here ↦ inl here
    | inr there ↦ inr (Any-unsort_by cmp P xs there)
  ]

  length-insert_by :
      (cmp : A → A → Ordering) (x : A) (ys : List A) → length (insert_by cmp x ys) ≡ suc (length ys)
  unfolding insert_by
  length-insert_by cmp x [] = refl
  length-insert_by cmp x (y ∷ ys) = ground (arith, length-insert_by cmp x ys)

  pub length-sort_by : (cmp : A → A → Ordering) (xs : List A) → length (sort_by cmp xs) ≡ length xs
  unfolding sort_by
  length-sort_by cmp [] = refl
  length-sort_by cmp (x ∷ xs) =
      length-insert_by cmp x (sort_by cmp xs) ∙ ap suc (length-sort_by cmp xs)

  insert_by-perm :
      (cmp : A → A → Ordering) (x : A) (ys : List A) → Perm (insert_by cmp x ys) (x ∷ ys)
  unfolding insert_by
  insert_by-perm cmp x [] = Perm.refl (x ∷ [])
  insert_by-perm cmp x (y ∷ ys) =
      elim (cmp x y)
        as (λ (c : Ordering).
          Perm (elim c [ Ordering.gt ↦ y ∷ insert_by cmp x ys | _ ↦ x ∷ y ∷ ys ]) (x ∷ y ∷ ys)) [
            | Ordering.gt ↦ Perm.trans (Perm.cons y (insert_by-perm cmp x ys)) (Perm.swap x y ys)
            | _ ↦ Perm.refl (x ∷ y ∷ ys)
          ]

  pub sort_by-perm : (cmp : A → A → Ordering) (xs : List A) → Perm (sort_by cmp xs) xs
  unfolding sort_by
  sort_by-perm cmp [] = Perm.refl []
  sort_by-perm cmp (x ∷ xs) =
      Perm.trans (insert_by-perm cmp x (sort_by cmp xs)) (Perm.cons x (sort_by-perm cmp xs))

  module _ (cmp : A → A → Ordering)
      (trans : (a b c : A) → cmp a b ≢ Ordering.gt → cmp b c ≢ Ordering.gt → cmp a c ≢ Ordering.gt)
      (total : (a b : A) → cmp a b ≡ Ordering.gt → cmp b a ≢ Ordering.gt) where
    before-All :
        (x y : A) (ys : List A)
        → cmp x y ≢ Ordering.gt
        → All (λ z. cmp y z ≢ Ordering.gt) ys
        → All (λ z. cmp x z ≢ Ordering.gt) ys
    before-All x y [] h a = tt
    before-All x y (z ∷ zs) h a = (trans x y z h a.0, before-All x y zs h a.1)

    insert_by-IsOrdered :
        (x : A) (ys : List A) → IsOrdered cmp ys → IsOrdered cmp (insert_by cmp x ys)
    unfolding insert_by
    insert_by-IsOrdered x [] o = (tt, tt)
    insert_by-IsOrdered x (y ∷ ys) o = ground (
      arith,
      total x y,
      before-All x y ys,
      insert_by-IsOrdered x ys o.1,
      All-insert_by cmp (λ z. cmp y z ≢ Ordering.gt) x ys,
    )

    pub sort_by-IsOrdered : (xs : List A) → IsOrdered cmp (sort_by cmp xs)
    unfolding sort_by
    sort_by-IsOrdered [] = tt
    sort_by-IsOrdered (x ∷ xs) = insert_by-IsOrdered x (sort_by cmp xs) (sort_by-IsOrdered xs)
