-- ===== src/Base/OrdMap/Sets.antt =====
-- Sets of keys: adding a list of keys that are new, and taking the same keys out again.
use Prim.Native.Nat.Ordering.{lt}
use mathlib.Core.Path.{◌≡◌, refl}
use mathlib.Core.Option.{none}
use mathlib.Core.List.{List, [], ◌∷◌}
use native.Mathlib.Omega.{arith}
use astesia.Base.Lists.{All}
use astesia.Base.Order.{Ord}
use astesia.Base.OrdMap.{OrdMap, OrdSet, get, insert, remove, IsSorted}
use astesia.Base.OrdMap.Lookup.{get-insert, get-remove, insert-IsSorted, remove-IsSorted}
use astesia.Base.OrdMap.Ext.{ext, remove-insert}

abbrev pub keys_of {ℓ κ} : {K : Type ℓ} {V : Type κ} → OrdMap K V → List K
keys_of [] = []
keys_of ((k, _) ∷ m) = k ∷ keys_of m

module _ {ℓ} {K : Type ℓ} ⦃o : Ord K⦄ where
  -- `set.extend(keys)`
  unfoldable pub insert_all : OrdSet K → List K → OrdSet K
  insert_all s [] = s
  insert_all s (k ∷ ks) = insert_all (insert k tt s) ks

  -- `for key in keys { set.remove(&key); }`
  unfoldable pub remove_all : List K → OrdSet K → OrdSet K
  remove_all [] s = s
  remove_all (k ∷ ks) s = remove_all ks (remove k s)

  -- The keys of the list increase.
  abbrev pub IsIncreasing : List K → Type ℓ
  IsIncreasing [] = Unit
  IsIncreasing (k ∷ ks) = All (λ j. o.cmp k j ≡ lt) ks × IsIncreasing ks

  -- No key of the list is in the set.
  abbrev pub AreNew : OrdSet K → List K → Type 0
  AreNew s ks = All (λ k. get k s ≡ none) ks

  pub insert_all-IsSorted : (s : OrdSet K) (ks : List K) → IsSorted s → IsSorted (insert_all s ks)
  unfolding insert_all
  insert_all-IsSorted s [] h = h
  insert_all-IsSorted s (k ∷ ks) h =
      insert_all-IsSorted (insert k tt s) ks (insert-IsSorted k tt s h)

  pub remove_all-IsSorted : (ks : List K) (s : OrdSet K) → IsSorted s → IsSorted (remove_all ks s)
  unfolding remove_all
  remove_all-IsSorted [] s h = h
  remove_all-IsSorted (k ∷ ks) s h = remove_all-IsSorted ks (remove k s) (remove-IsSorted k s h)

  remove-insert_ne :
      (k j : K) (s : OrdSet K)
      → IsSorted s
      → o.cmp k j ≡ lt
      → remove k (insert j tt s) ≡ insert j tt (remove k s)
  remove-insert_ne k j s h lt_kj =
      ext _ _ (remove-IsSorted k _ (insert-IsSorted j tt s h))
        (insert-IsSorted j tt _ (remove-IsSorted k s h))
        λ q. ground (
          arith,
          o.laws.cmp_eq q k,
          o.laws.cmp_eq q j,
          o.laws.cmp_self j,
          get-remove q k (insert j tt s) (insert-IsSorted j tt s h),
          get-insert q j tt s,
          get-insert q j tt (remove k s),
          get-remove q k s h,
        )

  remove-insert_all :
      (k : K) (ks : List K) (s : OrdSet K)
      → IsSorted s
      → All (λ j. o.cmp k j ≡ lt) ks
      → remove k (insert_all s ks) ≡ insert_all (remove k s) ks
  unfolding insert_all
  remove-insert_all k [] s h a = refl
  remove-insert_all k (j ∷ ks) s h a = rw (
    remove-insert_all k ks (insert j tt s) (insert-IsSorted j tt s h) a.1,
    remove-insert_ne k j s h a.0,
  )

  -- New keys that increase are all taken out again, and nothing else is.
  pub remove_all-insert_all :
      (ks : List K) (s : OrdSet K)
      → IsSorted s
      → IsIncreasing ks
      → AreNew s ks
      → remove_all ks (insert_all s ks) ≡ s
  unfolding remove_all insert_all
  remove_all-insert_all [] s h i n = refl
  remove_all-insert_all (k ∷ ks) s h i n =
      rw
        (
          remove-insert_all k ks (insert k tt s) (insert-IsSorted k tt s h) i.0,
          remove-insert k tt s h n.0,
        )
        (remove_all-insert_all ks s h i.1 n.1)
