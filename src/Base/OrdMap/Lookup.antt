-- ===== src/Base/OrdMap/Lookup.antt =====
-- What `get` reads after each operation, and that each operation keeps the keys increasing.
use Prim.Native.Nat.Ordering.{lt, eq}
use mathlib.Core.Path.{◌≡◌, refl}
use mathlib.Core.Option.{none, some}
use mathlib.Core.List.{List, [], ◌∷◌}
use native.Mathlib.Omega.{arith}
use astesia.Base.Order.{Ord}
use astesia.Base.OrdMap.{OrdMap, get, insert, remove, extend, Above, IsSorted}

module _ {ℓ κ} {K : Type ℓ} {V : Type κ} ⦃o : Ord K⦄ where
  pub Above-trans : (a b : K) (m : OrdMap K V) → o.cmp a b ≡ lt → Above b m → Above a m
  Above-trans a b [] h u = tt
  Above-trans a b ((j, w) ∷ m) h u = (o.laws.cmp_trans a b j h u.0, Above-trans a b m h u.1)

  pub get-Above : (k : K) (m : OrdMap K V) → Above k m → get k m ≡ none
  unfolding get
  get-Above k [] u = refl
  get-Above k ((j, w) ∷ m) u = rw (u.0, get)

  pub insert-Above :
      (a k : K) (v : V) (m : OrdMap K V) → o.cmp a k ≡ lt → Above a m → Above a (insert k v m)
  unfolding insert
  insert-Above a k v [] h u = (h, tt)
  insert-Above a k v ((j, w) ∷ m) h u = ground (arith, insert-Above a k v m h u.1)

  pub remove-Above : (a k : K) (m : OrdMap K V) → Above a m → Above a (remove k m)
  unfolding remove
  remove-Above a k [] u = tt
  remove-Above a k ((j, w) ∷ m) u = ground (arith, remove-Above a k m u.1)

  pub insert-IsSorted : (k : K) (v : V) (m : OrdMap K V) → IsSorted m → IsSorted (insert k v m)
  unfolding insert
  insert-IsSorted k v [] s = (tt, tt)
  insert-IsSorted k v ((j, w) ∷ m) s = ground (
    arith,
    Above-trans k j m,
    o.laws.cmp_eq k j,
    o.laws.cmp_gt k j,
    insert-Above j k v m,
    insert-IsSorted k v m s.1,
  )

  pub remove-IsSorted : (k : K) (m : OrdMap K V) → IsSorted m → IsSorted (remove k m)
  unfolding remove
  remove-IsSorted k [] s = tt
  remove-IsSorted k ((j, w) ∷ m) s = ground (arith, remove-Above j k m s.0, remove-IsSorted k m s.1)

  pub extend-IsSorted : (m : OrdMap K V) (es : List (K × V)) → IsSorted m → IsSorted (extend m es)
  unfolding extend
  extend-IsSorted m [] s = s
  extend-IsSorted m ((k, v) ∷ es) s = extend-IsSorted (insert k v m) es (insert-IsSorted k v m s)

  pub get-insert :
      (q k : K) (v : V) (m : OrdMap K V)
      → get q (insert k v m) ≡ elim (o.cmp q k) [ eq ↦ some v | _ ↦ get q m ]
  unfolding get insert
  get-insert q k v [] = ground arith
  get-insert q k v ((j, w) ∷ m) = ground (
    arith,
    get-insert q k v m,
    o.laws.cmp_eq q k,
    o.laws.cmp_eq k j,
    o.laws.cmp_trans q k j,
    o.laws.cmp_gt k j,
    o.laws.cmp_trans j k q,
    o.laws.cmp_gt q k,
    o.laws.cmp_lt j q,
  )

  pub get-remove :
      (q k : K) (m : OrdMap K V)
      → IsSorted m
      → get q (remove k m) ≡ elim (o.cmp q k) [ eq ↦ none | _ ↦ get q m ]
  unfolding get remove
  get-remove q k [] s = ground arith
  get-remove q k ((j, w) ∷ m) s = ground (
    arith,
    get-remove q k m s.1,
    o.laws.cmp_eq q k,
    o.laws.cmp_eq k j,
    get-Above q m,
    Above-trans q j m,
  )
