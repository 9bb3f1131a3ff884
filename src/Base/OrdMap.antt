-- ===== src/Base/OrdMap.antt =====
-- `BTreeMap` as the list of its entries by increasing key, which is what its iterators show.
-- `BTreeSet` is the map whose values are all `tt`, as in the standard library.
pub mod Lookup
pub mod Ext
pub mod Sets
pub mod Entries
use Prim.Native.Nat.Ordering.{lt, eq, gt}
use mathlib.Core.Path.{◌≡◌}
use mathlib.Core.Bool.{Bool, true, false}
use mathlib.Core.Option.{Option, none, some}
use mathlib.Core.List.{List, [], ◌∷◌}
use astesia.Base.Tests.{is_some}
use astesia.Base.Order.{Ord}

abbrev pub OrdMap {ℓ κ} : Type ℓ → Type κ → Type (ℓ ⊔ κ)
OrdMap K V = List (K × V)

abbrev pub OrdSet {ℓ} : Type ℓ → Type ℓ
OrdSet K = List (K × Unit {0})

module _ {ℓ κ} {K : Type ℓ} {V : Type κ} ⦃o : Ord K⦄ where
  -- `get` stops at the first key that is not smaller.
  unfoldable pub get : K → OrdMap K V → Option V
  get k [] = none
  get k ((j, w) ∷ m) = elim (o.cmp k j) [ lt ↦ none | eq ↦ some w | gt ↦ get k m ]

  unfoldable pub insert : K → V → OrdMap K V → OrdMap K V
  insert k v [] = (k, v) ∷ []
  insert k v ((j, w) ∷ m) = elim (o.cmp k j) [
    | lt ↦ (k, v) ∷ (j, w) ∷ m
    | eq ↦ (k, v) ∷ m
    | gt ↦ (j, w) ∷ insert k v m
  ]

  unfoldable pub remove : K → OrdMap K V → OrdMap K V
  remove k [] = []
  remove k ((j, w) ∷ m) = elim (o.cmp k j) [ lt ↦ (j, w) ∷ m | eq ↦ m | gt ↦ (j, w) ∷ remove k m ]

  unfoldable pub contains_key : K → OrdMap K V → Bool
  unfolding get
  contains_key k m = is_some (get k m)

  -- `Extend`: the entries are inserted one after another.
  unfoldable pub extend : OrdMap K V → List (K × V) → OrdMap K V
  unfolding insert
  extend m [] = m
  extend m ((k, v) ∷ es) = extend (insert k v m) es

  -- Every key of the map is greater than `k`.
  abbrev pub Above : K → OrdMap K V → Type (ℓ ⊔ κ)
  Above k [] = Unit
  Above k ((j, w) ∷ m) = (o.cmp k j ≡ lt) × Above k m

  -- The keys increase.
  abbrev pub IsSorted : OrdMap K V → Type (ℓ ⊔ κ)
  IsSorted [] = Unit
  IsSorted ((j, w) ∷ m) = Above j m × IsSorted m
