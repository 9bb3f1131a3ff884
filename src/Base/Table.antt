-- ===== src/Base/Table.antt =====
-- `HashMap` as the list of its entries, in no order that the program may rely on.
use Prim.Native.Nat.{ℕ}
use Prim.Native.String.{String}
use mathlib.Core.Path.{◌≡◌, refl, subst}
use mathlib.Core.Logic.{◌↔◌, inl, inr}
use mathlib.Core.Bool.{Bool, true}
use mathlib.Core.Option.{Option, none, some}
use mathlib.Core.List.{List, [], ◌∷◌}
use native.Mathlib.Omega.{arith}
use text.Mathlib.Text.{◌==◌ as str_eq}
use text.Mathlib.TextEquality.{eq_iff}
use astesia.Base.Tests.{◌==◌, ==_iff, if◌then◌else◌, is_some, Bool-cases}
use astesia.Base.Lists.{All}

-- The traits `Eq` and `Hash` of a key.
pub record Key {ℓ} (K : Type ℓ) : Type ℓ where
  pub same : K → K → Bool
  pub same_iff : (a b : K) → (same a b ≡ true) ↔ (a ≡ b)

instance abbrev pub nat_key : Key ℕ
nat_key = record { same = λ a b. a == b; same_iff = ==_iff }

instance abbrev pub string_key : Key String
string_key = record { same = str_eq; same_iff = eq_iff }

pub same_self {ℓ} : {K : Type ℓ} ⦃key : Key K⦄ (k : K) → key.same k k ≡ true
same_self ⦃key⦄ k = (key.same_iff k k).1 refl

abbrev pub Table {ℓ κ} : Type ℓ → Type κ → Type (ℓ ⊔ κ)
Table K V = List (K × V)

module _ {ℓ κ} {K : Type ℓ} {V : Type κ} ⦃key : Key K⦄ where
  unfoldable pub get : K → Table K V → Option V
  get k [] = none
  get k ((j, v) ∷ m) = if key.same j k then some v else get k m

  unfoldable pub remove : K → Table K V → Table K V
  remove k [] = []
  remove k ((j, v) ∷ m) = let rest = remove k m in if key.same j k then rest else (j, v) ∷ rest

  unfoldable pub insert : K → V → Table K V → Table K V
  unfolding remove
  insert k v m = (k, v) ∷ remove k m

  -- The write through `get_mut`: nothing, where the key is missing.
  unfoldable pub update : K → V → Table K V → Table K V
  update k v [] = []
  update k v ((j, w) ∷ m) = if key.same j k then (j, v) ∷ m else (j, w) ∷ update k v m

  -- A key stands in one entry at most.
  abbrev pub IsTable : Table K V → Type κ
  IsTable [] = Unit
  IsTable ((k, v) ∷ m) = (get k m ≡ none) × IsTable m

  pub get-remove :
      (j k : K) (m : Table K V) → get j (remove k m) ≡ (if key.same k j then none else get j m)
  unfolding get remove
  get-remove j k [] = ground arith
  get-remove j k ((i, v) ∷ m) =
      ground (arith, key.same_iff i k, key.same_iff i j, key.same_iff k j, get-remove j k m)

  pub get-insert :
      (j k : K) (v : V) (m : Table K V)
      → get j (insert k v m) ≡ (if key.same k j then some v else get j m)
  unfolding get insert
  get-insert j k v m = ground (arith, get-remove j k m)

  pub get-update :
      (j k : K) (v : V) (m : Table K V)
      → get j (update k v m)
        ≡ (if key.same k j then (if is_some (get k m) then some v else none) else get j m)
  unfolding get update
  get-update j k v [] = ground arith
  get-update j k v ((i, w) ∷ m) =
      ground (arith, key.same_iff i k, key.same_iff i j, key.same_iff k j, get-update j k v m)

  pub remove-IsTable : (k : K) (m : Table K V) → IsTable m → IsTable (remove k m)
  unfolding remove
  remove-IsTable k [] t = tt
  remove-IsTable k ((i, v) ∷ m) t = ground (arith, get-remove i k m, remove-IsTable k m t.1)

  pub insert-IsTable : (k : K) (v : V) (m : Table K V) → IsTable m → IsTable (insert k v m)
  unfolding insert
  insert-IsTable k v m t = ground (arith, get-remove k k m, same_self k, remove-IsTable k m t)

  pub update-IsTable : (k : K) (v : V) (m : Table K V) → IsTable m → IsTable (update k v m)
  unfolding update
  update-IsTable k v [] t = tt
  update-IsTable k v ((i, w) ∷ m) t =
      ground
        (arith, get-update i k v m, key.same_iff k i, key.same_iff i k, update-IsTable k v m t.1)

  pub All-remove {μ} : (P : K × V → Type μ) (k : K) (m : Table K V) → All P m → All P (remove k m)
  unfolding remove
  All-remove P k [] a = tt
  All-remove P k ((j, v) ∷ m) a = ground (arith, All-remove P k m a.1)

  pub All-update {μ} :
      (P : K × V → Type μ) (k : K) (v : V) (m : Table K V)
      → ((j : K) → key.same j k ≡ true → P (j, v))
      → All P m
      → All P (update k v m)
  unfolding update
  All-update P k v [] p a = tt
  All-update P k v ((j, w) ∷ m) p a = elim (Bool-cases (key.same j k)) [
    | inl here ↦ rw here (p j here, a.1)
    | inr other ↦ rw other (a.0, All-update P k v m p a.1)
  ]

  pub All-get {μ} :
      (P : K × V → Type μ) (k : K) (m : Table K V) {v : V} → All P m → get k m ≡ some v → P (k, v)
  unfolding get
  All-get P k [] a e = absurd (cc)
  All-get P k ((j, w) ∷ m) {v} a e = elim (Bool-cases (key.same j k)) [
    | inl here ↦ subst (λ (q : K × V). P q) (ground (arith, key.same_iff j k)) a.0
    | inr other ↦ All-get P k m a.1 (ground arith)
  ]
