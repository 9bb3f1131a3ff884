-- ===== src/Base/OrdMap/Entries.antt =====
-- What holds of every entry of a map holds after each operation.
use mathlib.Core.Path.{◌≡◌}
use mathlib.Core.Bool.{Bool}
use mathlib.Core.Option.{some}
use mathlib.Core.List.{List, [], ◌∷◌}
use native.Mathlib.Omega.{arith}
use astesia.Base.Lists.{All, keep}
use astesia.Base.Order.{Ord}
use astesia.Base.OrdMap.{OrdMap, OrdSet, get, insert, remove}
use astesia.Base.OrdMap.Sets.{insert_all}

module _ {ℓ κ} {K : Type ℓ} {V : Type κ} ⦃o : Ord K⦄ (P : K × V → Type 0) where
  pub All-insert : (k : K) (v : V) (m : OrdMap K V) → P (k, v) → All P m → All P (insert k v m)
  unfolding insert
  All-insert k v [] p h = (p, tt)
  All-insert k v ((j, w) ∷ m) p h = ground (arith, All-insert k v m p h.1)

  pub All-remove : (k : K) (m : OrdMap K V) → All P m → All P (remove k m)
  unfolding remove
  All-remove k [] h = tt
  All-remove k ((j, w) ∷ m) h = ground (arith, All-remove k m h.1)

  pub All-keep : (p : K × V → Bool) (m : OrdMap K V) → All P m → All P (keep p m)
  unfolding keep
  All-keep p [] h = tt
  All-keep p ((j, w) ∷ m) h = ground (arith, All-keep p m h.1)

  pub All-get : (k : K) (v : V) (m : OrdMap K V) → All P m → get k m ≡ some v → P (k, v)
  unfolding get
  All-get k v [] h e = absurd (cc)
  All-get k v ((j, w) ∷ m) h e = ground (arith, o.laws.cmp_eq k j, All-get k v m h.1)

module _ {ℓ} {K : Type ℓ} ⦃o : Ord K⦄ (P : K → Type 0) where
  pub All-insert_all :
      (s : OrdSet K) (ks : List K)
      → All (λ e. P (e.0)) s
      → All P ks
      → All (λ e. P (e.0)) (insert_all s ks)
  unfolding insert_all
  All-insert_all s [] h p = h
  All-insert_all s (k ∷ ks) h p =
      All-insert_all (insert k tt s) ks (All-insert (λ e. P (e.0)) k tt s p.0 h) p.1
