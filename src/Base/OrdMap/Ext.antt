-- ===== src/Base/OrdMap/Ext.antt =====
-- Two maps that read alike are equal, and the equations between maps that follow.
use Prim.Native.Nat.Ordering.{lt}
use mathlib.Core.Path.{◌≡◌, refl}
use mathlib.Core.Bool.{Bool, not}
use mathlib.Core.Option.{none, some}
use mathlib.Core.List.{[], ◌∷◌}
use native.Mathlib.Omega.{arith}
use astesia.Base.Lists.{keep}
use astesia.Base.Order.{Ord}
use astesia.Base.OrdMap.{OrdMap, get, insert, remove, extend, Above, IsSorted}
use astesia.Base.OrdMap.Lookup.{
  get-Above, get-insert, get-remove, insert-IsSorted, remove-IsSorted, Above-trans,
}

module _ {ℓ κ} {K : Type ℓ} {V : Type κ} ⦃o : Ord K⦄ where
  get_tail :
      (k j q : K) (v w : V) (m n : OrdMap K V)
      → k ≡ j
      → Above k m
      → Above j n
      → get q ((k, v) ∷ m) ≡ get q ((j, w) ∷ n)
      → get q m ≡ get q n
  unfolding get
  get_tail k j q v w m n e u t h =
      ground (
        arith,
        o.laws.cmp_eq q k,
        get-Above q m,
        get-Above q n,
        Above-trans q k m,
        Above-trans q j n,
      )

  heads_eq :
      (k j : K) (v w : V) (m n : OrdMap K V)
      → Above k m
      → Above j n
      → get k ((k, v) ∷ m) ≡ get k ((j, w) ∷ n)
      → get j ((k, v) ∷ m) ≡ get j ((j, w) ∷ n)
      → (k ≡ j) × (v ≡ w)
  unfolding get
  heads_eq k j v w m n u t hk hj =
      ground (arith, o.laws.cmp_self k, o.laws.cmp_self j, o.laws.cmp_eq k j, o.laws.cmp_gt k j)

  pub ext : (m n : OrdMap K V) → IsSorted m → IsSorted n → ((q : K) → get q m ≡ get q n) → m ≡ n
  unfolding get
  ext [] [] s t h = refl
  ext [] ((j, w) ∷ n) s t h = ground (arith, h j, o.laws.cmp_self j)
  ext ((k, v) ∷ m) [] s t h = ground (arith, h k, o.laws.cmp_self k)
  ext ((k, v) ∷ m) ((j, w) ∷ n) s t h =
      let e = heads_eq k j v w m n s.0 t.0 (h k) (h j) in
      let tails = ext m n s.1 t.1 (λ q. get_tail k j q v w m n e.0 s.0 t.0 (h q)) in
      cc (e.0, e.1, tails)

  -- Taking back an insertion.
  pub remove-insert :
      (k : K) (v : V) (m : OrdMap K V) → IsSorted m → get k m ≡ none → remove k (insert k v m) ≡ m
  remove-insert k v m s h = ext _ m (remove-IsSorted k _ (insert-IsSorted k v m s)) s λ q. ground (
    arith,
    o.laws.cmp_eq q k,
    get-remove q k (insert k v m) (insert-IsSorted k v m s),
    get-insert q k v m,
  )

  pub insert-insert :
      (k : K) (v w : V) (m : OrdMap K V)
      → IsSorted m
      → get k m ≡ some v
      → insert k v (insert k w m) ≡ m
  insert-insert k v w m s h =
      ext _ m (insert-IsSorted k v _ (insert-IsSorted k w m s)) s
        λ q. ground (arith, o.laws.cmp_eq q k, get-insert q k v (insert k w m), get-insert q k w m)

  -- Taking back a removal.
  pub insert-remove :
      (k : K) (v : V) (m : OrdMap K V) → IsSorted m → get k m ≡ some v → insert k v (remove k m) ≡ m
  insert-remove k v m s h =
      ext _ m (insert-IsSorted k v _ (remove-IsSorted k m s)) s
        λ q. ground (arith, o.laws.cmp_eq q k, get-insert q k v (remove k m), get-remove q k m s)

  pub remove_absent : (k : K) (m : OrdMap K V) → IsSorted m → get k m ≡ none → remove k m ≡ m
  remove_absent k m s h =
      ext _ m (remove-IsSorted k m s) s λ q. ground (arith, o.laws.cmp_eq q k, get-remove q k m s)

  insert-Above : (k : K) (v : V) (m : OrdMap K V) → Above k m → insert k v m ≡ (k, v) ∷ m
  unfolding insert
  insert-Above k v [] u = refl
  insert-Above k v ((j, w) ∷ m) u = rw (u.0, insert)

  insert_over :
      (k j : K) (v w : V) (m : OrdMap K V)
      → o.cmp k j ≡ lt
      → insert j w ((k, v) ∷ m) ≡ (k, v) ∷ insert j w m
  unfolding insert
  insert_over k j v w m h = rw (o.laws.cmp_lt k j h, insert)

  extend-Above :
      (k : K) (v : V) (m es : OrdMap K V)
      → Above k es
      → extend ((k, v) ∷ m) es ≡ (k, v) ∷ extend m es
  unfolding extend
  extend-Above k v m [] u = refl
  extend-Above k v m ((j, w) ∷ es) u =
      rw (insert_over k j v w m u.0) (extend-Above k v (insert j w m) es u.1)

  pub keep-Above : (p : K × V → Bool) (k : K) (m : OrdMap K V) → Above k m → Above k (keep p m)
  unfolding keep
  keep-Above p k [] u = tt
  keep-Above p k (e ∷ m) u = ground (arith, keep-Above p k m u.1)

  pub keep-IsSorted : (p : K × V → Bool) (m : OrdMap K V) → IsSorted m → IsSorted (keep p m)
  unfolding keep
  keep-IsSorted p [] s = tt
  keep-IsSorted p ((k, v) ∷ m) s = ground (arith, keep-Above p k m s.0, keep-IsSorted p m s.1)

  -- `retain` splits a map in two, and `extend` puts the halves together again.
  pub extend-keep :
      (p : K × V → Bool) (m : OrdMap K V)
      → IsSorted m
      → extend (keep (λ e. not (p e)) m) (keep p m) ≡ m
  unfolding extend keep
  extend-keep p [] s = refl
  extend-keep p ((k, v) ∷ m) s = ground (
    arith,
    extend-keep p m s.1,
    insert-Above k v (keep (λ e. not (p e)) m) (keep-Above (λ e. not (p e)) k m s.0),
    extend-Above k v (keep (λ e. not (p e)) m) (keep p m) (keep-Above p k m s.0),
  )
