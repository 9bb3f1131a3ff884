-- ===== src/Sync/Tombstones/Laws.antt =====
-- What `BoundedTombstones` remembers.
use astesia.Base.{
  ◌+◌, ◌≤◌, ◌≡◌, refl, sym, ap, ◌∙◌, Bool, true, false, ◌||◌, ◌&&◌, List, [], ◌∷◌, ◌++◌, arith,
  keep, length, leb, inl, inr, if◌then◌else◌, Bool-cases,
}
use astesia.Base.Table.{Key, same_self}
use astesia.Sync.Tombstones.{
  max_retained_keys, contains, without, BoundedTombstones, forget_oldest, insert, retain,
  AreDistinct, IsValid,
}

module _ {ℓ} {T : Type ℓ} ⦃k : Key T⦄ where
  contains-without :
      (value x : T) (xs : List T)
      → contains value (without x xs) ≡ (if k.same x value then false else contains value xs)
  unfolding contains without keep
  contains-without value x [] = ground arith
  contains-without value x (y ∷ xs) = ground (
    arith,
    k.same_iff x y,
    k.same_iff y x,
    k.same_iff x value,
    k.same_iff y value,
    contains-without value x xs,
  )

  pub contains-snoc :
      (value x : T) (xs : List T)
      → contains value (xs ++ x ∷ []) ≡ (k.same x value || contains value xs)
  unfolding contains
  contains-snoc value x [] = refl
  contains-snoc value x (y ∷ xs) = ground (arith, contains-snoc value x xs)

  pub snoc-AreDistinct :
      (x : T) (xs : List T) → contains x xs ≡ false → AreDistinct xs → AreDistinct (xs ++ x ∷ [])
  unfolding contains
  snoc-AreDistinct x [] h d = (refl, tt)
  snoc-AreDistinct x (y ∷ xs) h d = ground (
    arith,
    contains-snoc y x xs,
    k.same_iff x y,
    k.same_iff y x,
    snoc-AreDistinct x xs (ground arith) d.1,
  )

  without-AreDistinct : (x : T) (xs : List T) → AreDistinct xs → AreDistinct (without x xs)
  unfolding without keep
  without-AreDistinct x [] d = tt
  without-AreDistinct x (y ∷ xs) d =
      ground (arith, contains-without y x xs, without-AreDistinct x xs d.1)

  length-without_absent :
      (x : T) (xs : List T) → contains x xs ≡ false → length (without x xs) ≡ length xs
  unfolding without keep contains
  length-without_absent x [] h = refl
  length-without_absent x (y ∷ xs) h = ground (arith, length-without_absent x xs (ground arith))

  length-without :
      (x : T) (xs : List T)
      → AreDistinct xs
      → contains x xs ≡ true
      → length (without x xs) + 1 ≡ length xs
  unfolding without keep contains
  length-without x [] d h = absurd (cc h)
  length-without x (y ∷ xs) d h = elim (Bool-cases (k.same y x)) [
    | inl hit ↦
        let absent : contains x xs ≡ false = ground (arith, k.same_iff y x) in
        ground (arith, length-without_absent x xs absent)
    | inr other ↦ ground (arith, length-without x xs d.1 (ground arith))
  ]

  forget_oldest-IsValid :
      (entries order : List T)
      → ((value : T) → contains value entries ≡ contains value order)
      → AreDistinct order
      → IsValid (forget_oldest entries order)
  unfolding forget_oldest contains
  forget_oldest-IsValid entries [] same d = record {
    same_values = same;
    order_once = tt;
    bounded = omega arith;
  }
  forget_oldest-IsValid entries (x ∷ order) same d =
      let rest =
        forget_oldest-IsValid (without x entries) order
          (λ value.
            contains-without value x entries ∙ ground (arith, same value, k.same_iff x value))
          d.1 in
      elim (Bool-cases (leb (length (x ∷ order)) max_retained_keys)) [
        | inl fits ↦ rw fits (record { same_values = same; order_once = d; bounded = ground arith })
        | inr full ↦ rw full rest
      ]

  forget_oldest_last :
      (value : T) (xs entries : List T)
      → AreDistinct (xs ++ value ∷ [])
      → contains value entries ≡ true
      → contains value (forget_oldest entries (xs ++ value ∷ [])).entries ≡ true
  unfolding forget_oldest
  forget_oldest_last value [] entries d h = h
  forget_oldest_last value (x ∷ xs) entries d h =
      let other : k.same x value ≡ false =
        ground (arith, contains-snoc x value xs, k.same_iff value x, k.same_iff x value) in
      let rest =
        forget_oldest_last value xs (without x entries) d.1
          (contains-without value x entries ∙ ground arith) in
      ground arith

  -- The loop on a set and a queue whose last value is `value`.
  forget_oldest_insert :
      (value : T) (entries order : List T)
      → ((x : T) → contains x entries ≡ (k.same value x || contains x order))
      → contains value order ≡ false
      → AreDistinct order
      → IsValid (forget_oldest entries (order ++ value ∷ []))
        × (contains value (forget_oldest entries (order ++ value ∷ [])).entries ≡ true)
  forget_oldest_insert value entries order same absent d =
      let once = snoc-AreDistinct value order absent d in
      (
        forget_oldest-IsValid entries (order ++ value ∷ [])
            (λ x. same x ∙ sym (contains-snoc x value order)) once,
        forget_oldest_last value order entries once (same value ∙ ground (arith, same_self value)),
      )

  contains_back :
      (value x : T) (xs : List T)
      → contains value xs ≡ true
      → contains x xs ≡ (k.same value x || contains x (without value xs))
  contains_back value x xs h = elim (Bool-cases (k.same value x)) [
    | inl hit ↦
        let moved = ap (λ y. contains y xs) (sym ((k.same_iff value x).0 hit)) in ground arith
    | inr other ↦ ground (arith, contains-without x value xs)
  ]

  -- `insert` keeps the set and the queue together, no value twice and 4096 at most, and the value is in
  -- the set afterwards.
  pub insert-IsValid :
      (value : T) (s : BoundedTombstones T)
      → IsValid s
      → IsValid (insert value s) × (contains value (insert value s).entries ≡ true)
  unfolding insert contains
  insert-IsValid value s v = elim (Bool-cases (contains value s.entries)) [
    | inl known ↦ rw known (
        forget_oldest_insert value s.entries (without value s.order)
          (λ x. v.same_values x ∙ contains_back value x s.order (sym (v.same_values value) ∙ known))
          (contains-without value value s.order ∙ ground (arith, same_self value))
          (without-AreDistinct value s.order v.order_once))
    | inr new ↦ rw new (
        forget_oldest_insert value (value ∷ s.entries) s.order
          (λ x. ground (arith, v.same_values x)) (sym (v.same_values value) ∙ new) v.order_once)
  ]

  contains-keep :
      (kept : T → Bool) (value : T) (xs : List T)
      → contains value (keep kept xs) ≡ (contains value xs && kept value)
  unfolding contains keep
  contains-keep kept value [] = refl
  contains-keep kept value (x ∷ xs) = elim (Bool-cases (k.same x value)) [
    | inl hit ↦
        let moved : kept x ≡ kept value = ap kept ((k.same_iff x value).0 hit) in
        ground (arith, contains-keep kept value xs)
    | inr other ↦ ground (arith, contains-keep kept value xs)
  ]

  keep-AreDistinct : (kept : T → Bool) (xs : List T) → AreDistinct xs → AreDistinct (keep kept xs)
  unfolding keep
  keep-AreDistinct kept [] d = tt
  keep-AreDistinct kept (x ∷ xs) d =
      ground (arith, contains-keep kept x xs, keep-AreDistinct kept xs d.1)

  length-keep : (kept : T → Bool) (xs : List T) → length (keep kept xs) ≤ length xs
  unfolding keep
  length-keep kept [] = omega arith
  length-keep kept (x ∷ xs) = ground (arith, length-keep kept xs)

  -- `retain` keeps the set and the queue together, and has the values left that it was asked to keep.
  pub retain-IsValid :
      (kept : T → Bool) (s : BoundedTombstones T)
      → IsValid s
      → IsValid (retain kept s)
        × ((value : T)
            → contains value (retain kept s).entries ≡ (contains value s.entries && kept value))
  unfolding retain
  retain-IsValid kept s v =
      let entries = keep kept s.entries in
      (
        record {
          same_values = λ value. ground (
            arith,
            contains-keep (λ x. contains x entries) value s.order,
            contains-keep kept value s.entries,
            v.same_values value,
          );
          order_once = keep-AreDistinct (λ x. contains x entries) s.order v.order_once;
          bounded = omega (arith, length-keep (λ x. contains x entries) s.order, v.bounded);
        },
        λ value. contains-keep kept value s.entries,
      )
