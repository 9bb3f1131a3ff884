-- ===== src/Runtime/Held.antt =====
-- A driver's handle works exactly as long as the driver is connected.
use astesia.Base.{
  ◌≡◌, refl, sym, ap, ◌∙◌, subst, true, Option, none, some, arith, ok, ◌==◌, ==_iff, ◌↔◌, ◌⊎◌, inl,
  inr, Option-cases, Bool-cases,
}
use mathlib.Core.Option.{some-injective}
use astesia.Base.Table.{Key, get, get-insert, get-remove}
use astesia.Runtime.{
  Handle, Heap, retire, retire_replaced, lock_active, ConnectedDriver, RuntimeState,
}
use astesia.Runtime.Steps.{IsValid, Reach, here, next}
use astesia.Runtime.{driver}
use astesia.Runtime.Handles.{
  Shape, unchanged, dropped, inserted, removed, Step-Shape, Reach-IsValid,
}

module _ {A R : Type 0} where
  retire_replaced_self :
      (d : ConnectedDriver A R) (heap : Heap)
      → (retire_replaced (some d) heap d.handle).retired ≡ true
  unfolding retire_replaced retire
  retire_replaced_self d heap = ground (arith, ==_iff d.handle d.handle)

  retire_replaced-retired :
      (x : Option (ConnectedDriver A R)) (heap : Heap) (h : Handle)
      → (heap h).retired ≡ true
      → (retire_replaced x heap h).retired ≡ true
  unfolding retire_replaced retire
  retire_replaced-retired none heap h gone = gone
  retire_replaced-retired (some d) heap h gone = ground (arith, ==_iff h d.handle)

module _ {C A R : Type 0} ⦃k : Key C⦄ where
  -- A handle that was connected under `id` is so still, or it is retired.
  abbrev HeldOrRetired : C → Handle → RuntimeState C A R → Type 0
  HeldOrRetired id h s =
      ((d : ConnectedDriver A R) × (get id s.drivers ≡ some d) × (d.handle ≡ h))
      ⊎ ((s.heap h).retired ≡ true)

  Shape-retired :
      (s t : RuntimeState C A R) (h : Handle)
      → Shape s t
      → (s.heap h).retired ≡ true
      → (t.heap h).retired ≡ true
  Shape-retired s t h (unchanged m heap) gone = ap (λ i. i.retired) (heap h) ∙ gone
  Shape-retired s t h (dropped j free m now rest) gone = elim (Bool-cases (h == j)) [
    | inl same ↦ ap (λ i. (t.heap i).retired) ((==_iff h j).0 same) ∙ now
    | inr other ↦ ap (λ i. i.retired) (rest h other) ∙ gone
  ]
  Shape-retired s t h (inserted id d free active m heap) gone =
      rw heap (retire_replaced-retired (get id s.drivers) s.heap h gone)
  Shape-retired s t h (removed id d at m heap) gone =
      rw heap (retire_replaced-retired (some d) s.heap h gone)

  Shape-held :
      (s t : RuntimeState C A R) (id : C) (d : ConnectedDriver A R)
      → Shape s t
      → get id s.drivers ≡ some d
      → HeldOrRetired id d.handle t
  Shape-held s t id d (unchanged m heap) found = inl (d, ap (get id) m ∙ found, refl)
  Shape-held s t id d (dropped j free m now rest) found = inl (d, ap (get id) m ∙ found, refl)
  Shape-held s t id d (inserted i n free active m heap) found = elim (Bool-cases (k.same i id)) [
    | inl hit ↦
        let old = ap (λ j. get j s.drivers) ((k.same_iff i id).0 hit) ∙ found in
        inr (rw (heap, old) (retire_replaced_self d s.heap))
    | inr other ↦ inl (d, ap (get id) m ∙ get-insert id i n s.drivers ∙ ground arith, refl)
  ]
  Shape-held s t id d (removed i n at m heap) found = elim (Bool-cases (k.same i id)) [
    | inl hit ↦
        let old = sym at ∙ ap (λ j. get j s.drivers) ((k.same_iff i id).0 hit) ∙ found in
        inr (rw (heap, old) (retire_replaced_self d s.heap))
    | inr other ↦ inl (d, ap (get id) m ∙ get-remove id i s.drivers ∙ ground arith, refl)
  ]

  Reach-held :
      (id : C) (h : Handle) {s t : RuntimeState C A R}
      → Reach s t
      → HeldOrRetired id h s
      → HeldOrRetired id h t
  Reach-held id h here held = held
  Reach-held id h (next {t} {u} past step) held = elim (Reach-held id h past held) [
    | inl (d, found, same) ↦
        subst (λ j. HeldOrRetired id j u) same (Shape-held t u id d (Step-Shape t u step) found)
    | inr gone ↦ inr (Shape-retired t u h (Step-Shape t u step) gone)
  ]

  -- Of a driver that was connected in a valid state, and whatever is called from then on: its handle
  -- can be locked exactly if the connection still has it. Work that waited for a driver that was
  -- replaced or detached is turned away.
  pub lock_active_iff :
      (id : C) (d : ConnectedDriver A R) (s t : RuntimeState C A R)
      → IsValid s
      → get id s.drivers ≡ some d
      → Reach s t
      → (lock_active d.handle t.heap ≡ ok tt) ↔ (driver id t ≡ some d.handle)
  unfolding lock_active driver
  lock_active_iff id d s t v found past =
      let valid = Reach-IsValid past v in
      elim (Reach-held id d.handle past (inl (d, found, refl))) [
        | inl (e, now, same) ↦
            let active = valid.connected_active id e now in
            (λ h. ground arith, λ h. rw (sym same, active) refl)
        | inr gone ↦ (
          λ h. absurd (ground arith),
          λ h. elim (Option-cases (get id t.drivers)) [
            | inl absent ↦ absurd (ground arith)
            | inr (e, now) ↦
                let same : e.handle ≡ d.handle = some-injective _ _ (ground arith) in
                absurd (ground (arith, valid.connected_active id e now))
          ],
        )
      ]
