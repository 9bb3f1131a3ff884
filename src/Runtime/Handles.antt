-- ===== src/Runtime/Handles.antt =====
-- What a call does to the drivers and their handles, and that it keeps a valid state.
use astesia.Base.{
  ℕ, ◌+◌, ◌≤◌, ◌≡◌, ◌≢◌, refl, sym, ap, ◌∙◌, true, false, Option, none, some, arith, ◌==◌, ==_iff,
  ◌⊎◌, inl, inr, Option-cases, Bool-cases,
}
use mathlib.Core.Option.{some-injective}
use astesia.Base.Table.{
  Key, Table, get, insert, remove, IsTable, get-insert, get-remove, insert-IsTable, remove-IsTable,
}
use astesia.Runtime.{
  Handle, Heap, new_handle, retire, retire_replaced, disconnect, ConnectedDriver, RuntimeState,
  install_replacing_if_current, install_exclusive, detach, is_intent,
}
use astesia.Runtime.Steps.{
  IsValid, IsUnused, Step, advances, allocates, replaces, installs, detaches, disconnects, Reach,
  here, next,
}
use astesia.Runtime.Intents.{advance_intent_shape, Step-intents}

module _ {A R : Type 0} where
  pub retire_replaced-other :
      (x : Option (ConnectedDriver A R)) (heap : Heap) (h : Handle)
      → ((d : ConnectedDriver A R) → x ≡ some d → d.handle ≢ h)
      → retire_replaced x heap h ≡ heap h
  unfolding retire_replaced retire
  retire_replaced-other none heap h differ = refl
  retire_replaced-other (some d) heap h differ = elim (Bool-cases (h == d.handle)) [
    | inl same ↦ absurd (differ d refl (sym ((==_iff h d.handle).0 same)))
    | inr other ↦ rw other refl
  ]

module _ {C A R : Type 0} ⦃k : Key C⦄ where
  -- What a call does to the drivers and to the heap: nothing, or it retires an unused handle, or it
  -- puts a driver in, or it takes one out.
  pub data Shape (s t : RuntimeState C A R) : Type 0 where
    unchanged : t.drivers ≡ s.drivers → ((j : Handle) → t.heap j ≡ s.heap j) → Shape s t
    dropped :
        (h : Handle)
        → IsUnused h s
        → t.drivers ≡ s.drivers
        → (t.heap h).retired ≡ true
        → ((j : Handle) → (j == h) ≡ false → t.heap j ≡ s.heap j)
        → Shape s t
    inserted :
        (id : C) (d : ConnectedDriver A R)
        → IsUnused d.handle s
        → (s.heap d.handle).retired ≡ false
        → t.drivers ≡ insert id d s.drivers
        → t.heap ≡ retire_replaced (get id s.drivers) s.heap
        → Shape s t
    removed :
        (id : C) (d : ConnectedDriver A R)
        → get id s.drivers ≡ some d
        → t.drivers ≡ remove id s.drivers
        → t.heap ≡ retire_replaced (some d) s.heap
        → Shape s t

  pub Step-Shape : (s t : RuntimeState C A R) → Step s t → Shape s t
  unfolding install_replacing_if_current install_exclusive detach retire_replaced disconnect
      new_handle retire
  Step-Shape s t (advances id intent h) =
      let (_, shape) = advance_intent_shape id s t intent h in
      unchanged (ap (λ u. u.drivers) shape) (λ j. ap (λ u. u.heap j) shape)
  Step-Shape s t (allocates h free e) =
      unchanged (rw e refl) (λ j. rw e (ground (arith, ==_iff j h)))
  Step-Shape s t (replaces id intent d free active e) =
      elim (Bool-cases (is_intent (get id s.current_intents) intent)) [
        | inl last ↦ inserted id d free active (ground arith) (ground arith)
        | inr late ↦ unchanged (ground arith) (λ j. ground arith)
      ]
  Step-Shape s t (installs id d free active e) = elim (Option-cases (get id s.drivers)) [
    | inl absent ↦ inserted id d free active (ground arith) (ground arith)
    | inr (old, found) ↦ unchanged (ground arith) (λ j. ground arith)
  ]
  Step-Shape s t (detaches id e) = elim (Option-cases (get id s.drivers)) [
    | inl absent ↦ unchanged (ground arith) (λ j. ground arith)
    | inr (old, found) ↦ removed id old found (ground arith) (ground arith)
  ]
  Step-Shape s t (disconnects h result free e) =
      dropped h free (rw e refl) (rw e (ground (arith, ==_iff h h)))
        (λ j other. rw e (ground arith))

  -- An entry after an insertion is the inserted one, or one from before under another id.
  inserted_entry :
      (id j : C) (d e : ConnectedDriver A R) (m : Table C (ConnectedDriver A R))
      → get j (insert id d m) ≡ some e
      → ((id ≡ j) × (d ≡ e)) ⊎ ((k.same id j ≡ false) × (get j m ≡ some e))
  inserted_entry id j d e m h = elim (Bool-cases (k.same id j)) [
    | inl hit ↦
        inl ((k.same_iff id j).0 hit, some-injective _ _ (ground (arith, get-insert j id d m)))
    | inr other ↦ inr (other, ground (arith, get-insert j id d m))
  ]

  removed_entry :
      (id j : C) (e : ConnectedDriver A R) (m : Table C (ConnectedDriver A R))
      → get j (remove id m) ≡ some e
      → (k.same id j ≡ false) × (get j m ≡ some e)
  removed_entry id j e m h = ground (arith, get-remove j id m)

  Shape-active :
      (s t : RuntimeState C A R)
      → IsValid s
      → Shape s t
      → (j : C) (e : ConnectedDriver A R) → get j t.drivers ≡ some e
      → (t.heap e.handle).retired ≡ false
  Shape-active s t v (unchanged m heap) j e found =
      ap (λ i. i.retired) (heap e.handle) ∙ v.connected_active j e (ap (get j) (sym m) ∙ found)
  Shape-active s t v (dropped h free m gone rest) j e found =
      let before : get j s.drivers ≡ some e = ap (get j) (sym m) ∙ found in
      elim (Bool-cases (e.handle == h)) [
        | inl same ↦ absurd (free j e before ((==_iff e.handle h).0 same))
        | inr other ↦ ap (λ i. i.retired) (rest e.handle other) ∙ v.connected_active j e before
      ]
  Shape-active s t v (inserted id d free active m heap) j e found =
      elim (inserted_entry id j d e s.drivers (ap (get j) (sym m) ∙ found)) [
        | inl (_, new) ↦
            rw (heap, sym new)
              (ap (λ i. i.retired)
                  (retire_replaced-other (get id s.drivers) s.heap d.handle
                    (λ old at. free id old at))
                ∙ active)
        | inr (other, before) ↦ rw heap (
            ap (λ i. i.retired)
              (retire_replaced-other (get id s.drivers) s.heap e.handle (λ old at same.
                absurd
                  (ground (arith, k.same_iff id j, v.handles_differ id j old e at before same))))
            ∙ v.connected_active j e before)
      ]
  Shape-active s t v (removed id d at m heap) j e found =
      let (other, before) = removed_entry id j e s.drivers (ap (get j) (sym m) ∙ found) in
      rw heap (
        ap (λ i. i.retired)
          (retire_replaced-other (some d) s.heap e.handle (λ old is same.
            absurd
              (ground (arith, k.same_iff id j, v.handles_differ id j old e (at ∙ is) before same))))
        ∙ v.connected_active j e before)

  Shape-differ :
      (s t : RuntimeState C A R)
      → IsValid s
      → Shape s t
      → (i j : C) (d e : ConnectedDriver A R) → get i t.drivers ≡ some d
      → get j t.drivers ≡ some e
      → d.handle ≡ e.handle
      → i ≡ j
  Shape-differ s t v (unchanged m heap) i j d e f g =
      v.handles_differ i j d e (ap (get i) (sym m) ∙ f) (ap (get j) (sym m) ∙ g)
  Shape-differ s t v (dropped h free m gone rest) i j d e f g =
      v.handles_differ i j d e (ap (get i) (sym m) ∙ f) (ap (get j) (sym m) ∙ g)
  Shape-differ s t v (inserted id n free active m heap) i j d e f g = λ same.
      elim (inserted_entry id i n d s.drivers (ap (get i) (sym m) ∙ f)) [
        | inl (at, new) ↦ elim (inserted_entry id j n e s.drivers (ap (get j) (sym m) ∙ g)) [
          | inl (also, _) ↦ sym at ∙ also
          | inr (_, old) ↦ absurd (free j e old (sym same ∙ ap (λ x. x.handle) (sym new)))
        ]
        | inr (_, old) ↦ elim (inserted_entry id j n e s.drivers (ap (get j) (sym m) ∙ g)) [
          | inl (_, new) ↦ absurd (free i d old (same ∙ ap (λ x. x.handle) (sym new)))
          | inr (_, both) ↦ v.handles_differ i j d e old both same
        ]
      ]
  Shape-differ s t v (removed id n at m heap) i j d e f g =
      v.handles_differ i j d e (removed_entry id i d s.drivers (ap (get i) (sym m) ∙ f)).1
        (removed_entry id j e s.drivers (ap (get j) (sym m) ∙ g)).1

  Shape-once : (s t : RuntimeState C A R) → IsValid s → Shape s t → IsTable t.drivers
  Shape-once s t v (unchanged m heap) = rw m v.drivers_once
  Shape-once s t v (dropped h free m gone rest) = rw m v.drivers_once
  Shape-once s t v (inserted id d free active m heap) =
      rw m (insert-IsTable id d s.drivers v.drivers_once)
  Shape-once s t v (removed id d at m heap) = rw m (remove-IsTable id s.drivers v.drivers_once)

  Step-given :
      (s t : RuntimeState C A R)
      → IsValid s
      → Step s t
      → (id : C) (intent : ℕ) → get id t.current_intents ≡ some intent
      → intent ≤ t.next_intent_generation
  Step-given s t v step id intent = elim (Step-intents s t step) [
    | inl (i, last, h) ↦
        let (_, shape) = advance_intent_shape i s t last h in
        rw shape (λ found. omega (arith, given i found))
    | inr (intents, count) ↦ rw (intents, count) (v.intents_given id intent)
  ]
    where
      given :
          (i : C)
          → get id (insert i (s.next_intent_generation + 1) s.current_intents) ≡ some intent
          → intent ≤ s.next_intent_generation + 1
      given i found =
          let written = get-insert id i (s.next_intent_generation + 1) s.current_intents in
          elim (Bool-cases (k.same i id)) [
            | inl hit ↦
                let new : s.next_intent_generation + 1 ≡ intent =
                  some-injective _ _ (ground arith) in
                omega arith
            | inr other ↦ omega (arith, v.intents_given id intent (ground arith))
          ]

  -- A call keeps a valid state.
  Step-IsValid : (s t : RuntimeState C A R) → Step s t → IsValid s → IsValid t
  Step-IsValid s t step v = record {
    drivers_once = Shape-once s t v (Step-Shape s t step);
    connected_active = Shape-active s t v (Step-Shape s t step);
    handles_differ = Shape-differ s t v (Step-Shape s t step);
    intents_given = Step-given s t v step;
  }

  -- From a valid state on, whatever is called, the state stays valid: no connected driver is retired, no
  -- two connections share a handle, and every intent was given out.
  pub Reach-IsValid : {s t : RuntimeState C A R} → Reach s t → IsValid s → IsValid t
  Reach-IsValid here v = v
  Reach-IsValid (next {t} {u} past step) v = Step-IsValid t u step (Reach-IsValid past v)
