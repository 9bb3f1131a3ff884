-- ===== src/Runtime/Intents.antt =====
-- The last intent for a connection wins.
use astesia.Base.{
  ℕ, ◌+◌, ◌≤◌, ◌<◌, ◌≡◌, refl, ◌∙◌, false, some, arith, ok, ◌⊎◌, inl, inr, checked_succ, u64_max,
  ltb, Option-cases, Bool-cases,
}
use astesia.Base.Table.{Key, get, insert, get-insert, same_self}
use astesia.Runtime.{
  ConnectedDriver, RuntimeState, superseded, advance_intent, install_replacing_if_current,
  install_exclusive, detach, is_intent,
}
use astesia.Runtime.Steps.{
  Step, advances, allocates, replaces, installs, detaches, disconnects, Reach, here, next,
}

module _ {C A R : Type 0} ⦃k : Key C⦄ where
  -- A call that does not panic gives the next number.
  pub advance_intent_shape :
      (id : C) (s t : RuntimeState C A R) (intent : ℕ)
      → advance_intent id s ≡ ok (t, intent)
      → (intent ≡ s.next_intent_generation + 1)
        × (t ≡ record s {
          next_intent_generation = s.next_intent_generation + 1;
          current_intents = insert id (s.next_intent_generation + 1) s.current_intents;
        })
  unfolding advance_intent checked_succ
  advance_intent_shape id s t intent h = elim (Bool-cases (ltb s.next_intent_generation u64_max)) [
    | inl room ↦ ground arith
    | inr full ↦ absurd (ground arith)
  ]

  -- Every other call leaves the intents alone.
  pub Step-intents :
      (s t : RuntimeState C A R)
      → Step s t
      → ((id : C) × (intent : ℕ) × (advance_intent id s ≡ ok (t, intent)))
        ⊎ ((t.current_intents ≡ s.current_intents)
            × (t.next_intent_generation ≡ s.next_intent_generation))
  unfolding install_replacing_if_current install_exclusive detach
  Step-intents s t (advances id intent h) = inl (id, intent, h)
  Step-intents s t (allocates h _ e) = inr (rw e (refl, refl))
  Step-intents s t (replaces id intent d _ _ e) =
      elim (Bool-cases (is_intent (get id s.current_intents) intent)) [
        | inl last ↦ inr (ground arith)
        | inr late ↦ inr (ground arith)
      ]
  Step-intents s t (installs id d _ _ e) = elim (Option-cases (get id s.drivers)) [
    | inl free ↦ inr (ground arith)
    | inr (old, found) ↦ inr (ground arith)
  ]
  Step-intents s t (detaches id e) = elim (Option-cases (get id s.drivers)) [
    | inl free ↦ inr (ground arith)
    | inr (old, found) ↦ inr (ground arith)
  ]
  Step-intents s t (disconnects h result _ e) = inr (rw e (refl, refl))

  -- From this number on: the connection's intent is at least `bound`, and so is every later one.
  abbrev HasReached : C → ℕ → RuntimeState C A R → Type 0
  HasReached id bound s =
      (bound ≤ s.next_intent_generation)
      × (intent : ℕ) × (get id s.current_intents ≡ some intent)
      × (bound ≤ intent)

  advance-HasReached :
      (id : C) (bound : ℕ) (s t : RuntimeState C A R) (i : C) (intent : ℕ)
      → advance_intent i s ≡ ok (t, intent)
      → HasReached id bound s
      → HasReached id bound t
  advance-HasReached id bound s t i intent h (low, old, found, above) =
      let (_, shape) = advance_intent_shape i s t intent h in
      let written = get-insert id i (s.next_intent_generation + 1) s.current_intents in
      rw shape (elim (Bool-cases (k.same i id)) [
        | inl hit ↦ (omega arith, s.next_intent_generation + 1, written ∙ ground arith, omega arith)
        | inr other ↦ (omega arith, old, written ∙ ground arith, above)
      ])

  Reach-HasReached :
      (id : C) (bound : ℕ) {s t : RuntimeState C A R}
      → Reach s t
      → HasReached id bound s
      → HasReached id bound t
  Reach-HasReached id bound here r = r
  Reach-HasReached id bound (next {t} {u} past s) r =
      let before = Reach-HasReached id bound past r in
      elim (Step-intents t u s) [
        | inl (i, intent, h) ↦ advance-HasReached id bound t u i intent h before
        | inr (intents, count) ↦ rw (intents, count) before
      ]

  -- After `advance_intent`, the intent is the connection's.
  fresh-HasReached :
      (id : C) (s t : RuntimeState C A R) (intent : ℕ)
      → advance_intent id s ≡ ok (t, intent)
      → HasReached id intent t
  fresh-HasReached id s t intent h =
      let (number, shape) = advance_intent_shape id s t intent h in
      rw (shape, number)
        (
          omega arith,
          s.next_intent_generation + 1,
          get-insert id id (s.next_intent_generation + 1) s.current_intents
              ∙ ground (arith, same_self id),
          omega arith,
        )

  -- Where two intents for a connection were given out one after the other, the newer has the larger
  -- number, and a connect with the older finds itself superseded and changes nothing, whatever else is
  -- called between the two intents and after them.
  pub older_intent_superseded :
      (id : C) (older newer : ℕ) (d : ConnectedDriver A R) (s t u v w : RuntimeState C A R)
      → advance_intent id s ≡ ok (t, older)
      → Reach t u
      → advance_intent id u ≡ ok (v, newer)
      → Reach v w
      → (older < newer) × (install_replacing_if_current id older d w ≡ (w, superseded d))
  unfolding install_replacing_if_current
  older_intent_superseded id older newer d s t u v w first between second after =
      let low = (Reach-HasReached id older between (fresh-HasReached id s t older first)).0 in
      let number = (advance_intent_shape id u v newer second).0 in
      let (_, last, found, above) =
        Reach-HasReached id newer after (fresh-HasReached id u v newer second) in
      let larger : older < newer = omega arith in
      let other : is_intent (get id w.current_intents) older ≡ false = ground arith in
      (larger, rw other refl)
