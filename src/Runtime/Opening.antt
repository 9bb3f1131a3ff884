-- ===== src/Runtime/Opening.antt =====
-- What connecting and disconnecting return, and what they leave behind.
use astesia.Base.{
  ℕ, ◌+◌, ◌%◌, ◌^◌, ◌<◌, String, ◌≡◌, ◌≢◌, refl, ap, ◌∙◌, true, false, ◌==◌, ==_iff, Option, none,
  some, arith, Outcome, ok, err, panic, ◌⊎◌, inl, inr, Option-cases, Bool-cases,
}
use astesia.Base.Table.{Key, get, insert, get-insert, same_self}
use astesia.Runtime.{
  Handle, Heap, new_handle, retire, disconnect, ConnectedDriver, RuntimeState,
  install_replacing_if_current, install_exclusive, is_current_driver, driver, is_intent,
}
use astesia.Runtime.{lock_active}
use astesia.Runtime.Connect.{
  ExclusiveConnectError, ExclusiveConnectOutcome, allocate_generation, connect_replacing,
  connect_exclusive, disconnect_replaced,
}

-- Two rounds of the loop are enough: a generation is given out, it is never 0, and the next one is a
-- 64-bit number again.
pub allocate_generation_lem :
    (next_generation : ℕ)
    → next_generation < 2 ^ 64
    → (after : ℕ) × (generation : ℕ) × (allocate_generation 2 next_generation
        ≡ some (after, generation))
      × (0 < generation)
      × (generation < 2 ^ 64)
      × (after < 2 ^ 64)
unfolding allocate_generation
allocate_generation_lem ℕ.zero h = (2, 1, refl, omega arith, omega arith, omega arith)
allocate_generation_lem (ℕ.suc n) h =
    ((ℕ.suc n + 1) % 2 ^ 64, ℕ.suc n, ground arith, omega arith, h, omega arith)

disconnect-retired :
    (h : Handle) (closing : Outcome String (Unit {0})) (heap : Heap)
    → ((disconnect h closing heap).0 h).retired ≡ true
unfolding disconnect retire
disconnect-retired h closing heap = ground (arith, ==_iff h h)

of_intent : (x : Option ℕ) (intent : ℕ) → is_intent x intent ≡ true → x ≡ some intent
of_intent none intent h = absurd (cc h)
of_intent (some n) intent h = ap some ((==_iff n intent).0 h)

module _ {C A R : Type 0} ⦃k : Key C⦄ where
  is_current_driver-driver :
      (id : C) (h : Handle) (s : RuntimeState C A R)
      → is_current_driver id h s ≡ true
      → driver id s ≡ some h
  unfolding is_current_driver driver
  is_current_driver-driver id h s current = elim (Option-cases (get id s.drivers)) [
    | inl absent ↦ absurd (ground arith)
    | inr (d, found) ↦
        let same : d.handle ≡ h = (==_iff d.handle h).0 (ground arith) in ground arith
  ]

other_revision :
    {R : Type 0} ⦃same_revision : Key R⦄ (a b : R) → same_revision.same a b ≡ false → a ≢ b
other_revision ⦃same_revision⦄ a b other e = cc (other, (same_revision.same_iff a b).1 e)

module _ {C A R E : Type 0} ⦃k : Key C⦄ ⦃same_revision : Key R⦄ where
  -- What each result of `connect_exclusive` says of its inputs and of the state `t` that it leaves.
  abbrev pub ExclusivelyConnected :
      C
      → ℕ
      → Handle
      → R
      → Option String
      → E ⊎ R
      → RuntimeState C A R
      → RuntimeState C A R
      → Outcome (ExclusiveConnectError E) ExclusiveConnectOutcome
      → Type 0
  ExclusivelyConnected id generation h revision opening verified s t
        (ok ExclusiveConnectOutcome.opened) =
      (opening ≡ none)
      × (verified ≡ inr revision)
      × (driver id s ≡ none)
      × (driver id t ≡ some h)
      × (lock_active h t.heap ≡ ok tt)
  ExclusivelyConnected id generation h revision opening verified s t
        (ok ExclusiveConnectOutcome.existing) =
      (opening ≡ none)
      × (verified ≡ inr revision)
      × (t.drivers ≡ s.drivers)
      × ((t.heap h).retired ≡ true)
      × (d : ConnectedDriver A R) × (get id s.drivers ≡ some d)
      × (d.generation ≡ generation)
  ExclusivelyConnected id generation h revision opening verified s t
        (err (ExclusiveConnectError.occupied found)) =
      (opening ≡ none)
      × (verified ≡ inr revision)
      × (t.drivers ≡ s.drivers)
      × ((t.heap h).retired ≡ true)
      × (found ≢ generation)
      × (d : ConnectedDriver A R) × (get id s.drivers ≡ some d)
      × (d.generation ≡ found)
  ExclusivelyConnected id generation h revision opening verified s t
        (err (ExclusiveConnectError.connect why)) =
      (opening ≡ some why) × (t ≡ s)
  ExclusivelyConnected id generation h revision opening verified s t
        (err (ExclusiveConnectError.verification why)) =
      (opening ≡ none) × (verified ≡ inl why) × (t ≡ s)
  ExclusivelyConnected id generation h revision opening verified s t
        (err ExclusiveConnectError.revision_changed) =
      (opening ≡ none) × (latest : R) × (verified ≡ inr latest) × (latest ≢ revision) × (t ≡ s)
  ExclusivelyConnected id generation h revision opening verified s t panic = false ≡ true

  -- The result of an exclusive connect says which case it was. Where the driver could be opened and the
  -- profile still has the revision that it was opened with, the call opens, if nothing was connected,
  -- and its handle works; it finds its own generation connected and succeeds; or it is turned away by
  -- another generation, which it names. In the last two cases the connections are as before and the new
  -- driver is retired. If the driver cannot be opened, the profile cannot be verified, or its revision
  -- has changed, the call returns the error that says so, and the state is as it was.
  pub connect_exclusive_lem :
      (id : C) (generation : ℕ) (h : Handle) (attachment : A) (revision : R)
      (opening : Option String) (verified : E ⊎ R) (closing : Outcome String (Unit {0}))
      (s : RuntimeState C A R)
      → ExclusivelyConnected id generation h revision opening verified s
          (connect_exclusive id generation h attachment revision opening verified closing s).0
          (connect_exclusive id generation h attachment revision opening verified closing s).1
  unfolding connect_exclusive install_exclusive driver lock_active new_handle
  connect_exclusive_lem id generation h attachment revision (some why) verified closing s =
      (refl, refl)
  connect_exclusive_lem id generation h attachment revision none (inl why) closing s =
      (refl, refl, refl)
  connect_exclusive_lem id generation h attachment revision none (inr latest) closing s =
      elim (Bool-cases (same_revision.same latest revision)) [
        | inr changed ↦
            rw changed (refl, latest, refl, other_revision latest revision changed, refl)
        | inl current ↦
            let same : ◌≡◌ {A = E ⊎ R} (inr latest) (inr revision) =
              ap inr ((same_revision.same_iff latest revision).0 current) in
            elim (Option-cases (get id s.drivers)) [
              | inl absent ↦
                  let candidate : ConnectedDriver A R = record {
                    handle = h;
                    attachment = attachment;
                    profile_revision = revision;
                    generation = generation;
                  } in
                  let written : get id (insert id candidate s.drivers) ≡ some candidate =
                    get-insert id id candidate s.drivers ∙ ground (arith, same_self id) in
                  rw (current, absent)
                    (refl, same, ground arith, ground arith, ground (arith, ==_iff h h))
              | inr (d, found) ↦ elim (Bool-cases (d.generation == generation)) [
                | inl own ↦
                    rw (current, found, own)
                      (
                        refl,
                        same,
                        ground arith,
                        ground (arith, disconnect-retired h closing (new_handle h s.heap)),
                        d,
                        found,
                        (==_iff d.generation generation).0 own,
                      )
                | inr other ↦
                    rw (current, found, other)
                      (
                        refl,
                        same,
                        ground arith,
                        ground (arith, disconnect-retired h closing (new_handle h s.heap)),
                        (λ same. ground (arith, ==_iff d.generation generation)),
                        d,
                        found,
                        refl,
                      )
              ]
            ]
      ]

  -- A replacing connect that succeeds leaves its own driver connected: the profile has the revision that
  -- it opened with, its intent was the connection's, and nothing that ran meanwhile replaced it.
  pub connect_replacing-ok :
      (id : C) (intent : ℕ) (h : Handle) (attachment : A) (revision : R) (opening : Option String)
      (verified : E ⊎ R) (closing : Outcome String (Unit {0}))
      (meanwhile : RuntimeState C A R → RuntimeState C A R) (s t : RuntimeState C A R)
      → connect_replacing id intent h attachment revision opening verified closing meanwhile s
        ≡ (t, ok tt)
      → (verified ≡ inr revision)
        × (get id s.current_intents ≡ some intent)
        × (driver id t ≡ some h)
  unfolding connect_replacing install_replacing_if_current
  connect_replacing-ok id intent h attachment revision (some why) verified closing meanwhile s t e =
      absurd (ground arith)
  connect_replacing-ok id intent h attachment revision none (inl why) closing meanwhile s t e =
      absurd (ground arith)
  connect_replacing-ok id intent h attachment revision none (inr latest) closing meanwhile s t e =
      elim (Bool-cases (same_revision.same latest revision)) [
        | inr changed ↦ absurd (ground arith)
        | inl current ↦ elim (Bool-cases (is_intent (get id s.current_intents) intent)) [
          | inr late ↦ absurd (ground arith)
          | inl last ↦
              let candidate : ConnectedDriver A R = record {
                handle = h;
                attachment = attachment;
                profile_revision = revision;
                generation = intent;
              } in
              let found =
                install_replacing_if_current id intent candidate
                  (record s { heap = new_handle h s.heap }) in
              let v : RuntimeState C A R =
                meanwhile (disconnect_replaced (get id s.drivers) closing found.0) in
              elim (Bool-cases (is_current_driver id h v)) [
                | inr replaced ↦ absurd (ground arith)
                | inl kept ↦
                    let same : t ≡ v = ground arith in
                    (
                      ap inr ((same_revision.same_iff latest revision).0 current),
                      of_intent (get id s.current_intents) intent last,
                      rw same (is_current_driver-driver id h v kept),
                    )
              ]
        ]
      ]
