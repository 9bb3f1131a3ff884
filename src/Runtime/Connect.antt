-- ===== src/Runtime/Connect.antt =====
-- connection_runtime/mod.rs: the operations that connect and disconnect, from the state that they find
-- behind the locks. What the driver and the check of the profile return is an argument, and so is what
-- other operations do while `connect_replacing` waits for the replaced driver's `disconnect`.
use astesia.Base.{
  ℕ, ◌+◌, ◌%◌, ◌^◌, String, Bool, true, false, not, ◌==◌, Option, none, some, Outcome, ok, err,
  panic, ◌⊎◌, inl, inr, if◌then◌else◌,
}
use astesia.Base.Table.{Key}
use astesia.Runtime.{
  Handle, Heap, new_handle, disconnect, ConnectedDriver, RuntimeState, ReplacingInstallation,
  ExclusiveInstallation, existing_same_generation, install_replacing_if_current, install_exclusive,
  is_current_driver, detach_if_generation,
}

pub data ReplacingConnectError (E : Type 0) : Type 0 where
  connect : String → ReplacingConnectError E
  revision_changed : ReplacingConnectError E
  verification : E → ReplacingConnectError E
  superseded : ReplacingConnectError E

pub data ExclusiveConnectError (E : Type 0) : Type 0 where
  connect : String → ExclusiveConnectError E
  revision_changed : ExclusiveConnectError E
  verification : E → ExclusiveConnectError E
  occupied : ℕ → ExclusiveConnectError E

pub data ExclusiveConnectOutcome : Type 0 where
  opened existing : ExclusiveConnectOutcome

-- `next_generation` and the generation. `fetch_add` wraps around, and 0 is passed over.
unfoldable pub allocate_generation : ℕ → ℕ → Option (ℕ × ℕ)
allocate_generation ℕ.zero next_generation = none
allocate_generation (ℕ.suc fuel) next_generation =
    let rest = allocate_generation fuel ((next_generation + 1) % 2 ^ 64) in
    if next_generation == 0 then rest else some ((next_generation + 1) % 2 ^ 64, next_generation)

module _ {C A R : Type 0} where
  unfoldable pub disconnect_replaced :
      Option (ConnectedDriver A R)
      → Outcome String (Unit {0})
      → RuntimeState C A R
      → RuntimeState C A R
  unfolding disconnect
  disconnect_replaced none closing t = t
  disconnect_replaced (some d) closing t = record t {
    heap = (disconnect d.handle closing t.heap).0;
  }

module _ {C A R E : Type 0} ⦃k : Key C⦄ ⦃same_revision : Key R⦄ where
  -- The handle `h` is the allocator's.
  unfoldable pub connect_replacing :
      C
      → ℕ
      → Handle
      → A
      → R
      → (opening : Option String) → (verified : E ⊎ R) → (closing : Outcome String (Unit {0}))
      → (meanwhile : RuntimeState C A R → RuntimeState C A R) → RuntimeState C A R
      → RuntimeState C A R × Outcome (ReplacingConnectError E) (Unit {0})
  unfolding install_replacing_if_current is_current_driver disconnect_replaced disconnect new_handle
  connect_replacing id intent h attachment revision (some why) verified closing meanwhile s =
      (s, err (ReplacingConnectError.connect why))
  connect_replacing id intent h attachment revision none (inl why) closing meanwhile s =
      (s, err (ReplacingConnectError.verification why))
  connect_replacing id intent h attachment revision none (inr latest) closing meanwhile s =
      let (t, installation) =
        install_replacing_if_current id intent
          (record {
            handle = h;
            attachment = attachment;
            profile_revision = revision;
            generation = intent;
          })
          (record s { heap = new_handle h s.heap }) in
      if not (same_revision.same latest revision)
      then (s, err ReplacingConnectError.revision_changed)
      else elim installation [
        | ReplacingInstallation.installed replaced ↦
            let v = meanwhile (disconnect_replaced replaced closing t) in
            (v, if is_current_driver id h v then ok tt else err ReplacingConnectError.superseded)
        | ReplacingInstallation.superseded discarded ↦ (
          record t { heap = (disconnect discarded.handle closing t.heap).0 },
          err ReplacingConnectError.superseded,
        )
      ]

  unfoldable pub connect_exclusive :
      C
      → ℕ
      → Handle
      → A
      → R
      → (opening : Option String) → (verified : E ⊎ R) → (closing : Outcome String (Unit {0}))
      → RuntimeState C A R
      → RuntimeState C A R × Outcome (ExclusiveConnectError E) ExclusiveConnectOutcome
  unfolding install_exclusive disconnect new_handle
  connect_exclusive id generation h attachment revision (some why) verified closing s =
      (s, err (ExclusiveConnectError.connect why))
  connect_exclusive id generation h attachment revision none (inl why) closing s =
      (s, err (ExclusiveConnectError.verification why))
  connect_exclusive id generation h attachment revision none (inr latest) closing s =
      let (t, installation) =
        install_exclusive id
          (record {
            handle = h;
            attachment = attachment;
            profile_revision = revision;
            generation = generation;
          })
          (record s { heap = new_handle h s.heap }) in
      let closed : RuntimeState C A R = record t { heap = (disconnect h closing t.heap).0 } in
      if not (same_revision.same latest revision)
      then (s, err ExclusiveConnectError.revision_changed)
      else elim installation [
        | ExclusiveInstallation.installed ↦ (t, ok ExclusiveConnectOutcome.opened)
        | existing_same_generation discarded ↦ (closed, ok ExclusiveConnectOutcome.existing)
        | ExclusiveInstallation.occupied found discarded ↦
            (closed, err (ExclusiveConnectError.occupied found))
      ]

pub record RuntimeDisconnectOutcome : Type 0 where
  pub generation : Option ℕ
  pub result : Outcome String Bool

module _ {A R : Type 0} where
  -- `closing` is what the driver's own `disconnect` returns.
  unfoldable pub disconnect_entry :
      Option (ConnectedDriver A R)
      → Outcome String (Unit {0})
      → Heap
      → Heap × RuntimeDisconnectOutcome
  unfolding disconnect
  disconnect_entry none closing heap = (heap, record { generation = none; result = ok false })
  disconnect_entry (some d) closing heap =
      let (after, result) = disconnect d.handle closing heap in
      (
        after,
        record {
          generation = some d.generation;
          result = elim result [ ok _ ↦ ok true | err why ↦ err why | panic ↦ panic ];
        },
      )

module _ {C A R : Type 0} ⦃k : Key C⦄ where
  unfoldable pub disconnect_if_generation :
      C
      → ℕ
      → Outcome String (Unit {0})
      → RuntimeState C A R
      → RuntimeState C A R × Outcome String Bool
  unfolding detach_if_generation disconnect_entry
  disconnect_if_generation id generation closing s =
      let (t, detached) = detach_if_generation id generation s in
      let (heap, outcome) = disconnect_entry detached closing t.heap in
      (record t { heap = heap }, outcome.result)
