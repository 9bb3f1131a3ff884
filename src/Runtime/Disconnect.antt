-- ===== src/Runtime/Disconnect.antt =====
-- connection_runtime/mod.rs: what the runtime tells of its connections, and how it ends them. What a
-- driver's own `disconnect` returns is an argument, by its handle where there are several.
use astesia.Base.{
  ℕ, String, Bool, false, Option, none, some, List, [], ◌∷◌, Outcome, ok, err, panic,
}
use astesia.Base.Table.{Key, Table, get}
use astesia.Runtime.{
  Handle, ConnectedDriver, RuntimeState, detach, detach_stale, driver, invalidate_and_detach,
  session_generations,
}
use astesia.Runtime.Connect.{RuntimeDisconnectOutcome, disconnect_entry, disconnect_replaced}

pub record ConnectionSnapshot (A R : Type 0) : Type 0 where
  pub handle : Handle
  pub _attachment : A
  pub profile_revision : R
  pub generation : ℕ

module _ {C A R : Type 0} ⦃k : Key C⦄ where
  unfoldable pub connection : C → RuntimeState C A R → Option (ConnectionSnapshot A R)
  connection id s = elim (get id s.drivers) [
    | none ↦ none
    | some d ↦ some (record {
      handle = d.handle;
      _attachment = d.attachment;
      profile_revision = d.profile_revision;
      generation = d.generation;
    })
  ]

  unfoldable pub connected_generation : C → RuntimeState C A R → Option ℕ
  unfolding connection
  connected_generation id s = elim (connection id s) [ none ↦ none | some c ↦ some c.generation ]

  -- Both handles are read under one lock.
  unfoldable pub driver_pair : C → C → RuntimeState C A R → Option Handle × Option Handle
  unfolding driver
  driver_pair source target s = (driver source s, driver target s)

  unfoldable pub driver_session : C → RuntimeState C A R → Option (Handle × ℕ)
  driver_session id s = elim (get id s.drivers) [
    | none ↦ none
    | some d ↦ some (d.handle, d.generation)
  ]

  unfoldable pub disconnect :
      C
      → Outcome String (Unit {0})
      → RuntimeState C A R
      → RuntimeState C A R × RuntimeDisconnectOutcome
  unfolding detach disconnect_entry
  disconnect id closing s =
      let (t, detached) = detach id s in
      let (heap, outcome) = disconnect_entry detached closing t.heap in
      (record t { heap = heap }, outcome)

  -- `unwrap_or(false)`; the intent's counter may panic.
  unfoldable pub disconnect_replacing_under_global :
      C
      → Outcome String (Unit {0})
      → RuntimeState C A R
      → Outcome String (RuntimeState C A R × Bool)
  unfolding invalidate_and_detach disconnect_entry
  disconnect_replacing_under_global id closing s = elim (invalidate_and_detach id s) [
    | err why ↦ err why
    | panic ↦ panic
    | ok (t, detached) ↦
        let (heap, outcome) = disconnect_entry detached closing t.heap in
        ok (record t { heap = heap }, elim outcome.result [ ok closed ↦ closed | _ ↦ false ])
  ]

  unfoldable pub disconnect_each :
      (Handle → Outcome String (Unit {0}))
      → List (ConnectedDriver A R)
      → RuntimeState C A R
      → RuntimeState C A R
  unfolding disconnect_replaced
  disconnect_each closing [] s = s
  disconnect_each closing (d ∷ drivers) s =
      disconnect_each closing drivers (disconnect_replaced (some d) (closing d.handle) s)

  unfoldable pub reconcile_revisions_under_global :
      ⦃same_revision : Key R⦄
      → (Handle → Outcome String (Unit {0}))
      → Table C R
      → RuntimeState C A R
      → RuntimeState C A R × Table C ℕ
  unfolding detach_stale session_generations disconnect_each
  reconcile_revisions_under_global closing revisions s =
      let (t, stale) = detach_stale revisions s in
      (disconnect_each closing stale t, session_generations t.drivers)
