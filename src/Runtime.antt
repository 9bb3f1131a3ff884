-- ===== src/Runtime.antt =====
-- connection_runtime/state.rs and connection_runtime/driver.rs: the drivers that are connected, the
-- handles that operations share, and the intents that decide which of two connects wins.
-- A handle is an `Arc`: here the address of its `DriverHandleInner`, and the heap says what stands
-- there. The driver inside, and what its `connect` and `disconnect` return, are arguments. An id of a
-- connection is any key, and so is a profile's revision, of which the program only asks equality.
pub mod Steps
pub mod Connect
pub mod Disconnect
pub mod Opening
pub mod Intents
pub mod Handles
pub mod Tests
pub mod Held
pub mod Stale
use astesia.Base.{
  ℕ, String, Bool, true, false, ◌==◌, Option, none, some, List, [], ◌∷◌, Outcome, ok, err, panic,
  checked_succ, if◌then◌else◌,
}
use astesia.Base.Table.{Key, Table, get, insert, remove}

pub record DriverHandleInner : Type 0 where
  pub retired : Bool
  pub disconnect_started : Bool

abbrev pub Handle : Type 0
Handle = ℕ

abbrev pub Heap : Type 0
Heap = Handle → DriverHandleInner

abbrev pub set : Handle → DriverHandleInner → Heap → Heap
set h inner heap j = if j == h then inner else heap j

-- `DriverHandle::new`, at an address that the allocator has chosen.
unfoldable pub new_handle : Handle → Heap → Heap
new_handle h heap = set h (record { retired = false; disconnect_started = false }) heap

-- What holding the driver's lock then finds.
unfoldable pub lock_active : Handle → Heap → Outcome String (Unit {0})
lock_active h heap = if (heap h).retired then err "连接已断开" else ok tt

unfoldable pub retire : Handle → Heap → Heap
retire h heap = set h (record (heap h) { retired = true }) heap

-- `result` is what the driver's own `disconnect` returns, if it is called.
unfoldable pub disconnect :
    Handle → Outcome String (Unit {0}) → Heap → Heap × Outcome String (Unit {0})
unfolding retire
disconnect h result heap =
    let retired = retire h heap in
    if (retired h).disconnect_started
    then (retired, ok tt)
    else (set h (record (retired h) { disconnect_started = true }) retired, result)

pub record ConnectedDriver (A R : Type 0) : Type 0 where
  pub handle : Handle
  pub attachment : A
  pub profile_revision : R
  pub generation : ℕ

pub data ReplacingInstallation (A R : Type 0) : Type 0 where
  installed : Option (ConnectedDriver A R) → ReplacingInstallation A R
  superseded : ConnectedDriver A R → ReplacingInstallation A R

pub data ExclusiveInstallation (A R : Type 0) : Type 0 where
  installed : ExclusiveInstallation A R
  existing_same_generation : ConnectedDriver A R → ExclusiveInstallation A R
  occupied : ℕ → ConnectedDriver A R → ExclusiveInstallation A R

-- `RuntimeState`, with the heap that its handles point to.
pub record RuntimeState (C A R : Type 0) : Type 0 where
  pub drivers : Table C (ConnectedDriver A R)
  pub current_intents : Table C ℕ
  pub next_intent_generation : ℕ
  pub heap : Heap

abbrev pub is_intent : Option ℕ → ℕ → Bool
is_intent none intent = false
is_intent (some current) intent = current == intent

module _ {A R : Type 0} where
  unfoldable pub retire_replaced : Option (ConnectedDriver A R) → Heap → Heap
  unfolding retire
  retire_replaced none heap = heap
  retire_replaced (some replaced) heap = retire replaced.handle heap

module _ {C A R : Type 0} ⦃k : Key C⦄ where
  -- `expect` panics where the counter is at its end.
  unfoldable pub advance_intent : C → RuntimeState C A R → Outcome String (RuntimeState C A R × ℕ)
  unfolding checked_succ
  advance_intent id s = elim (checked_succ s.next_intent_generation) [
    | none ↦ panic
    | some generation ↦ ok (
      record s {
        next_intent_generation = generation;
        current_intents = insert id generation s.current_intents;
      },
      generation,
    )
  ]

  unfoldable pub install_replacing_if_current :
      C
      → ℕ
      → ConnectedDriver A R
      → RuntimeState C A R
      → RuntimeState C A R × ReplacingInstallation A R
  unfolding retire_replaced
  install_replacing_if_current id intent candidate s =
      let replaced = get id s.drivers in
      if is_intent (get id s.current_intents) intent
      then (
        record s {
          drivers = insert id candidate s.drivers;
          heap = retire_replaced replaced s.heap;
        },
        ReplacingInstallation.installed replaced,
      )
      else (s, superseded candidate)

  unfoldable pub install_exclusive :
      C → ConnectedDriver A R → RuntimeState C A R → RuntimeState C A R × ExclusiveInstallation A R
  install_exclusive id candidate s = elim (get id s.drivers) [
    | some existing ↦ (
      s,
      if existing.generation == candidate.generation
          then existing_same_generation candidate
          else occupied existing.generation candidate,
    )
    | none ↦ (record s { drivers = insert id candidate s.drivers }, ExclusiveInstallation.installed)
  ]

  unfoldable pub driver : C → RuntimeState C A R → Option Handle
  driver id s = elim (get id s.drivers) [ none ↦ none | some d ↦ some d.handle ]

  unfoldable pub is_current_driver : C → Handle → RuntimeState C A R → Bool
  is_current_driver id expected s = elim (get id s.drivers) [
    | none ↦ false
    | some d ↦ d.handle == expected
  ]

  unfoldable pub detach : C → RuntimeState C A R → RuntimeState C A R × Option (ConnectedDriver A R)
  unfolding retire
  detach id s = elim (get id s.drivers) [
    | none ↦ (s, none)
    | some d ↦ (record s { drivers = remove id s.drivers; heap = retire d.handle s.heap }, some d)
  ]

  unfoldable pub invalidate_and_detach :
      C → RuntimeState C A R → Outcome String (RuntimeState C A R × Option (ConnectedDriver A R))
  unfolding advance_intent detach
  invalidate_and_detach id s = elim (advance_intent id s) [
    | ok (t, _) ↦ ok (detach id t)
    | err why ↦ err why
    | panic ↦ panic
  ]

  unfoldable pub detach_if_generation :
      C → ℕ → RuntimeState C A R → RuntimeState C A R × Option (ConnectedDriver A R)
  unfolding detach
  detach_if_generation id generation s = elim (get id s.drivers) [
    | none ↦ (s, none)
    | some d ↦ if d.generation == generation then detach id s else (s, none)
  ]

  unfoldable pub session_generations : Table C (ConnectedDriver A R) → Table C ℕ
  session_generations [] = []
  session_generations ((id, d) ∷ m) = (id, d.generation) ∷ session_generations m

module _ {R : Type 0} ⦃same_revision : Key R⦄ where
  abbrev pub is_revision : Option R → R → Bool
  is_revision none revision = false
  is_revision (some found) revision = same_revision.same found revision

module _ {C A R : Type 0} ⦃k : Key C⦄ ⦃same_revision : Key R⦄ where
  unfoldable pub stale_ids : Table C R → Table C (ConnectedDriver A R) → List C
  stale_ids revisions [] = []
  stale_ids revisions ((id, d) ∷ m) =
      let rest = stale_ids revisions m in
      if is_revision (get id revisions) d.profile_revision then rest else id ∷ rest

  unfoldable pub detach_each :
      List C → RuntimeState C A R → RuntimeState C A R × List (ConnectedDriver A R)
  unfolding detach
  detach_each [] s = (s, [])
  detach_each (id ∷ ids) s =
      let (t, detached) = detach id s in
      let (u, drivers) = detach_each ids t in
      (u, elim detached [ none ↦ drivers | some d ↦ d ∷ drivers ])

  unfoldable pub detach_stale :
      Table C R → RuntimeState C A R → RuntimeState C A R × List (ConnectedDriver A R)
  unfolding detach_each stale_ids
  detach_stale revisions s = detach_each (stale_ids revisions s.drivers) s
