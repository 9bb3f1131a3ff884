-- ===== src/Sync/Registry.antt =====
-- mcp_sync_server/registry/protocol.rs and state.rs: the registry's state and the helpers of its
-- operations. `emit` is a flag: the snapshot of the state is sent to the user interface.
use astesia.Base.{
  ℕ, ◌+◌, String, Bool, true, false, not, ◌&&◌, ◌==◌, Option, none, some, List, [], ◌∷◌, arith,
  keep, ltb, min, u64_max, if◌then◌else◌, ==_iff,
}
use Prim.Native.String.{len}
use astesia.Base.Text.{is_empty, trim}
use astesia.Base.Table.{Key, nat_key, Table, get, remove, update}
use astesia.Sync.{
  Uuid, SessionKey, session_key_key, ownership_key_key, OwnershipKey, same_owner, session_key,
  RegistryEntry, McpControlCommand, QueuedControl, McpSyncContext, McpSyncResponse,
}
use astesia.Sync.Tombstones.{BoundedTombstones, contains}

pub record OperationKey : Type 0 where
  pub service_id : Uuid
  pub session_id : Uuid
  pub operation_id : Uuid

instance abbrev pub operation_key_key : Key OperationKey
operation_key_key = record {
  same = λ a b.
      (a.service_id == b.service_id)
      && ((a.session_id == b.session_id) && (a.operation_id == b.operation_id));
  same_iff = λ a b. ground (
    arith,
    ==_iff a.service_id b.service_id,
    ==_iff a.session_id b.session_id,
    ==_iff a.operation_id b.operation_id,
  );
}

-- The sign of an i64.
pub record Signed (R : Type 0) : Type 0 where
  pub is_negative : R → Bool

pub record RegistryState (R : Type 0) : Type 0 where
  pub revision : ℕ
  pub next_generation : ℕ
  pub entries : Table OwnershipKey (RegistryEntry R)
  pub controls : Table Uuid QueuedControl
  pub control_queues : Table SessionKey (List Uuid)
  pub closed_sessions : BoundedTombstones SessionKey
  pub closed_services : BoundedTombstones Uuid
  pub completed_operations : Table OperationKey McpSyncResponse
  pub operation_order : List OperationKey

-- What an operation leaves: the state, its answer, whether it emits, and the commands whose waiters it
-- wakes.
pub record Reply (R : Type 0) : Type 0 where
  pub state : RegistryState R
  pub response : McpSyncResponse
  pub emit : Bool
  pub resolved : List Uuid

abbrev pub saturating_succ : ℕ → ℕ
saturating_succ n = min (n + 1) u64_max

unfoldable pub success : Option ℕ → Option McpControlCommand → McpSyncResponse
success generation control = record {
  ok = true;
  error = none;
  generation = generation;
  control = control;
}

unfoldable pub failure : String → McpSyncResponse
failure message = record { ok = false; error = some message; generation = none; control = none }

unfoldable pub validate_connection_id : String → Option String
unfolding is_empty trim
validate_connection_id connection_id =
    if is_empty (trim connection_id)
    then some "MCP connection identifier must not be empty"
    else if ltb 256 (len connection_id)
    then some "MCP connection identifier must not exceed 256 bytes"
    else none

abbrev pub owner_of : McpSyncContext → String → OwnershipKey
owner_of context connection_id = record {
  service_id = context.service_id;
  session_id = context.session_id;
  connection_id = connection_id;
}

unfoldable pub without_id : Uuid → List Uuid → List Uuid
unfolding keep
without_id command_id queue = keep (λ queued_id. not (queued_id == command_id)) queue

-- The commands of which the queued control passes a test.
unfoldable pub command_ids : (QueuedControl → Bool) → Table Uuid QueuedControl → List Uuid
command_ids wanted [] = []
command_ids wanted ((command_id, queued) ∷ m) =
    let rest = command_ids wanted m in if wanted queued then command_id ∷ rest else rest

module _ {R : Type 0} where
  -- An answer that leaves the state alone.
  abbrev pub answer : McpSyncResponse → RegistryState R → Reply R
  answer response s = record { state = s; response = response; emit = false; resolved = [] }

  unfoldable pub ensure_owner_is_open : OwnershipKey → RegistryState R → Option String
  unfolding session_key
  ensure_owner_is_open key s =
      if contains key.service_id s.closed_services.entries
      then some "MCP synchronization service is closed"
      else if contains (session_key key) s.closed_sessions.entries
      then some "MCP session is closed"
      else none

  unfoldable pub remove_queued : Uuid → SessionKey → RegistryState R → Table SessionKey (List Uuid)
  unfolding without_id
  remove_queued command_id session s = elim (get session s.control_queues) [
    | none ↦ s.control_queues
    | some queue ↦ elim (without_id command_id queue) [
      | [] ↦ remove session s.control_queues
      | id ∷ rest ↦ update session (id ∷ rest) s.control_queues
    ]
  ]

  unfoldable pub remove_control : Uuid → RegistryState R → RegistryState R
  unfolding remove_queued session_key
  remove_control command_id s = elim (get command_id s.controls) [
    | none ↦ s
    | some removed ↦ record s {
      controls = remove command_id s.controls;
      control_queues = remove_queued command_id (session_key removed.owner) s;
    }
  ]

  unfoldable pub remove_each_control : List Uuid → RegistryState R → RegistryState R
  unfolding remove_control
  remove_each_control [] s = s
  remove_each_control (command_id ∷ ids) s = remove_each_control ids (remove_control command_id s)

  unfoldable pub remove_controls_for_owner :
      OwnershipKey → Option ℕ → RegistryState R → RegistryState R × List Uuid
  unfolding command_ids remove_each_control
  remove_controls_for_owner owner generation s =
      let ids =
        command_ids
          (λ queued. same_owner queued.owner owner && elim generation as (λ g. Bool) [
            | none ↦ true
            | some expected ↦ queued.command.generation == expected
          ])
          s.controls in
      (remove_each_control ids s, ids)

  unfoldable pub remove_controls_for_session :
      SessionKey → RegistryState R → RegistryState R × List Uuid
  unfolding command_ids remove_each_control session_key
  remove_controls_for_session session s =
      let ids =
        command_ids
          (λ queued.
            ((session_key queued.owner).0 == session.0)
            && ((session_key queued.owner).1 == session.1))
          s.controls in
      let t = remove_each_control ids s in
      (record t { control_queues = remove session t.control_queues }, ids)
