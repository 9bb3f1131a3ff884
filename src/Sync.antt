-- ===== src/Sync.antt =====
-- mcp_sync_server/registry/state.rs and mcp_sync.rs: which MCP sessions use which connections, the
-- disconnect commands that wait for them, and the sessions, services and requests of the past.
-- A UUID is its 128-bit number, and nil is 0. A revision of a profile is a number that may be any i64.
pub mod Tombstones
pub mod Registry
pub mod Operations
pub mod Generations
pub mod Controls
pub mod Acknowledge
pub mod Closing
pub mod Acquire
pub mod Ended
pub mod Tests
pub mod Replay
pub mod Snapshot
use astesia.Base.{ℕ, String, str_eq, eq_iff, Bool, true, false, ◌&&◌, ◌==◌, ==_iff, Option, arith}
use astesia.Base.Table.{Key}

abbrev pub Uuid : Type 0
Uuid = ℕ

abbrev pub SessionKey : Type 0
SessionKey = Uuid × Uuid

instance abbrev pub session_key_key : Key SessionKey
session_key_key = record {
  same = λ a b. (a.0 == b.0) && (a.1 == b.1);
  same_iff = λ a b. ground (arith, ==_iff a.0 b.0, ==_iff a.1 b.1);
}

pub record OwnershipKey : Type 0 where
  pub service_id : Uuid
  pub session_id : Uuid
  pub connection_id : String

abbrev pub same_owner : OwnershipKey → OwnershipKey → Bool
same_owner a b =
    (a.service_id == b.service_id)
    && ((a.session_id == b.session_id) && str_eq a.connection_id b.connection_id)

instance abbrev pub ownership_key_key : Key OwnershipKey
ownership_key_key = record {
  same = same_owner;
  same_iff = λ a b. ground (
    arith,
    ==_iff a.service_id b.service_id,
    ==_iff a.session_id b.session_id,
    eq_iff a.connection_id b.connection_id,
  );
}

unfoldable pub session_key : OwnershipKey → SessionKey
session_key key = (key.service_id, key.session_id)

pub data McpUsePhase : Type 0 where
  acquired connected : McpUsePhase
  disconnecting : Bool → McpUsePhase

unfoldable pub is_connected : McpUsePhase → Bool
is_connected McpUsePhase.connected = true
is_connected (disconnecting was_connected) = was_connected
is_connected McpUsePhase.acquired = false

unfoldable pub is_disconnecting : McpUsePhase → Bool
is_disconnecting (disconnecting _) = true
is_disconnecting _ = false

pub record RegistryEntry (R : Type 0) : Type 0 where
  pub profile_revision : R
  pub generation : ℕ
  pub phase : McpUsePhase
  pub last_error : Option String

pub record McpControlCommand : Type 0 where
  pub command_id : Uuid
  pub connection_id : String
  pub generation : ℕ

pub record QueuedControl : Type 0 where
  pub owner : OwnershipKey
  pub command : McpControlCommand
  pub was_connected : Bool

pub record McpSyncContext : Type 0 where
  pub protocol_version : ℕ
  pub service_id : Uuid
  pub session_id : Uuid
  pub operation_id : Uuid

pub record McpSyncResponse : Type 0 where
  pub ok : Bool
  pub error : Option String
  pub generation : Option ℕ
  pub control : Option McpControlCommand
