-- ===== src/Sync/Closing.antt =====
-- mcp_sync_server/registry/control.rs: a session or a service ends.
use astesia.Base.{Bool, true, false, not, ◌&&◌, ◌==◌, none, List, [], ◌∷◌, keep, if◌then◌else◌}
use astesia.Base.Table.{nat_key, Table}
use astesia.Sync.{
  Uuid, SessionKey, session_key_key, ownership_key_key, OwnershipKey, RegistryEntry, McpSyncContext,
  McpSyncResponse,
}
use astesia.Sync.Tombstones
use astesia.Sync.Tombstones.{BoundedTombstones, contains}
use astesia.Sync.Registry.{
  OperationKey, operation_key_key, RegistryState, Reply, saturating_succ, success, failure, answer,
  remove_each_control, command_ids, remove_controls_for_session,
}

-- The entries of the keys that pass a test, removed, and whether there was one.
unfoldable pub remove_owners :
    {R : Type 0}
    → (OwnershipKey → Bool)
    → Table OwnershipKey (RegistryEntry R)
    → Table OwnershipKey (RegistryEntry R) × Bool
remove_owners ends [] = ([], false)
remove_owners ends ((key, entry) ∷ m) =
    let (rest, found) = remove_owners ends m in
    if ends key then (rest, true) else ((key, entry) ∷ rest, found)

-- `HashMap::retain` on the keys.
unfoldable pub retain_operations :
    (OperationKey → Bool) → Table OperationKey McpSyncResponse → Table OperationKey McpSyncResponse
retain_operations kept [] = []
retain_operations kept ((key, response) ∷ m) =
    let rest = retain_operations kept m in if kept key then (key, response) ∷ rest else rest

abbrev pub is_of_session : SessionKey → OwnershipKey → Bool
is_of_session session key = (key.service_id == session.0) && (key.session_id == session.1)

module _ {R : Type 0} where
  unfoldable pub close_session : McpSyncContext → RegistryState R → Reply R
  unfolding remove_owners remove_controls_for_session success failure
  close_session context s =
      let session : SessionKey = (context.service_id, context.session_id) in
      let (entries, found) = remove_owners (is_of_session session) s.entries in
      let (t, completed) = remove_controls_for_session session (record s {
        closed_sessions = Tombstones.insert session s.closed_sessions;
        entries = entries;
      }) in
      if contains context.service_id s.closed_services.entries
      then answer (failure "MCP synchronization service is closed") s
      else record {
        state = if found then record t { revision = saturating_succ t.revision } else t;
        response = success none none;
        emit = found;
        resolved = completed;
      }

  -- The state, whether it emits, and the commands whose waiters it wakes.
  unfoldable pub reset_service : Uuid → RegistryState R → RegistryState R × Bool × List Uuid
  unfolding remove_owners command_ids remove_each_control retain_operations keep
  reset_service service_id s =
      let (entries, found) = remove_owners (λ key. key.service_id == service_id) s.entries in
      let ids = command_ids (λ queued. queued.owner.service_id == service_id) s.controls in
      let t = remove_each_control ids (record s {
        closed_services = Tombstones.insert service_id s.closed_services;
        entries = entries;
      }) in
      let u : RegistryState R = record t {
        completed_operations =
            retain_operations (λ key. not (key.service_id == service_id)) t.completed_operations;
        operation_order = keep (λ key. not (key.service_id == service_id)) t.operation_order;
        closed_sessions =
            Tombstones.retain (λ session. not (session.0 == service_id)) t.closed_sessions;
      } in
      (if found then record u { revision = saturating_succ u.revision } else u, found, ids)
