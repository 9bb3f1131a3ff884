-- ===== src/Sync/Replay.antt =====
-- mcp_sync_server/registry/idempotency.rs: a request that comes again gets the answer that it got.
-- The request's lock keeps a second copy waiting until the first is answered, so a call is one step.
pub mod Laws
use astesia.Base.{
  ℕ, ◌+◌, ◌≤◌, ◌≡◌, refl, sym, ap, ◌∙◌, String, Bool, true, false, not, ◌||◌, ◌==◌, Option, none,
  some, List, [], ◌∷◌, ◌++◌, leb, length, arith, is_some, inl, inr, if◌then◌else◌, Bool-cases,
  Option-cases,
}
use astesia.Base.Table.{Key, Table, get, insert, remove, get-insert, get-remove, same_self}
use astesia.Sync.{Uuid, McpSyncContext, McpSyncResponse}
use astesia.Sync.Tombstones.{max_retained_keys}
use astesia.Sync.Registry.{OperationKey, operation_key_key, RegistryState, failure}

-- The version is the program's constant.
unfoldable pub validate_context : ℕ → McpSyncContext → Uuid → Option String
validate_context protocol_version context expected_service_id =
    if not (context.protocol_version == protocol_version)
    then some "Unsupported MCP synchronization protocol version"
    else if not (context.service_id == expected_service_id)
    then some "MCP synchronization service identifier does not match"
    else if (context.session_id == 0) || (context.operation_id == 0)
    then some "MCP synchronization identifiers must not be nil UUIDs"
    else none

-- The loop that forgets the oldest answers.
unfoldable pub forget_answers :
    Table OperationKey McpSyncResponse
    → List OperationKey
    → Table OperationKey McpSyncResponse × List OperationKey
forget_answers completed [] = (completed, [])
forget_answers completed (expired ∷ order) =
    let rest = forget_answers (remove expired completed) order in
    if leb (length (expired ∷ order)) max_retained_keys then (completed, expired ∷ order) else rest

abbrev pub operation_of : McpSyncContext → OperationKey
operation_of context = record {
  service_id = context.service_id;
  session_id = context.session_id;
  operation_id = context.operation_id;
}

module _ {R : Type 0} where
  unfoldable pub completed_response : OperationKey → RegistryState R → Option McpSyncResponse
  completed_response key s = get key s.completed_operations

  unfoldable pub remember_response :
      OperationKey → McpSyncResponse → RegistryState R → RegistryState R
  unfolding forget_answers
  remember_response key response s =
      let (completed, order) =
        forget_answers (insert key response s.completed_operations)
          (s.operation_order ++ key ∷ []) in
      if is_some (get key s.completed_operations)
      then s
      else record s { completed_operations = completed; operation_order = order }

  -- `handle` is what the request asks for, with the waits in it.
  unfoldable pub apply :
      ℕ
      → Uuid
      → McpSyncContext
      → (RegistryState R → RegistryState R × McpSyncResponse)
      → RegistryState R
      → RegistryState R × McpSyncResponse
  unfolding validate_context completed_response remember_response failure
  apply protocol_version expected_service_id context handle s =
      elim (validate_context protocol_version context expected_service_id) [
        | some why ↦ (s, failure why)
        | none ↦ elim (completed_response (operation_of context) s) [
          | some response ↦ (s, response)
          | none ↦
              let (t, response) = handle s in
              (remember_response (operation_of context) response t, response)
        ]
      ]
