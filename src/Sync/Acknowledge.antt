-- ===== src/Sync/Acknowledge.antt =====
-- mcp_sync_server/registry/control.rs: a session acknowledges a disconnect command.
use astesia.Base.{
  ℕ, String, str_eq, Bool, true, false, not, ◌&&◌, ◌==◌, Option, none, some, [], ◌∷◌, ltb, is_some,
  if◌then◌else◌,
}
use Prim.Native.String.{len}
use astesia.Base.Table.{nat_key, get, remove, update}
use astesia.Sync.{
  Uuid, session_key_key, ownership_key_key, OwnershipKey, McpUsePhase, QueuedControl,
  McpSyncContext,
}
use astesia.Sync.Operations.{owns_generation}
use astesia.Sync.Registry.{
  RegistryState, Reply, saturating_succ, success, failure, validate_connection_id, answer,
  remove_control,
}

module _ {R : Type 0} where
  -- The session disconnected: its entry goes, if it is still of the command's generation.
  unfoldable pub complete_control : OwnershipKey → ℕ → RegistryState R → RegistryState R
  complete_control owner generation s =
      if owns_generation (get owner s.entries) generation
      then record s { entries = remove owner s.entries }
      else s

  -- The session could not disconnect: its entry is in use again, and whether there is one.
  unfoldable pub reject_control :
      QueuedControl → ℕ → String → RegistryState R → RegistryState R × Bool
  reject_control queued generation message s = elim (get queued.owner s.entries) [
    | none ↦ (s, false)
    | some entry ↦
        if entry.generation == generation
        then (
          record s {
            entries =
                update queued.owner
                  (record entry {
                    phase =
                        if queued.was_connected
                        then McpUsePhase.connected
                        else McpUsePhase.acquired;
                    last_error = some message;
                  })
                  s.entries;
          },
          true,
        )
        else (s, false)
  ]

  unfoldable pub acknowledge : QueuedControl → Uuid → ℕ → Bool → String → RegistryState R → Reply R
  unfolding remove_control complete_control reject_control success
  acknowledge queued command_id generation ok message s =
      let t = remove_control command_id s in
      let done = complete_control queued.owner generation t in
      let (rejected, changed) = reject_control queued generation message t in
      if ok
      then record {
        state = record done { revision = saturating_succ done.revision };
        response = success (some generation) none;
        emit = true;
        resolved = command_id ∷ [];
      }
      else record {
        state =
            if changed
            then record rejected { revision = saturating_succ rejected.revision }
            else rejected;
        response = success (some generation) none;
        emit = changed;
        resolved = command_id ∷ [];
      }

-- The checks of an acknowledgement, in their order.
unfoldable pub invalid_result : Uuid → String → ℕ → Bool → Option String → Option String
unfolding validate_connection_id
invalid_result command_id connection_id generation ok error =
    if command_id == 0
    then some "MCP control command identifier must not be nil"
    else elim (validate_connection_id connection_id) [
      | some why ↦ some why
      | none ↦
          if generation == 0
          then some "MCP connection generation must be greater than zero"
          else if ok && is_some error
          then some "A successful MCP control result must not include an error"
          else if not ok && (elim error as (λ e. Bool) [ none ↦ true | some e ↦ str_eq e "" ])
          then some "A failed MCP control result must include an error"
          else if elim error as (λ e. Bool) [ none ↦ false | some e ↦ ltb 4096 (len e) ]
          then some "MCP control error must not exceed 4096 bytes"
          else none
    ]

-- Whether an acknowledgement is for the command.
unfoldable pub is_for : McpSyncContext → String → ℕ → QueuedControl → Bool
is_for context connection_id generation queued =
    (queued.owner.service_id == context.service_id)
    && ((queued.owner.session_id == context.session_id)
        && (str_eq queued.command.connection_id connection_id
            && (queued.command.generation == generation)))

module _ {R : Type 0} where
  unfoldable pub control_result :
      McpSyncContext → Uuid → String → ℕ → Bool → Option String → RegistryState R → Reply R
  unfolding invalid_result is_for acknowledge success failure
  control_result context command_id connection_id generation ok error s =
      elim (invalid_result command_id connection_id generation ok error) [
        | some why ↦ answer (failure why) s
        | none ↦ elim (get command_id s.controls) [
          | none ↦ answer (success (some generation) none) s
          | some queued ↦
              if is_for context connection_id generation queued
              then acknowledge queued command_id generation ok
                  (elim error [ none ↦ "MCP disconnect failed" | some message ↦ message ]) s
              else answer (failure "MCP control acknowledgement does not match the queued command")
                  s
        ]
      ]
