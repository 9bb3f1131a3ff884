-- ===== src/Sync/Controls.antt =====
-- mcp_sync_server/registry/control.rs: the user disconnects a connection from all sessions, and a
-- session fetches its disconnect commands. The channels on which `force_disconnect` waits are the runtime's: a `Reply` names the commands whose waiters it wakes.
use astesia.Base.{
  ℕ, ◌+◌, String, str_eq, Bool, true, false, ◌&&◌, ◌||◌, ◌==◌, Option, none, some, List, [], ◌∷◌,
  ◌++◌, is_some, if◌then◌else◌,
}
use astesia.Base.Table.{nat_key, Table, get, insert, remove, update}
use astesia.Sync.{
  Uuid, SessionKey, session_key_key, ownership_key_key, OwnershipKey, same_owner, session_key,
  disconnecting, is_connected, RegistryEntry, McpControlCommand, QueuedControl, McpSyncContext,
  McpSyncResponse,
}
use astesia.Sync.Tombstones.{contains}
use astesia.Sync.Registry.{RegistryState, saturating_succ, success, failure}

-- The owners of a connection, each with its generation and whether it was connected.
unfoldable pub owners_of {ℓ} :
    {R : Type 0} {B : Type ℓ}
    → (OwnershipKey → RegistryEntry R → B)
    → String
    → Table OwnershipKey (RegistryEntry R)
    → List B
owners_of found connection_id [] = []
owners_of found connection_id ((key, entry) ∷ m) =
    let rest = owners_of found connection_id m in
    if str_eq key.connection_id connection_id then found key entry ∷ rest else rest

-- The queued command for an owner and a generation, if there is one.
unfoldable pub existing_command :
    OwnershipKey → ℕ → Table Uuid QueuedControl → Option McpControlCommand
existing_command owner generation [] = none
existing_command owner generation ((_, queued) ∷ m) =
    let rest = existing_command owner generation m in
    if same_owner queued.owner owner && (queued.command.generation == generation)
    then some queued.command
    else rest

abbrev queue_of : Option (List Uuid) → List Uuid
queue_of none = []
queue_of (some queue) = queue

-- The loop over a session's queue: commands that are gone are dropped from its front.
unfoldable pub next_in_queue :
    Table Uuid QueuedControl → List Uuid → List Uuid × Option McpControlCommand
next_in_queue controls [] = ([], none)
next_in_queue controls (command_id ∷ queue) = elim (get command_id controls) [
  | some control ↦ (command_id ∷ queue, some control.command)
  | none ↦ next_in_queue controls queue
]

module _ {R : Type 0} where
  -- A command that is not queued yet is queued, last for its session.
  unfoldable pub enqueue :
      OwnershipKey → McpControlCommand → Bool → RegistryState R → RegistryState R
  unfolding session_key
  enqueue owner command was_connected s =
      let session = session_key owner in
      if is_some (get command.command_id s.controls) then s else record s {
        controls =
            insert command.command_id
              (record { owner = owner; command = command; was_connected = was_connected })
              s.controls;
        control_queues =
            insert session (queue_of (get session s.control_queues) ++ command.command_id ∷ [])
              s.control_queues;
      }

  unfoldable pub mark_disconnecting : OwnershipKey → Bool → RegistryState R → RegistryState R
  mark_disconnecting owner was_connected s = elim (get owner s.entries) [
    | none ↦ s
    | some entry ↦ record s {
      entries =
          update owner (record entry { phase = disconnecting was_connected; last_error = none })
            s.entries;
    }
  ]

  -- One owner of `force_disconnect`; `new_id` is the UUID of a command that must be made.
  unfoldable pub request_disconnect :
      Uuid → OwnershipKey → ℕ → Bool → RegistryState R → RegistryState R × Uuid
  unfolding existing_command enqueue mark_disconnecting
  request_disconnect new_id owner generation was_connected s =
      let command : McpControlCommand = elim (existing_command owner generation s.controls) [
        | some command ↦ command
        | none ↦ record {
          command_id = new_id;
          connection_id = owner.connection_id;
          generation = generation;
        }
      ] in
      (
        mark_disconnecting owner was_connected (enqueue owner command was_connected s),
        command.command_id,
      )

  unfoldable pub request_each :
      (ℕ → Uuid)
      → ℕ
      → List (OwnershipKey × ℕ × Bool)
      → RegistryState R
      → RegistryState R × List Uuid
  unfolding request_disconnect
  request_each new_ids n [] s = (s, [])
  request_each new_ids n ((owner, generation, was_connected) ∷ owners) s =
      let (t, id) = request_disconnect (new_ids n) owner generation was_connected s in
      let (u, ids) = request_each new_ids (n + 1) owners t in (u, id ∷ ids)

  -- `force_disconnect` up to the wait: the state and the commands to wait for, or nothing to do.
  unfoldable pub begin_force_disconnect :
      (ℕ → Uuid) → String → RegistryState R → Option (RegistryState R × List Uuid)
  unfolding owners_of is_connected request_each
  begin_force_disconnect new_ids connection_id s =
      let owners =
        owners_of (λ key entry. (key, entry.generation, is_connected entry.phase)) connection_id
          s.entries in
      let (t, ids) = request_each new_ids 0 owners s in
      elim owners [ [] ↦ none | _ ↦ some (record t { revision = saturating_succ t.revision }, ids) ]

  -- What `force_disconnect` writes once the wait ended with errors, and whether it wrote anything.
  unfoldable pub record_errors : String → List Uuid → RegistryState R → RegistryState R × Bool
  record_errors errors [] s = (s, false)
  record_errors errors (command_id ∷ ids) s = elim (get command_id s.controls) [
    | none ↦ record_errors errors ids s
    | some queued ↦ elim (get queued.owner s.entries) [
      | none ↦ record_errors errors ids s
      | some entry ↦
          let (t, _) = record_errors errors ids (record s {
            entries = update queued.owner (record entry { last_error = some errors }) s.entries;
          }) in
          let rest = record_errors errors ids s in
          if entry.generation == queued.command.generation then (t, true) else rest
    ]
  ]

  unfoldable pub next_control_for_session :
      SessionKey → RegistryState R → RegistryState R × Option McpControlCommand
  unfolding next_in_queue
  next_control_for_session session s = elim (get session s.control_queues) [
    | none ↦ (s, none)
    | some queue ↦
        let (rest, found) = next_in_queue s.controls queue in
        (
          record s {
            control_queues = elim found [
              | none ↦ remove session s.control_queues
              | some _ ↦ update session rest s.control_queues
            ];
          },
          found,
        )
  ]

  -- One round of `poll_control`: an answer, or the wait for a wake-up.
  unfoldable pub poll_control :
      McpSyncContext → RegistryState R → RegistryState R × Option McpSyncResponse
  unfolding next_control_for_session success failure
  poll_control context s =
      let session : SessionKey = (context.service_id, context.session_id) in
      let (t, control) = next_control_for_session session s in
      if contains context.service_id s.closed_services.entries
        || contains session s.closed_sessions.entries
      then (s, some (failure "MCP session is closed"))
      else elim control [
        | none ↦ (t, none)
        | some command ↦ (t, some (success none (some command)))
      ]
