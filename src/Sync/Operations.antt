-- ===== src/Sync/Operations.antt =====
-- mcp_sync_server/registry/operations.rs: sessions acquire connections, report that they are connected
-- and release them. Each operation is what it does under the registry's lock.
use astesia.Base.{
  ℕ, String, Bool, true, false, not, ◌&&◌, ◌==◌, Option, none, some, [], max, if◌then◌else◌,
}
use astesia.Base.Table.{Key, nat_key, get, insert, remove, update}
use astesia.Sync.{
  session_key_key, ownership_key_key, OwnershipKey, McpUsePhase, disconnecting, is_disconnecting,
  RegistryEntry, McpSyncContext, McpSyncResponse,
}
use astesia.Sync.Registry.{
  Signed, RegistryState, Reply, saturating_succ, success, failure, validate_connection_id, answer,
  owner_of, ensure_owner_is_open, remove_controls_for_owner,
}

module _ {R : Type 0} where
  abbrev pub owns_generation : Option (RegistryEntry R) → ℕ → Bool
  owns_generation none generation = false
  owns_generation (some entry) generation = entry.generation == generation

module _ {R : Type 0} ⦃k : Key R⦄ where
  -- The first look at the state: the answer, if there is one already.
  unfoldable pub acquire_existing : OwnershipKey → R → RegistryState R → Option McpSyncResponse
  unfolding ensure_owner_is_open failure success is_disconnecting
  acquire_existing key profile_revision s = elim (ensure_owner_is_open key s) [
    | some why ↦ some (failure why)
    | none ↦ elim (get key s.entries) [
      | none ↦ none
      | some entry ↦ some (
          if not (k.same entry.profile_revision profile_revision)
          then failure "The MCP session already owns a different revision of this connection"
          else if is_disconnecting entry.phase
          then failure "The shared connection is being forcibly disconnected"
          else success (some entry.generation) none)
    ]
  ]

  -- The second look, once the profile was found valid.
  unfoldable pub acquire_validated : OwnershipKey → R → RegistryState R → Reply R
  unfolding ensure_owner_is_open failure success is_disconnecting
  acquire_validated key profile_revision s = elim (ensure_owner_is_open key s) [
    | some why ↦ answer (failure why) s
    | none ↦ elim (get key s.entries) [
      | some entry ↦
          answer
            (if k.same entry.profile_revision profile_revision && not (is_disconnecting entry.phase)
              then success (some entry.generation) none
              else failure "The MCP session connection ownership changed while acquiring")
            s
      | none ↦
          let generation = max (saturating_succ s.next_generation) 1 in
          record {
            state = record s {
              next_generation = generation;
              entries =
                  insert key
                    (record {
                      profile_revision = profile_revision;
                      generation = generation;
                      phase = McpUsePhase.acquired;
                      last_error = none;
                    })
                    s.entries;
              revision = saturating_succ s.revision;
            };
            response = success (some generation) none;
            emit = true;
            resolved = [];
          }
    ]
  ]

module _ {R : Type 0} ⦃k : Key R⦄ ⦃signed : Signed R⦄ where
  -- `validated` is the repository's objection to the profile, and `meanwhile` what other sessions did
  -- while it was asked.
  unfoldable pub acquire :
      McpSyncContext
      → String
      → R
      → (validated : Option String) → (meanwhile : RegistryState R → RegistryState R)
      → RegistryState R
      → Reply R
  unfolding validate_connection_id acquire_existing acquire_validated failure
  acquire context connection_id profile_revision validated meanwhile s =
      let key = owner_of context connection_id in
      elim (validate_connection_id connection_id) [
        | some why ↦ answer (failure why) s
        | none ↦
            if signed.is_negative profile_revision
            then answer (failure "Shared connection profile revision must not be negative") s
            else elim (acquire_existing key profile_revision s) [
              | some response ↦ answer response s
              | none ↦ elim validated [
                | some why ↦ answer (failure why) (meanwhile s)
                | none ↦ acquire_validated key profile_revision (meanwhile s)
              ]
            ]
      ]

module _ {R : Type 0} where
  -- The checks of a report on a generation, and what is then done under the owner's key.
  unfoldable pub report :
      McpSyncContext
      → String
      → ℕ
      → (OwnershipKey → RegistryState R → Reply R)
      → RegistryState R
      → Reply R
  unfolding validate_connection_id ensure_owner_is_open failure
  report context connection_id generation act s = elim (validate_connection_id connection_id) [
    | some why ↦ answer (failure why) s
    | none ↦
        if generation == 0
        then answer (failure "MCP connection generation must be greater than zero") s
        else elim (ensure_owner_is_open (owner_of context connection_id) s) [
          | some why ↦ answer (failure why) s
          | none ↦ act (owner_of context connection_id) s
        ]
  ]

  unfoldable pub connected_entry : OwnershipKey → ℕ → RegistryEntry R → RegistryState R → Reply R
  unfolding success failure
  connected_entry key generation entry s = elim entry.phase [
    | McpUsePhase.acquired ↦ record {
      state = record s {
        entries =
            update key (record entry { phase = McpUsePhase.connected; last_error = none })
              s.entries;
        revision = saturating_succ s.revision;
      };
      response = success (some generation) none;
      emit = true;
      resolved = [];
    }
    | McpUsePhase.connected ↦ answer (success (some generation) none) s
    | disconnecting _ ↦ answer (failure "The shared connection is being forcibly disconnected") s
  ]

  unfoldable pub connect_owned : ℕ → OwnershipKey → RegistryState R → Reply R
  unfolding connected_entry success failure
  connect_owned generation key t = elim (get key t.entries) [
    | none ↦ answer (failure "The shared connection has not been acquired") t
    | some entry ↦
        if entry.generation == generation
        then connected_entry key generation entry t
        else answer (failure "The shared connection generation is stale") t
  ]

  unfoldable pub connected : McpSyncContext → String → ℕ → RegistryState R → Reply R
  unfolding report connect_owned
  connected context connection_id generation s =
      report context connection_id generation (connect_owned generation) s

  unfoldable pub release_owned : ℕ → OwnershipKey → RegistryState R → Reply R
  unfolding remove_controls_for_owner success
  release_owned generation key t =
      let (u, completed) =
        remove_controls_for_owner key (some generation)
          (record t { entries = remove key t.entries }) in
      if owns_generation (get key t.entries) generation
      then record {
        state = record u { revision = saturating_succ u.revision };
        response = success (some generation) none;
        emit = true;
        resolved = completed;
      }
      else answer (success (some generation) none) t

  unfoldable pub released : McpSyncContext → String → ℕ → RegistryState R → Reply R
  unfolding report release_owned
  released context connection_id generation s =
      report context connection_id generation (release_owned generation) s
