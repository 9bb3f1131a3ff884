-- ===== src/Sync/Generations.antt =====
-- A report or an acknowledgement of a past generation changes no entry of another generation.
use astesia.Base.{
  ℕ, ◌≡◌, ◌≢◌, refl, ap, ◌∙◌, subst, String, Bool, true, ◌==◌, ==_iff, Option, some, List, [], ◌∷◌,
  ◌⊎◌, inl, inr, if◌then◌else◌, Bool-cases, Option-cases,
}
use astesia.Base.Table.{nat_key, Table, get, remove, update, get-remove, get-update}
use astesia.Sync.{
  Uuid, session_key_key, ownership_key_key, OwnershipKey, McpUsePhase, disconnecting, RegistryEntry,
  QueuedControl, McpSyncContext,
}
use astesia.Sync.Registry.{
  RegistryState, Reply, saturating_succ, validate_connection_id, owner_of, ensure_owner_is_open,
  remove_control, remove_each_control, remove_controls_for_owner,
}
use astesia.Sync.Operations.{
  owns_generation, report, released, release_owned, connected, connect_owned, connected_entry,
}
use astesia.Sync.Acknowledge.{
  complete_control, reject_control, acknowledge, invalid_result, is_for, control_result,
}

module _ {R : Type 0} where
  remove_control-entries :
      (command_id : Uuid) (s : RegistryState R) → (remove_control command_id s).entries ≡ s.entries
  unfolding remove_control
  remove_control-entries command_id s = elim (Option-cases (get command_id s.controls)) [
    | inl absent ↦ rw (remove_control, absent) refl
    | inr (queued, found) ↦ rw (remove_control, found) refl
  ]

  pub remove_each_control-entries :
      (ids : List Uuid) (s : RegistryState R) → (remove_each_control ids s).entries ≡ s.entries
  unfolding remove_each_control
  remove_each_control-entries [] s = refl
  remove_each_control-entries (id ∷ ids) s =
      remove_each_control-entries ids (remove_control id s) ∙ remove_control-entries id s

  -- An entry of another generation, and what a table must keep of it.
  abbrev Keeps : OwnershipKey → RegistryEntry R → Table OwnershipKey (RegistryEntry R) → Type 0
  Keeps j e m = get j m ≡ some e

  -- What is removed or written under a key of the generation leaves the entry.
  remove-Keeps :
      (j key : OwnershipKey) (e : RegistryEntry R) (generation : ℕ)
      (m : Table OwnershipKey (RegistryEntry R))
      → Keeps j e m
      → e.generation ≢ generation
      → owns_generation (get key m) generation ≡ true
      → Keeps j e (remove key m)
  remove-Keeps j key e generation m kept differ owned =
      elim (Bool-cases (ownership_key_key.same key j)) [
        | inl hit ↦
            let here : get key m ≡ some e =
              ap (λ i. get i m) ((ownership_key_key.same_iff key j).0 hit) ∙ kept in
            absurd (
              differ (
                (==_iff e.generation generation).0
                  (subst (λ x. owns_generation x generation ≡ true) here owned)))
        | inr other ↦ get-remove j key m ∙ rw other kept
      ]

  update-Keeps :
      (j key : OwnershipKey) (e new : RegistryEntry R) (generation : ℕ)
      (m : Table OwnershipKey (RegistryEntry R))
      → Keeps j e m
      → e.generation ≢ generation
      → owns_generation (get key m) generation ≡ true
      → Keeps j e (update key new m)
  update-Keeps j key e new generation m kept differ owned =
      elim (Bool-cases (ownership_key_key.same key j)) [
        | inl hit ↦
            let here : get key m ≡ some e =
              ap (λ i. get i m) ((ownership_key_key.same_iff key j).0 hit) ∙ kept in
            absurd (
              differ (
                (==_iff e.generation generation).0
                  (subst (λ x. owns_generation x generation ≡ true) here owned)))
        | inr other ↦ get-update j key new m ∙ rw other kept
      ]

  acknowledge-Keeps :
      (j : OwnershipKey) (e : RegistryEntry R) (queued : QueuedControl) (command_id : Uuid)
      (generation : ℕ) (ok : Bool) (message : String) (s : RegistryState R)
      → Keeps j e s.entries
      → e.generation ≢ generation
      → Keeps j e (acknowledge queued command_id generation ok message s).state.entries
  unfolding acknowledge complete_control reject_control
  acknowledge-Keeps j e queued command_id generation ok message s kept differ =
      let t = remove_control command_id s in
      let before : Keeps j e t.entries = rw (remove_control-entries command_id s) kept in
      elim (Bool-cases ok) [
        | inl done ↦ rw done (completed t before)
        | inr failed ↦ rw failed (rejected t before)
      ]
    where
      completed :
          (t : RegistryState R)
          → Keeps j e t.entries
          → Keeps j e (complete_control queued.owner generation t).entries
      completed t before =
          elim (Bool-cases (owns_generation (get queued.owner t.entries) generation)) [
            | inl owned ↦
                rw (complete_control, owned)
                  (remove-Keeps j queued.owner e generation t.entries before differ owned)
            | inr other ↦ rw (complete_control, other) before
          ]

      rejected :
          (t : RegistryState R)
          → Keeps j e t.entries
          → Keeps j e
              (if (reject_control queued generation message t).1
                then record (reject_control queued generation message t).0 {
                  revision =
                      saturating_succ (reject_control queued generation message t).0.revision;
                }
                else (reject_control queued generation message t).0).entries
      rejected t before = elim (Option-cases (get queued.owner t.entries)) [
        | inl absent ↦ rw (reject_control, absent) before
        | inr (d, found) ↦ elim (Bool-cases (d.generation == generation)) [
          | inr other ↦ rw (reject_control, found, other) before
          | inl owned ↦
              rw (reject_control, found, owned)
                (update-Keeps j queued.owner e _ generation t.entries before differ
                  (rw found owned))
        ]
      ]

module _ {R : Type 0} where
  -- A report is turned away, or it is done under the owner's key.
  report_cases :
      (context : McpSyncContext) (connection_id : String) (generation : ℕ)
      (act : OwnershipKey → RegistryState R → Reply R) (s : RegistryState R)
      → ((report context connection_id generation act s).state ≡ s)
        ⊎ (report context connection_id generation act s ≡ act (owner_of context connection_id) s)
  unfolding report
  report_cases context connection_id generation act s =
      elim (Option-cases (validate_connection_id connection_id)) [
        | inr (why, bad) ↦ inl (rw (report, bad) refl)
        | inl valid ↦ elim (Bool-cases (generation == 0)) [
          | inl zero ↦ inl (rw (report, valid, zero) refl)
          | inr given ↦
              elim (Option-cases (ensure_owner_is_open (owner_of context connection_id) s)) [
                | inr (why, closed) ↦ inl (rw (report, valid, given, closed) refl)
                | inl open_ ↦ inr (rw (report, valid, given, open_) refl)
              ]
        ]
      ]

  release_owned-Keeps :
      (j key : OwnershipKey) (e : RegistryEntry R) (generation : ℕ) (s : RegistryState R)
      → Keeps j e s.entries
      → e.generation ≢ generation
      → Keeps j e (release_owned generation key s).state.entries
  unfolding release_owned remove_controls_for_owner
  release_owned-Keeps j key e generation s kept differ =
      elim (Bool-cases (owns_generation (get key s.entries) generation)) [
        | inr other ↦ rw other kept
        | inl owned ↦
            rw (owned, remove_each_control-entries _ (record s { entries = remove key s.entries }))
              (remove-Keeps j key e generation s.entries kept differ owned)
      ]

  connect_owned-Keeps :
      (j key : OwnershipKey) (e : RegistryEntry R) (generation : ℕ) (s : RegistryState R)
      → Keeps j e s.entries
      → e.generation ≢ generation
      → Keeps j e (connect_owned generation key s).state.entries
  unfolding connect_owned connected_entry
  connect_owned-Keeps j key e generation s kept differ = elim (Option-cases (get key s.entries)) [
    | inl absent ↦ rw (connect_owned, absent) kept
    | inr (d, found) ↦ elim (Bool-cases (d.generation == generation)) [
      | inr other ↦ rw (connect_owned, found, other) kept
      | inl owned ↦ rw (connect_owned, found, owned) (entry_kept d (rw found owned))
    ]
  ]
    where
      entry_kept :
          (d : RegistryEntry R)
          → owns_generation (get key s.entries) generation ≡ true
          → Keeps j e (connected_entry key generation d s).state.entries
      entry_kept d owned =
          elim d.phase
            as (λ phase.
              Keeps j e
                (connected_entry key generation (record d { phase = phase }) s).state.entries) [
                  | McpUsePhase.acquired ↦
                      update-Keeps j key e _ generation s.entries kept differ owned
                  | McpUsePhase.connected ↦ kept
                  | disconnecting _ ↦ kept
                ]

  report-Keeps :
      (j : OwnershipKey) (e : RegistryEntry R) (context : McpSyncContext) (connection_id : String)
      (generation : ℕ) (act : OwnershipKey → RegistryState R → Reply R) (s : RegistryState R)
      → Keeps j e s.entries
      → Keeps j e (act (owner_of context connection_id) s).state.entries
      → Keeps j e (report context connection_id generation act s).state.entries
  report-Keeps j e context connection_id generation act s kept done =
      elim (report_cases context connection_id generation act s) [
        | inl same ↦ rw same kept
        | inr acted ↦ rw acted done
      ]

  control_result-Keeps :
      (j : OwnershipKey) (e : RegistryEntry R) (context : McpSyncContext) (command_id : Uuid)
      (connection_id : String) (generation : ℕ) (ok : Bool) (error : Option String)
      (s : RegistryState R)
      → Keeps j e s.entries
      → e.generation ≢ generation
      → Keeps j e
          (control_result context command_id connection_id generation ok error s).state.entries
  unfolding control_result
  control_result-Keeps j e context command_id connection_id generation ok error s kept differ =
      elim (Option-cases (invalid_result command_id connection_id generation ok error)) [
        | inr (why, bad) ↦ rw (control_result, bad) kept
        | inl valid ↦ elim (Option-cases (get command_id s.controls)) [
          | inl absent ↦ rw (control_result, valid, absent) kept
          | inr (queued, found) ↦
              elim (Bool-cases (is_for context connection_id generation queued)) [
                | inr other ↦ rw (control_result, valid, found, other) kept
                | inl mine ↦
                    rw (control_result, valid, found, mine)
                      (acknowledge-Keeps j e queued command_id generation ok _ s kept differ)
              ]
        ]
      ]

  -- An entry is left as it is by every `released`, `connected` and `control_result` that names another
  -- generation, whoever sends it: what was said of a past use of a connection does not touch a later one.
  pub other_generation_kept :
      (j : OwnershipKey) (e : RegistryEntry R) (context : McpSyncContext) (connection_id : String)
      (generation : ℕ) (command_id : Uuid) (ok : Bool) (error : Option String) (s : RegistryState R)
      → get j s.entries ≡ some e
      → e.generation ≢ generation
      → (get j (released context connection_id generation s).state.entries ≡ some e)
        × (get j (connected context connection_id generation s).state.entries ≡ some e)
        × (get j
              (control_result context command_id connection_id generation ok error s).state.entries
            ≡ some e)
  unfolding released connected
  other_generation_kept j e context connection_id generation command_id ok error s kept differ =
      let key = owner_of context connection_id in
      (
        report-Keeps j e context connection_id generation (release_owned generation) s kept
            (release_owned-Keeps j key e generation s kept differ),
        report-Keeps j e context connection_id generation (connect_owned generation) s kept
            (connect_owned-Keeps j key e generation s kept differ),
        control_result-Keeps j e context command_id connection_id generation ok error s kept differ,
      )
