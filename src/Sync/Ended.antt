-- ===== src/Sync/Ended.antt =====
-- A session that was closed has no connection, and gets none.
use astesia.Base.{
  ◌≡◌, refl, sym, ap, ◌∙◌, Bool, true, false, none, some, List, [], ◌∷◌, arith, inl, inr,
  if◌then◌else◌, Bool-cases, Option-cases,
}
use astesia.Base.Table.{nat_key, Table, get}
use astesia.Sync.{
  Uuid, SessionKey, session_key_key, ownership_key_key, OwnershipKey, session_key, RegistryEntry,
  McpSyncContext,
}
use astesia.Sync.Tombstones
use astesia.Sync.Tombstones.{contains, IsValid}
use astesia.Sync.Tombstones.Laws.{insert-IsValid}
use astesia.Sync.Registry.{
  RegistryState, ensure_owner_is_open, remove_control, remove_each_control,
  remove_controls_for_session,
}
use astesia.Sync.Generations.{remove_each_control-entries}
use astesia.Sync.Closing.{remove_owners, is_of_session, close_session}

module _ {R : Type 0} where
  get-remove_owners :
      (ends : OwnershipKey → Bool) (j : OwnershipKey) (m : Table OwnershipKey (RegistryEntry R))
      → get j (remove_owners ends m).0 ≡ (if ends j then none else get j m)
  unfolding get remove_owners
  get-remove_owners ends j [] = ground arith
  get-remove_owners ends j ((i, e) ∷ m) = elim (Bool-cases (ownership_key_key.same i j)) [
    | inl hit ↦
        let moved : ends i ≡ ends j = ap ends ((ownership_key_key.same_iff i j).0 hit) in
        elim (Bool-cases (ends i)) [
          | inl ended ↦
              rw (ended, sym moved ∙ ended)
                (get-remove_owners ends j m ∙ rw (sym moved ∙ ended) refl)
          | inr kept ↦ rw (kept, sym moved ∙ kept, hit) refl
        ]
    | inr other ↦ elim (Bool-cases (ends i)) [
      | inl ended ↦ rw (ended, other) (get-remove_owners ends j m)
      | inr kept ↦ rw (kept, other) (get-remove_owners ends j m)
    ]
  ]

  remove_controls_for_session-keeps :
      (session : SessionKey) (s : RegistryState R)
      → (remove_controls_for_session session s).0.entries ≡ s.entries
  unfolding remove_controls_for_session
  remove_controls_for_session-keeps session s =
      remove_each_control-entries (remove_controls_for_session session s).1 s

  remove_control-closed :
      (id : Uuid) (s : RegistryState R)
      → ((remove_control id s).closed_sessions ≡ s.closed_sessions)
        × ((remove_control id s).closed_services ≡ s.closed_services)
  unfolding remove_control
  remove_control-closed id s = elim (Option-cases (get id s.controls)) [
    | inl absent ↦ rw (remove_control, absent) (refl, refl)
    | inr (queued, found) ↦ rw (remove_control, found) (refl, refl)
  ]

  remove_each_control-closed :
      (ids : List Uuid) (s : RegistryState R)
      → ((remove_each_control ids s).closed_sessions ≡ s.closed_sessions)
        × ((remove_each_control ids s).closed_services ≡ s.closed_services)
  unfolding remove_each_control
  remove_each_control-closed [] s = (refl, refl)
  remove_each_control-closed (id ∷ ids) s =
      let (sessions, services) = remove_each_control-closed ids (remove_control id s) in
      let (one, two) = remove_control-closed id s in (sessions ∙ one, services ∙ two)

  -- What closing a session of an open service leaves, but for its commands and the revision.
  close_session_state :
      (context : McpSyncContext) (s : RegistryState R)
      → contains context.service_id s.closed_services.entries ≡ false
      → ((close_session context s).state.entries
          ≡ (remove_owners (is_of_session (context.service_id, context.session_id)) s.entries).0)
        × ((close_session context s).state.closed_sessions
            ≡ Tombstones.insert (context.service_id, context.session_id) s.closed_sessions)
        × ((close_session context s).state.closed_services ≡ s.closed_services)
  unfolding close_session remove_controls_for_session
  close_session_state context s open_ =
      let session : SessionKey = (context.service_id, context.session_id) in
      let ended = remove_owners (is_of_session session) s.entries in
      let base : RegistryState R = record s {
        closed_sessions = Tombstones.insert session s.closed_sessions;
        entries = ended.0;
      } in
      let ids = (remove_controls_for_session session base).1 in
      let (sessions, services) = remove_each_control-closed ids base in
      let entries = remove_each_control-entries ids base in
      elim (Bool-cases ended.1) [
        | inl found ↦ rw (open_, found) (entries, sessions, services)
        | inr none_ ↦ rw (open_, none_) (entries, sessions, services)
      ]

  ensure_closed :
      (key : OwnershipKey) (s : RegistryState R)
      → contains key.service_id s.closed_services.entries ≡ false
      → contains (session_key key) s.closed_sessions.entries ≡ true
      → ensure_owner_is_open key s ≡ some "MCP session is closed"
  unfolding ensure_owner_is_open
  ensure_closed key s open_ closed = rw (ensure_owner_is_open, open_, closed) refl

  -- A session that is closed while its service is open has no connection left, and its owner keys are
  -- refused as those of a closed session. The entries of the other sessions are as they were.
  pub close_session_lem :
      (context : McpSyncContext) (s : RegistryState R) (key : OwnershipKey)
      → IsValid s.closed_sessions
      → contains context.service_id s.closed_services.entries ≡ false
      → (get key (close_session context s).state.entries ≡ (
          if is_of_session (context.service_id, context.session_id) key
          then none
          else get key s.entries))
        × (is_of_session (context.service_id, context.session_id) key ≡ true
            → ensure_owner_is_open key (close_session context s).state
              ≡ some "MCP session is closed")
  unfolding session_key
  close_session_lem context s key v open_ =
      let session : SessionKey = (context.service_id, context.session_id) in
      let (entries, sessions, services) = close_session_state context s open_ in
      (
        ap (get key) entries ∙ get-remove_owners (is_of_session session) key s.entries,
        λ own.
            let same : session_key key ≡ session =
              (session_key_key.same_iff (session_key key) session).0 (own_session own) in
            let closed : contains session (close_session context s).state.closed_sessions.entries
                ≡ true =
              rw sessions ((insert-IsValid session s.closed_sessions v).1) in
            ensure_closed key (close_session context s).state
              (rw (services, ap (λ p. p.0) same) open_) (rw same closed),
      )
    where
      own_session :
          is_of_session (context.service_id, context.session_id) key ≡ true
          → session_key_key.same (session_key key) (context.service_id, context.session_id) ≡ true
      own_session own = own
