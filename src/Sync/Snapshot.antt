-- ===== src/Sync/Snapshot.antt =====
-- mcp_sync_server/registry/state.rs and types.rs: what the user interface is shown of the registry, and
-- what a profile's editor asks of it.
use Prim.Native.String.{compare}
use astesia.Base.{
  ℕ, ◌+◌, ◌≡◌, refl, sym, ◌∙◌, String, str_eq, Bool, true, false, ◌||◌, Option, none, some, List,
  [], ◌∷◌, inl, inr, arith, is_some, Bool-cases,
}
use astesia.Base.Sort.{sort_by}
use astesia.Base.Table.{string_key, Table, get, insert, get-insert}
use astesia.Sync.{OwnershipKey, is_connected, is_disconnecting, RegistryEntry}
use astesia.Sync.Registry.{RegistryState}

-- `max` and the default of an i64.
pub record Revision (R : Type 0) : Type 0 where
  pub zero : R
  pub max : R → R → R

pub record Aggregate (R : Type 0) : Type 0 where
  pub profile_revision : R
  pub connected : Bool
  pub session_count : ℕ
  pub disconnecting : Bool
  pub last_error : Option String

pub record McpConnectionSnapshot (R : Type 0) : Type 0 where
  pub id : String
  pub profile_revision : R
  pub mcp_in_use : Bool
  pub mcp_connected : Bool
  pub mcp_session_count : ℕ
  pub disconnecting : Bool
  pub last_error : Option String

pub record McpConnectionsSnapshot (R : Type 0) : Type 0 where
  pub revision : ℕ
  pub connections : List (McpConnectionSnapshot R)

abbrev pub or_else : Option String → Option String → Option String
or_else none later = later
or_else (some error) later = some error

module _ {R : Type 0} ⦃r : Revision R⦄ where
  -- `or_default`
  abbrev pub or_default : Option (Aggregate R) → Aggregate R
  or_default none = record {
    profile_revision = r.zero;
    connected = false;
    session_count = 0;
    disconnecting = false;
    last_error = none;
  }
  or_default (some a) = a

  unfoldable pub add_entry : RegistryEntry R → Aggregate R → Aggregate R
  unfolding is_connected is_disconnecting
  add_entry entry a = record {
    profile_revision = r.max a.profile_revision entry.profile_revision;
    connected = a.connected || is_connected entry.phase;
    session_count = a.session_count + 1;
    disconnecting = a.disconnecting || is_disconnecting entry.phase;
    last_error = or_else a.last_error entry.last_error;
  }

  unfoldable pub aggregate :
      Table OwnershipKey (RegistryEntry R) → Table String (Aggregate R) → Table String (Aggregate R)
  unfolding add_entry
  aggregate [] m = m
  aggregate ((key, entry) ∷ entries) m =
      aggregate entries
        (insert key.connection_id (add_entry entry (or_default (get key.connection_id m))) m)

module _ {R : Type 0} where
  unfoldable pub snapshots : Table String (Aggregate R) → List (McpConnectionSnapshot R)
  snapshots [] = []
  snapshots ((id, a) ∷ m) =
      record {
        id = id;
        profile_revision = a.profile_revision;
        mcp_in_use = true;
        mcp_connected = a.connected;
        mcp_session_count = a.session_count;
        disconnecting = a.disconnecting;
        last_error = a.last_error;
      }
      ∷ snapshots m

  unfoldable pub snapshot_from_state : ⦃r : Revision R⦄ → RegistryState R → McpConnectionsSnapshot R
  unfolding aggregate snapshots
  snapshot_from_state s = record {
    revision = s.revision;
    connections = sort_by (λ a b. compare a.id b.id) (snapshots (aggregate s.entries []));
  }

  unfoldable pub any_of : String → Table OwnershipKey (RegistryEntry R) → Bool
  any_of connection_id [] = false
  any_of connection_id ((key, _) ∷ m) =
      str_eq key.connection_id connection_id || any_of connection_id m

  unfoldable pub is_connection_in_use : String → RegistryState R → Bool
  unfolding any_of
  is_connection_in_use connection_id s = any_of connection_id s.entries

module _ {R : Type 0} ⦃r : Revision R⦄ where
  aggregate-any_of :
      (id : String) (entries : Table OwnershipKey (RegistryEntry R))
      (m : Table String (Aggregate R))
      → is_some (get id (aggregate entries m)) ≡ (any_of id entries || is_some (get id m))
  unfolding aggregate any_of
  aggregate-any_of id [] m = refl
  aggregate-any_of id ((key, entry) ∷ entries) m =
      let added = add_entry entry (or_default (get key.connection_id m)) in
      aggregate-any_of id entries (insert key.connection_id added m)
      ∙ elim (Bool-cases (str_eq key.connection_id id)) [
        | inl hit ↦ ground (arith, get-insert id key.connection_id added m)
        | inr other ↦ ground (arith, get-insert id key.connection_id added m)
      ]

  -- A connection is in use, as a profile's editor is told, exactly if the snapshot's table has it.
  pub is_connection_in_use-aggregate :
      (id : String) (s : RegistryState R)
      → is_connection_in_use id s ≡ is_some (get id (aggregate s.entries []))
  unfolding is_connection_in_use get
  is_connection_in_use-aggregate id s = sym (aggregate-any_of id s.entries [] ∙ ground arith)
