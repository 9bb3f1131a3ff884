-- ===== src/Sync/Tests.antt =====
-- The theorems on the registry at concrete inputs. A revision is a number that is not negative.
use astesia.Base.{ℕ, ◌≡◌, refl, arith, true, false, none, some, [], ◌∷◌, ◌⊎◌, if◌then◌else◌}
use astesia.Base.Table.{nat_key, get}
use astesia.Sync.{
  SessionKey, session_key_key, ownership_key_key, OwnershipKey, McpUsePhase, RegistryEntry,
  McpSyncContext, McpSyncResponse,
}
use astesia.Sync.Tombstones
use astesia.Sync.Tombstones.{BoundedTombstones, contains}
use astesia.Sync.Registry.{
  Signed, operation_key_key, RegistryState, success, owner_of, ensure_owner_is_open,
}
use astesia.Sync.Operations.{acquire, connected, released}
use astesia.Sync.Acknowledge.{control_result}
use astesia.Sync.Closing.{is_of_session, close_session}
use astesia.Sync.Replay.{
  validate_context, completed_response, remember_response, operation_of, apply,
}
use astesia.Sync.Replay.Laws.{IsAnswered, remember_response-IsAnswered, apply-again}
use astesia.Sync.Generations.{other_generation_kept}
use astesia.Sync.Acquire.{IsAcquired, acquire_lem}
use astesia.Sync.Ended.{close_session_lem}

instance abbrev natural : Signed ℕ
natural = record { is_negative = λ _. false }

abbrev nobody {ℓ} : {T : Type ℓ} → BoundedTombstones T
nobody = record { entries = []; order = [] }

abbrev idle : RegistryState ℕ
idle = record {
  revision = 0;
  next_generation = 0;
  entries = [];
  controls = [];
  control_queues = [];
  closed_sessions = nobody;
  closed_services = nobody;
  completed_operations = [];
  operation_order = [];
}

abbrev context : McpSyncContext
context = record { protocol_version = 1; service_id = 5; session_id = 6; operation_id = 7 }

abbrev in_use : RegistryEntry ℕ
in_use = record {
  profile_revision = 3;
  generation = 2;
  phase = McpUsePhase.connected;
  last_error = none;
}

abbrev owner : OwnershipKey
owner = owner_of context "a"

abbrev used : RegistryState ℕ
used = record idle { next_generation = 2; entries = (owner, in_use) ∷ [] }

nobody-IsValid : Tombstones.IsValid (nobody {T = SessionKey})
unfolding contains
nobody-IsValid = record { same_values = λ _. refl; order_once = tt; bounded = omega arith }

idle-IsAnswered : IsAnswered idle
unfolding get contains
idle-IsAnswered = record { same_keys = λ _. refl; order_once = tt; bounded = omega arith }

remember_response-IsAnswered_example :
    IsAnswered (remember_response (operation_of context) (success (some 1) none) idle)
    × (completed_response
          (operation_of context)
          (remember_response (operation_of context) (success (some 1) none) idle)
        ≡ some (success (some 1) none))
unfolding completed_response get
remember_response-IsAnswered_example =
    remember_response-IsAnswered (operation_of context) (success (some 1) none) idle idle-IsAnswered

answered :
    (p : RegistryState ℕ × McpSyncResponse) × (apply 1 5 context
        (λ s. (s, success (some 1) none))
        idle
      ≡ p)
answered = (_, refl)

apply-again_example : apply 1 5 context (λ s. (s, success (some 2) none)) answered.0.0 ≡ answered.0
unfolding validate_context
apply-again_example =
    apply-again 1 5 context (λ s. (s, success (some 1) none)) (λ s. (s, success (some 2) none)) idle
      answered.0.0 answered.0.1 idle-IsAnswered refl refl answered.1 refl

used_owner : get owner used.entries ≡ some in_use
unfolding get
used_owner = refl

other_generation_kept_example :
    (get owner (released context "a" 1 used).state.entries ≡ some in_use)
    × (get owner (connected context "a" 1 used).state.entries ≡ some in_use)
    × (get owner (control_result context 9 "a" 1 true none used).state.entries ≡ some in_use)
other_generation_kept_example =
    other_generation_kept owner in_use context "a" 1 9 true none used used_owner
      (λ e. omega (arith, e))

acquire_lem_example :
    ((acquire context "a" 3 none (λ s. s) idle).emit ≡ false)
      × (((acquire context "a" 3 none (λ s. s) idle).state ≡ idle)
          ⊎ ((acquire context "a" 3 none (λ s. s) idle).state ≡ idle))
    ⊎ IsAcquired owner 3 idle (acquire context "a" 3 none (λ s. s) idle)
unfolding get
acquire_lem_example =
    acquire_lem context "a" 3 none (λ s. s) idle (omega arith) (λ j e found. absurd (cc found))

close_session_lem_example :
    (get owner (close_session context used).state.entries
      ≡ (if is_of_session (5, 6) owner then none else get owner used.entries))
    × (is_of_session (5, 6) owner ≡ true
        → ensure_owner_is_open owner (close_session context used).state
          ≡ some "MCP session is closed")
unfolding contains
close_session_lem_example = close_session_lem context used owner nobody-IsValid refl
