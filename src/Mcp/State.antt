-- ===== src/Mcp/State.antt =====
-- mcp_runtime/state.rs, status.rs, config.rs and mcp_auth.rs: the states of the sidecar's service. A control
-- handle and a synchronization server are known by a number each.
use Prim.Native.String.{◌++◌}
use astesia.Base.{
  true, List, [], ◌∷◌, length, ◌&&◌, ◌||◌, ◌==◌, leb, not, ℕ, ◌+◌, ◌%◌, ◌^◌, Bool, false, Option,
  none, some, String, ltb, if◌then◌else◌, Outcome, ok, err,
}
use astesia.Base.Text.{show}

pub data McpServicePhase : Type 0 where
  stopped starting running stopping error : McpServicePhase

pub record McpServiceStatus : Type 0 where
  pub state : McpServicePhase
  pub available : Bool
  pub pid : Option ℕ
  pub endpoint : Option String
  pub transport : String
  pub binary_path : Option String
  pub version : Option String
  pub started_at : Option String
  pub last_error : Option String

pub data MonitorOwnership : Type 0 where
  active detached : MonitorOwnership

pub record ManagedProcess : Type 0 where
  pub control : ℕ
  pub pid : ℕ
  pub monitor : MonitorOwnership

pub record ServiceResources : Type 0 where
  pub process : ManagedProcess
  pub sync_server : ℕ

pub data FailureOwnership : Type 0 where
  clean : FailureOwnership
  process : ManagedProcess → FailureOwnership

pub data RuntimeState : Type 0 where
  stopped : (generation : ℕ) → RuntimeState
  preparing : (generation : ℕ) (endpoint : String) → RuntimeState
  starting : (generation : ℕ) (endpoint : String) (resources : ServiceResources) → RuntimeState
  running :
      (generation : ℕ) (endpoint started_at : String) (resources : ServiceResources) → RuntimeState
  stopping :
      (generation : ℕ) (endpoint started_at : Option String) (process : ManagedProcess)
      → RuntimeState
  failed :
      (generation : ℕ) (endpoint started_at : Option String) (ownership : FailureOwnership)
      (error : String)
      → RuntimeState

-- `u64::wrapping_add(1)`
unfoldable pub wrapping_succ : ℕ → ℕ
wrapping_succ n = (n + 1) % 2 ^ 64

unfoldable pub generation : RuntimeState → ℕ
generation (stopped g) = g
generation (preparing g _) = g
generation (starting g _ _) = g
generation (running g _ _ _) = g
generation (stopping g _ _ _) = g
generation (failed g _ _ _ _) = g

unfoldable pub phase : RuntimeState → McpServicePhase
phase (stopped _) = McpServicePhase.stopped
phase (preparing _ _) = McpServicePhase.starting
phase (starting _ _ _) = McpServicePhase.starting
phase (running _ _ _ _) = McpServicePhase.running
phase (stopping _ _ _ _) = McpServicePhase.stopping
phase (failed _ _ _ _ _) = McpServicePhase.error

unfoldable pub pid : RuntimeState → Option ℕ
pid (starting _ _ resources) = some resources.process.pid
pid (running _ _ _ resources) = some resources.process.pid
pid (stopping _ _ _ p) = some p.pid
pid (failed _ _ _ (process p) _) = some p.pid
pid (failed _ _ _ clean _) = none
pid (stopped _) = none
pid (preparing _ _) = none

unfoldable pub endpoint : RuntimeState → Option String
endpoint (preparing _ e) = some e
endpoint (starting _ e _) = some e
endpoint (running _ e _ _) = some e
endpoint (stopping _ e _ _) = e
endpoint (failed _ e _ _ _) = e
endpoint (stopped _) = none

unfoldable pub started_at : RuntimeState → Option String
started_at (running _ _ at _) = some at
started_at (stopping _ _ at _) = at
started_at (failed _ _ at _ _) = at
started_at _ = none

unfoldable pub error_of : RuntimeState → Option String
error_of (failed _ _ _ _ e) = some e
error_of _ = none

-- What `take_state` leaves in the place of the state that it gives.
unfoldable pub taken : RuntimeState → RuntimeState
unfolding generation
taken state = stopped (generation state)

-- The executable's path, if there is one, with whether a file stands there.
pub record Binary : Type 0 where
  pub path : String
  pub is_file : Bool

abbrev is_available : Option Binary → Bool
is_available none = false
is_available (some b) = b.is_file

abbrev path_of : Option Binary → Option String
path_of none = none
path_of (some b) = some b.path

unfoldable pub snapshot : String → Option Binary → RuntimeState → McpServiceStatus
unfolding phase pid endpoint started_at error_of
snapshot package_version binary state = record {
  state = phase state;
  available = is_available binary;
  pid = pid state;
  endpoint = endpoint state;
  transport = "streamable_http";
  binary_path = path_of binary;
  version = if is_available binary then some package_version else none;
  started_at = started_at state;
  last_error = error_of state;
}

unfoldable pub validate_port : ℕ → Outcome String (Unit {0})
validate_port port =
    if ltb port 1024 then err "MCP service port must be between 1024 and 65535" else ok tt

-- mcp_auth.rs
abbrev pub min_token_bytes : ℕ
min_token_bytes = 32

abbrev pub max_token_bytes : ℕ
max_token_bytes = 256

unfoldable pub is_safe_token_byte : ℕ → Bool
is_safe_token_byte b =
    (leb b'a' b && leb b b'z')
    || (leb b'A' b && leb b b'Z')
    || (leb b'0' b && leb b b'9')
    || b == b'-'
    || b == b'_'
    || b == b'.'
    || b == b'~'

all_safe : List ℕ → Bool
unfolding is_safe_token_byte
all_safe [] = true
all_safe (b ∷ token) = is_safe_token_byte b && all_safe token

-- A token is the list of its bytes.
unfoldable pub validate_auth_token : List ℕ → Outcome String (Unit {0})
unfolding all_safe
validate_auth_token token =
    if ltb (length token) min_token_bytes
    then err "MCP authentication token must contain at least 32 characters"
    else if ltb max_token_bytes (length token)
    then err "MCP authentication token must not exceed 256 characters"
    else if not (all_safe token)
    then err "MCP authentication token may only contain safe ASCII token characters"
    else ok tt

unfoldable pub endpoint_of : ℕ → String
unfolding show
endpoint_of port = "http://127.0.0.1:" ++ show port ++ "/mcp"
