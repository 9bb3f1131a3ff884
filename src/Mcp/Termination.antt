-- ===== src/Mcp/Termination.antt =====
-- mcp_runtime/service.rs and termination.rs: what each operation does while it holds the state. The
-- operations take the results of the calls that they make in between: the signal to the process
-- and the shutdown of the synchronization server.
use Prim.Native.String.{◌++◌}
use astesia.Base.{
  ℕ, Bool, true, false, Option, none, some, String, ◌==◌, ◌&&◌, ◌||◌, not, if◌then◌else◌,
}
use astesia.Mcp.State.{
  McpServicePhase, MonitorOwnership, active, detached, ManagedProcess, ServiceResources,
  FailureOwnership, clean, process, RuntimeState, stopped, preparing, starting, running, stopping,
  failed, wrapping_succ, generation, phase,
}

-- What `start` finds: the state answers at once, or the start goes on in a generation.
pub data StartPlan : Type 0 where
  present : StartPlan
  refused : String → StartPlan
  proceed : (generation : ℕ) → StartPlan

unfoldable pub start_plan : RuntimeState → StartPlan
unfolding wrapping_succ
start_plan (preparing _ _) = present
start_plan (starting _ _ _) = present
start_plan (running _ _ _ _) = present
start_plan (stopping _ _ _ _) = refused "MCP service is currently stopping"
start_plan (failed _ _ _ (process _) e) = refused e
start_plan (stopped g) = proceed (wrapping_succ g)
start_plan (failed g _ _ clean _) = proceed (wrapping_succ g)

-- The state is `Starting`, by its phase.
is_starting : McpServicePhase → Bool
is_starting McpServicePhase.starting = true
is_starting _ = false

unfoldable pub set_start_error : ℕ → String → RuntimeState → RuntimeState
unfolding generation phase is_starting
set_start_error g e state =
    if generation state == g && is_starting (phase state) then failed g none none clean e else state

-- The state with the process installed, when it can be.
unfoldable pub install : ℕ → String → ServiceResources → RuntimeState → Option RuntimeState
install g e resources (preparing current _) =
    if current == g then some (starting g e resources) else none
install g e resources _ = none

-- The sidecar has reported that it is ready.
unfoldable pub report_ready : ℕ → String → RuntimeState → RuntimeState
report_ready g now (starting current e resources) =
    if current == g then running g e now resources else starting current e resources
report_ready g now state = state

pub data StopPlan : Type 0 where
  complete : StopPlan
  wait : (process : ManagedProcess) (sync_server : Option ℕ) (generation : ℕ) → StopPlan

unfoldable pub stop_begin : RuntimeState → RuntimeState × StopPlan
unfolding wrapping_succ
stop_begin (stopped g) = (stopped g, complete)
stop_begin (preparing g _) = (stopped (wrapping_succ g), complete)
stop_begin (starting g e resources) = (
  stopping g (some e) none resources.process,
  wait resources.process (some resources.sync_server) g,
)
stop_begin (running g e at resources) = (
  stopping g (some e) (some at) resources.process,
  wait resources.process (some resources.sync_server) g,
)
stop_begin (stopping g e at p) = (stopping g e at p, wait p none g)
stop_begin (failed g _ _ clean _) = (stopped g, complete)
stop_begin (failed g e at (process p) _) = (stopping g e at p, wait p none g)

is_stopped : McpServicePhase → Bool
is_stopped McpServicePhase.stopped = true
is_stopped _ = false

-- A stop that waits sees another generation, or that the service has stopped.
unfoldable pub is_over : ℕ → RuntimeState → Bool
unfolding generation phase is_stopped
is_over g state = not (generation state == g) || is_stopped (phase state)

unfoldable pub combine_errors : String → Option String → String
combine_errors primary none = primary
combine_errors primary (some secondary) = primary ++ "; " ++ secondary

unfoldable pub append_error : String → String → String
append_error String.[] error = error
append_error (String.◌∷◌ c target) error = String.◌∷◌ c target ++ "; " ++ error

unfoldable pub timeout_message : Option String → Option String → String
unfolding combine_errors
timeout_message (some sync_error) termination_error = combine_errors sync_error termination_error
timeout_message none (some termination_error) = termination_error
timeout_message none none = "MCP sidecar did not terminate within 2 seconds; its state is unknown"

unfoldable pub gave_up : String → RuntimeState → RuntimeState
gave_up message (stopping g e at p) = failed g e at (process p) message
gave_up message state = state

-- The wait of a stop has run out.
unfoldable pub stop_timeout : ℕ → Option String → Option String → RuntimeState → RuntimeState
unfolding is_over timeout_message gave_up
stop_timeout g sync_error termination_error state =
    if is_over g state then state else gave_up (timeout_message sync_error termination_error) state

unfoldable pub settled_stop :
    ℕ
    → ManagedProcess
    → (endpoint started_at termination_error sync_error : Option String) → RuntimeState
unfolding combine_errors
settled_stop g p e at (some termination_error) sync_error =
    failed g e at (process p) (combine_errors termination_error sync_error)
settled_stop g p e at none (some sync_error) = failed g none none clean sync_error
settled_stop g p e at none none = stopped g

unfoldable pub finished_stop :
    ℕ → ManagedProcess → Option String → Option String → RuntimeState → RuntimeState
unfolding settled_stop
finished_stop g p termination_error sync_error (stopping _ e at _) =
    settled_stop g p e at termination_error sync_error
finished_stop g p termination_error sync_error state = state

unfoldable pub finish_detached_stop :
    ℕ → ManagedProcess → Option String → Option String → RuntimeState → RuntimeState
unfolding is_over finished_stop
finish_detached_stop g p termination_error sync_error state =
    if is_over g state then state else finished_stop g p termination_error sync_error state

-- What `fail_and_terminate` takes out of a start: the process and the server.
unfoldable pub fail_begin : ℕ → String → RuntimeState → Option (RuntimeState × ServiceResources)
unfolding wrapping_succ
fail_begin g e (starting current _ resources) =
    if current == g then some (failed (wrapping_succ g) none none clean e, resources) else none
fail_begin g e _ = none

appended_error : String → Option String → String
unfolding append_error
appended_error target none = target
appended_error target (some error) = append_error target error

-- The ownership of a failed start: of the process, if the signal failed.
unfoldable pub kept : ManagedProcess → Option String → FailureOwnership → FailureOwnership
kept p none ownership = ownership
kept p (some _) ownership = process (record p { monitor = detached })

unfoldable pub fail_noted :
    ManagedProcess → Option String → Option String → RuntimeState → RuntimeState
unfolding appended_error kept
fail_noted p termination_error sync_error (failed g e at ownership message) =
    failed g e at (kept p termination_error ownership)
      (appended_error (appended_error message termination_error) sync_error)
fail_noted p termination_error sync_error state = state

unfoldable pub fail_end :
    ℕ → ManagedProcess → Option String → Option String → RuntimeState → RuntimeState
unfolding generation fail_noted
fail_end failed_generation p termination_error sync_error state =
    if generation state == failed_generation
    then fail_noted p termination_error sync_error state
    else state

pub record Terminated : Type 0 where
  pub process : ManagedProcess
  pub sync_server : Option ℕ
  pub was_stopping : Bool

-- A monitor that has reported an end does so once.
unfoldable pub while_active : MonitorOwnership → Terminated → Option Terminated
while_active active t = some t
while_active detached t = none

unfoldable pub taken_apart : RuntimeState → Option Terminated
unfolding while_active
taken_apart (starting _ _ resources) = some (record {
  process = resources.process;
  sync_server = some resources.sync_server;
  was_stopping = false;
})
taken_apart (running _ _ _ resources) = some (record {
  process = resources.process;
  sync_server = some resources.sync_server;
  was_stopping = false;
})
taken_apart (stopping _ _ _ p) =
    some (record { process = p; sync_server = none; was_stopping = true })
taken_apart (failed _ _ _ (process p) _) =
    while_active p.monitor (record { process = p; sync_server = none; was_stopping = false })
taken_apart _ = none

-- What `record_termination` takes out of the state, in whose place it leaves a stopped one.
unfoldable pub record_begin : ℕ → RuntimeState → Option Terminated
unfolding generation taken_apart
record_begin g state = if generation state == g then taken_apart state else none

unfoldable pub with_sync_error : Option String → RuntimeState → RuntimeState
unfolding append_error
with_sync_error none state = state
with_sync_error (some sync_error) (failed g e at ownership message) =
    failed g e at ownership (append_error message sync_error)
with_sync_error (some sync_error) (stopped g) = failed g none none clean sync_error
with_sync_error (some sync_error) state = state

unfoldable pub recorded : ℕ → String → ManagedProcess → Bool → Option String → RuntimeState
recorded g e p was_stopping (some termination_error) =
    failed g none none (process (record p { monitor = detached }))
      (e ++ "; unable to terminate the unobserved MCP sidecar: " ++ termination_error)
recorded g e p true none = stopped g
recorded g e p false none = failed g none none clean e

unfoldable pub record_end :
    ℕ → String → Terminated → Option String → Option String → RuntimeState → RuntimeState
unfolding generation with_sync_error recorded
record_end g e t termination_error sync_error state =
    if generation state == g
    then with_sync_error sync_error (recorded g e t.process t.was_stopping termination_error)
    else state
