-- ===== src/Mcp/Steps.antt =====
-- mcp_runtime/service.rs and termination.rs: the operations as steps that interleave. The state's
-- lock makes each step one whole. The cleanup lock is held from the first step of an operation
-- to its last, while steps that do not take it go on: a sidecar that becomes ready, a stop whose
-- wait runs out, and the end of a process. Any generation may be stale in such a step.
use astesia.Base.{
  ℕ, ◌+◌, ◌^◌, ◌<◌, ◌≡◌, ◌≢◌, ◌⊎◌, Bool, true, false, not, Option, none, some, String, List, [],
  ◌∷◌, ◌==◌, keep, All,
}
use astesia.Mcp.State.{
  ManagedProcess, active, detached, ServiceResources, RuntimeState, stopped, preparing, generation,
  taken,
}
use astesia.Mcp.Termination.{
  proceed, start_plan, set_start_error, install, report_ready, StopPlan, complete, wait, stop_begin,
  stop_timeout, finish_detached_stop, fail_begin, fail_end, Terminated, record_begin, record_end,
}

-- Who holds the cleanup lock, and what it has in hand.
pub data Holder : Type 0 where
  free : Holder
  starting_up : (generation : ℕ) (endpoint : String) → Holder
  stopping_up : ManagedProcess → (sync_server : Option ℕ) (generation : ℕ) → Holder
  failing : (generation : ℕ) → ServiceResources → Holder
  recording : (generation : ℕ) (message : String) (unobserved : Bool) → Terminated → Holder

-- The state with what stands outside: the processes that were started and neither signalled nor
-- ended, the synchronization servers that were not shut down, and the monitor of each process
-- with its generation. A process goes by its control handle.
pub data World : Type 0 where
  world :
      (state : RuntimeState) (holder : Holder) (loose serving : List ℕ) (monitors : List (ℕ × ℕ))
      → World

unfoldable pub without : ℕ → List ℕ → List ℕ
unfolding keep
without c l = keep (λ d. not (d == c)) l

-- A process that was signalled, unless the signal failed.
unfoldable pub signalled : ManagedProcess → Option String → List ℕ → List ℕ
unfolding without
signalled p none loose = without p.control loose
signalled p (some _) loose = loose

unfoldable pub shut_down : Option ℕ → List ℕ → List ℕ
unfolding without
shut_down none serving = serving
shut_down (some server) serving = without server serving

-- `start` from the spawned process on.
unfoldable pub installed :
    ℕ
    → String
    → ServiceResources
    → Option String
    → RuntimeState
    → (loose serving : List ℕ) → (monitors : List (ℕ × ℕ)) → World
unfolding install signalled
installed g e r termination_error s loose serving monitors = elim (install g e r s) [
  | some s' ↦
      world s' free (r.process.control ∷ loose) (r.sync_server ∷ serving)
        ((g, r.process.control) ∷ monitors)
  | none ↦
      world s free (signalled r.process termination_error (r.process.control ∷ loose)) serving
        monitors
]

-- `stop` from its plan on, and from the results of its calls on.
unfoldable pub planned : RuntimeState × StopPlan → List ℕ → List ℕ → List (ℕ × ℕ) → World
planned (s, complete) loose serving monitors = world s free loose serving monitors
planned (s, wait p server g) loose serving monitors =
    world s (stopping_up p server g) loose serving monitors

unfoldable pub after_signal :
    ℕ → ManagedProcess → Option String → Option String → RuntimeState → RuntimeState
unfolding finish_detached_stop
after_signal g p termination_error sync_error s = elim p.monitor [
  | active ↦ s
  | detached ↦ finish_detached_stop g p termination_error sync_error s
]

-- The signal of `record_termination`, which it sends when the end was not observed.
unfoldable pub unobserved_signal : Bool → ManagedProcess → Option String → List ℕ → List ℕ
unfolding signalled
unobserved_signal true p termination_error loose = signalled p termination_error loose
unobserved_signal false p termination_error loose = loose

unfoldable pub unobserved_error : Bool → Option String → Option String
unobserved_error true termination_error = termination_error
unobserved_error false _ = none

-- `fail_and_terminate` and `record_termination` from what they took on.
unfoldable pub begun_failing :
    Option (RuntimeState × ServiceResources) → RuntimeState → List ℕ → List ℕ → List (ℕ × ℕ) → World
begun_failing none s loose serving monitors = world s free loose serving monitors
begun_failing (some (s', r)) s loose serving monitors =
    world s' (failing (generation s') r) loose serving monitors

unfoldable pub begun_recording :
    Option Terminated → RuntimeState → ℕ → String → Bool → List ℕ → List ℕ → List (ℕ × ℕ) → World
unfolding taken
begun_recording none s g message unobserved loose serving monitors =
    world s free loose serving monitors
begun_recording (some t) s g message unobserved loose serving monitors =
    world (taken s) (recording g message unobserved t) loose serving monitors

-- The process that a handle stands for is watched in a generation.
unfoldable pub Watched : ℕ → ℕ → List (ℕ × ℕ) → Type 0
Watched g c [] = ⊥
Watched g c (m ∷ monitors) = ((m.0 ≡ g) × (m.1 ≡ c)) ⊎ Watched g c monitors

pub data Step : World → World → Type 0 where
  exits :
      (s : RuntimeState) (h : Holder) (l v : List ℕ) (m : List (ℕ × ℕ)) (c : ℕ)
      → Step (world s h l v m) (world s h (without c l) v m)
  start_prepares :
      (s : RuntimeState) (l v : List ℕ) (m : List (ℕ × ℕ)) (g : ℕ) (e : String)
      → start_plan s ≡ proceed g
      → generation s + 1 < 2 ^ 64
      → Step (world s free l v m) (world (preparing g e) (starting_up g e) l v m)
  start_fails :
      (s : RuntimeState) (l v : List ℕ) (m : List (ℕ × ℕ)) (g : ℕ) (e message : String)
      → Step (world s (starting_up g e) l v m) (world (set_start_error g message s) free l v m)
  start_installs :
      (s : RuntimeState) (l v : List ℕ) (m : List (ℕ × ℕ)) (g : ℕ) (e : String)
      (control pid server : ℕ) (termination_error : Option String)
      → Step (world s (starting_up g e) l v m) (
          installed g e
            (record {
              process = record { control = control; pid = pid; monitor = active };
              sync_server = server;
            })
            termination_error
            s
            l
            v
            m)
  becomes_ready :
      (s : RuntimeState) (h : Holder) (l v : List ℕ) (m : List (ℕ × ℕ)) (g : ℕ) (now : String)
      → Step (world s h l v m) (world (report_ready g now s) h l v m)
  stop_begins :
      (s : RuntimeState) (l v : List ℕ) (m : List (ℕ × ℕ))
      → Step (world s free l v m) (planned (stop_begin s) l v m)
  stop_signals :
      (s : RuntimeState) (l v : List ℕ) (m : List (ℕ × ℕ)) (p : ManagedProcess) (server : Option ℕ)
      (g : ℕ) (termination_error sync_error : Option String)
      → Step (world s (stopping_up p server g) l v m) (
          world
            (after_signal g p termination_error sync_error s)
            free
            (signalled p termination_error l)
            (shut_down server v)
            m)
  stop_times_out :
      (s : RuntimeState) (h : Holder) (l v : List ℕ) (m : List (ℕ × ℕ)) (g : ℕ)
      (sync_error termination_error : Option String)
      → Step (world s h l v m) (world (stop_timeout g sync_error termination_error s) h l v m)
  fail_begins :
      (s : RuntimeState) (l v : List ℕ) (m : List (ℕ × ℕ)) (g : ℕ) (e : String)
      → generation s + 1 < 2 ^ 64
      → Step (world s free l v m) (begun_failing (fail_begin g e s) s l v m)
  fail_ends :
      (s : RuntimeState) (l v : List ℕ) (m : List (ℕ × ℕ)) (g : ℕ) (r : ServiceResources)
      (termination_error sync_error : Option String)
      → Step (world s (failing g r) l v m) (
          world
            (fail_end g r.process termination_error sync_error s)
            free
            (signalled r.process termination_error l)
            (shut_down (some r.sync_server) v)
            m)
  record_begins :
      (s : RuntimeState) (l v : List ℕ) (m : List (ℕ × ℕ)) (g c : ℕ) (message : String)
      (unobserved : Bool)
      → Watched g c m
      → (unobserved ≡ false → All (λ d. d ≢ c) l)
      → Step (world s free l v m) (begun_recording (record_begin g s) s g message unobserved l v m)
  record_ends :
      (s : RuntimeState) (t : Terminated) (l v : List ℕ) (m : List (ℕ × ℕ)) (g : ℕ)
      (message : String) (unobserved : Bool) (termination_error sync_error : Option String)
      → Step (world s (recording g message unobserved t) l v m) (
          world
            (record_end g message t (unobserved_error unobserved termination_error) sync_error s)
            free
            (unobserved_signal unobserved t.process termination_error l)
            (shut_down t.sync_server v)
            m)

-- What the service reaches from its first state.
pub data Reach : World → Type 0 where
  initial : Reach (world (stopped 0) free [] [] [])
  then : (w w' : World) → Reach w → Step w w' → Reach w'
