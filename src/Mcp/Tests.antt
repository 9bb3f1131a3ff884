-- ===== src/Mcp/Tests.antt =====
-- mcp_runtime/: runs of the service.
use astesia.Base.{ℕ, ◌≡◌, inl, arith, refl, true, none, some, List, [], ◌∷◌, All}
use astesia.Mcp.State.{
  ManagedProcess, active, ServiceResources, stopped, preparing, starting, stopping, generation,
}
use astesia.Mcp.Termination.{install, is_over, start_plan, stop_begin, record_begin}
use astesia.Mcp.Steps.{
  free, starting_up, stopping_up, recording, world, installed, planned, after_signal, signalled,
  shut_down, begun_recording, Watched, Reach, initial, then, start_prepares, start_installs,
  stop_begins, stop_signals, record_begins,
}
use astesia.Mcp.Owners.{process_of, server_of, Controls, Serves}
use astesia.Mcp.Reachable.{no_orphan, start_installs_own}

abbrev sidecar : ManagedProcess
sidecar = record { control = 7; pid = 42; monitor = active }

abbrev resources : ServiceResources
resources = record { process = sidecar; sync_server = 3 }

prepared : Reach (world (preparing 1 "e") (starting_up 1 "e") [] [] [])
unfolding start_plan generation
prepared =
    then (world (stopped 0) free [] [] []) (world (preparing 1 "e") (starting_up 1 "e") [] [] [])
      initial (start_prepares (stopped 0) [] [] [] 1 "e" refl (omega arith))

installed_run : Reach (world (starting 1 "e" resources) free (7 ∷ []) (3 ∷ []) ((1, 7) ∷ []))
unfolding installed
installed_run =
    then (world (preparing 1 "e") (starting_up 1 "e") [] [] [])
      (world (starting 1 "e" resources) free (7 ∷ []) (3 ∷ []) ((1, 7) ∷ [])) prepared
      (start_installs (preparing 1 "e") [] [] [] 1 "e" 7 42 3 none)

-- A stop whose signal failed waits for its monitor.
waiting : Reach (world (stopping 1 (some "e") none sidecar) free (7 ∷ []) [] ((1, 7) ∷ []))
unfolding planned stop_begin after_signal signalled shut_down
waiting =
    then
      (world (stopping 1 (some "e") none sidecar) (stopping_up sidecar (some 3) 1) (7 ∷ []) (3 ∷ [])
        ((1, 7) ∷ []))
      (world (stopping 1 (some "e") none sidecar) free (7 ∷ []) [] ((1, 7) ∷ []))
      (then (world (starting 1 "e" resources) free (7 ∷ []) (3 ∷ []) ((1, 7) ∷ []))
        (world (stopping 1 (some "e") none sidecar) (stopping_up sidecar (some 3) 1) (7 ∷ [])
          (3 ∷ []) ((1, 7) ∷ []))
        installed_run (stop_begins (starting 1 "e" resources) (7 ∷ []) (3 ∷ []) ((1, 7) ∷ [])))
      (stop_signals (stopping 1 (some "e") none sidecar) (7 ∷ []) (3 ∷ []) ((1, 7) ∷ []) sidecar
        (some 3) 1 (some "denied") none)

-- The output of the sidecar ends before its process does: while the end is recorded, the state
-- reads `Stopped`, at which the stop that waits returns.
recording_run : Reach (
    world
      (stopped 1)
      (recording 1 "closed" true
        (record { process = sidecar; sync_server = none; was_stopping = true }))
      (7 ∷ [])
      []
      ((1, 7) ∷ []))
unfolding begun_recording record_begin Watched
recording_run =
    then (world (stopping 1 (some "e") none sidecar) free (7 ∷ []) [] ((1, 7) ∷ []))
      (world (stopped 1)
        (recording 1 "closed" true
          (record { process = sidecar; sync_server = none; was_stopping = true }))
        (7 ∷ []) [] ((1, 7) ∷ []))
      waiting
      (record_begins (stopping 1 (some "e") none sidecar) (7 ∷ []) [] ((1, 7) ∷ []) 1 7 "closed"
        true (inl (refl, refl)) (λ e. absurd (cc)))

stop_returns_early : is_over 1 (stopped 1) ≡ true
unfolding is_over
stop_returns_early = refl

no_orphan_example :
    All (λ c. Controls c (process_of (stopping 1 (some "e") none sidecar))) (7 ∷ [])
    × All (λ c. Serves c (server_of (stopping 1 (some "e") none sidecar))) []
no_orphan_example = no_orphan (stopping 1 (some "e") none sidecar) (7 ∷ []) [] ((1, 7) ∷ []) waiting

start_installs_own_example :
    (install 1 "e" resources (preparing 1 "e") ≡ some (starting 1 "e" resources))
    × (◌≡◌ {A = List ℕ} [] [])
    × (◌≡◌ {A = List ℕ} [] [])
start_installs_own_example = start_installs_own (preparing 1 "e") [] [] [] 1 "e" resources prepared
