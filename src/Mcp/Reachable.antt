-- ===== src/Mcp/Reachable.antt =====
-- mcp_runtime/: what holds of the service, however its operations interleave.
use astesia.Base.{ℕ, ◌≡◌, ◌∙◌, ap, not, some, String, List, [], ◌==◌, All, All-keep}
use astesia.Mcp.State.{ServiceResources, RuntimeState, starting}
use astesia.Mcp.Termination.{report_ready, stop_timeout, install}
use astesia.Mcp.Steps.{
  Holder, free, starting_up, World, world, without, Step, exits, start_prepares, start_fails,
  start_installs, becomes_ready, stop_begins, stop_signals, stop_times_out, fail_begins, fail_ends,
  record_begins, record_ends, Reach, initial, then,
}
use astesia.Mcp.Owners.{
  process_of, server_of, IsHeld, owner, server_owner, Controls, Serves, IsOwned, IsOwned-kept,
}
use astesia.Mcp.Unlocked.{report_ready-Keeps, stop_timeout-Keeps}
use astesia.Mcp.Invariant.{
  nobody, no_server, start_prepares_lem, start_fails_lem, start_installs_lem, stop_begins_lem,
  install_preparing,
}
use astesia.Mcp.Ends.{stop_signals_lem, fail_begins_lem, fail_ends_lem}
use astesia.Mcp.Records.{record_begins_lem, record_ends_lem}

exits_lem :
    (s : RuntimeState) (h : Holder) (l v : List ℕ) (m : List (ℕ × ℕ)) (c : ℕ)
    → IsOwned (world s h l v m)
    → IsOwned (world s h (without c l) v m)
unfolding IsOwned without
exits_lem s h l v m c (held, loose, serving, agree) =
    (held, All-keep (λ d. Controls d (owner h s)) (λ d. not (d == c)) l loose, serving, agree)

Step-IsOwned : (w w' : World) → Step w w' → IsOwned w → IsOwned w'
Step-IsOwned _ _ (exits s h l v m c) o = exits_lem s h l v m c o
Step-IsOwned _ _ (start_prepares s l v m g e plan small) o =
    start_prepares_lem s l v m g e plan small o
Step-IsOwned _ _ (start_fails s l v m g e message) o = start_fails_lem s l v m g e message o
Step-IsOwned _ _ (start_installs s l v m g e control pid server t) o =
    start_installs_lem s l v m g e _ t o
Step-IsOwned _ _ (becomes_ready s h l v m g now) o =
    IsOwned-kept (report_ready g now) (report_ready-Keeps g now) s h l v m o
Step-IsOwned _ _ (stop_begins s l v m) o = stop_begins_lem s l v m o
Step-IsOwned _ _ (stop_signals s l v m p server g t e) o = stop_signals_lem s l v m p server g t e o
Step-IsOwned _ _ (stop_times_out s h l v m g e t) o =
    IsOwned-kept (stop_timeout g e t) (stop_timeout-Keeps g e t) s h l v m o
Step-IsOwned _ _ (fail_begins s l v m g e small) o = fail_begins_lem s l v m g e small o
Step-IsOwned _ _ (fail_ends s l v m g r t e) o = fail_ends_lem s l v m g r t e o
Step-IsOwned _ _ (record_begins s l v m g c message u watched ended) o =
    record_begins_lem s l v m g c message u watched ended o
Step-IsOwned _ _ (record_ends s t l v m g message u e e') o =
    record_ends_lem s t l v m g message u e e' o

pub Reach-IsOwned : (w : World) → Reach w → IsOwned w
unfolding IsOwned
Reach-IsOwned _ initial = (tt, tt, tt, tt)
Reach-IsOwned _ (then w w' r step) = Step-IsOwned w w' step (Reach-IsOwned w r)

-- In every world that the steps reach in which no operation holds the cleanup lock, a sidecar that
-- was neither signalled nor has ended is the process that the state owns, and a synchronization
-- server that was not shut down is the state's own.
pub no_orphan :
    (s : RuntimeState) (l v : List ℕ) (m : List (ℕ × ℕ))
    → Reach (world s free l v m)
    → All (λ c. Controls c (process_of s)) l × All (λ c. Serves c (server_of s)) v
unfolding IsOwned owner server_owner
no_orphan s l v m r = let o = Reach-IsOwned (world s free l v m) r in (o.1, o.2)

-- In every world that the steps reach in which a start has prepared, the state is still the one that
-- the start left, so that it installs its sidecar, and no other sidecar or server is left running.
pub start_installs_own :
    (s : RuntimeState) (l v : List ℕ) (m : List (ℕ × ℕ)) (g : ℕ) (e : String) (r : ServiceResources)
    → Reach (world s (starting_up g e) l v m)
    → (install g e r s ≡ some (starting g e r)) × (l ≡ []) × (v ≡ [])
unfolding IsOwned IsHeld owner server_owner
start_installs_own s l v m g e r reach =
    let o = Reach-IsOwned (world s (starting_up g e) l v m) reach in
    (ap (install g e r) o.0.0 ∙ install_preparing g e r, nobody l o.1, no_server v o.2)
