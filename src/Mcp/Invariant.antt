-- ===== src/Mcp/Invariant.antt =====
-- mcp_runtime/: each step keeps the process and the synchronization server owned.
use native.Mathlib.Omega.{arith}
use astesia.Base.{
  ℕ, ◌+◌, ◌^◌, ◌<◌, ◌≤◌, ◌≡◌, refl, sym, ap, subst, ◌∙◌, true, Option, none, some, String, List, [],
  ◌∷◌, ◌==◌, keep, All,
}
use astesia.Mcp.State.{
  ManagedProcess, ServiceResources, clean, process, RuntimeState, stopped, preparing, starting,
  running, stopping, failed, generation, wrapping_succ,
}
use astesia.Mcp.Termination.{proceed, start_plan, set_start_error, install, stop_begin}
use astesia.Mcp.Steps.{free, starting_up, world, without, shut_down, installed, planned}
use astesia.Mcp.Owners.{
  process_of, server_of, IsStopping, IsHeld, owner, server_owner, Controls, Serves, Agrees, IsOwned,
}

-- Nothing is left of processes that were all the one that was signalled.
pub without-nil : (c : ℕ) (l : List ℕ) → All (λ d. c ≡ d) l → without c l ≡ []
unfolding without keep
without-nil c [] h = refl
without-nil c (d ∷ l) (e, h) = ground (arith, without-nil c l h)

pub nobody : (l : List ℕ) → All (λ c. Controls c none) l → l ≡ []
nobody [] h = refl
nobody (c ∷ l) h = absurd h.0

pub no_server : (v : List ℕ) → All (λ c. Serves c none) v → v ≡ []
no_server [] h = refl
no_server (c ∷ v) h = absurd h.0

pub shut_down_lem :
    (server : Option ℕ) (v : List ℕ) → All (λ c. Serves c server) v → shut_down server v ≡ []
unfolding shut_down
shut_down_lem none v h = no_server v h
shut_down_lem (some server) v h = without-nil server v h

pub Agrees-none :
    (g g' : ℕ) (o : Option ManagedProcess) (m : List (ℕ × ℕ))
    → g ≤ g'
    → All (Agrees g o) m
    → All (Agrees g' none) m
Agrees-none g g' o [] le h = tt
Agrees-none g g' o ((mg, c) ∷ m) le ((low, _), h) =
    ((omega arith, λ _ p e. absurd (cc e)), Agrees-none g g' o m le h)

pub Agrees-next :
    (g : ℕ) (o o' : Option ManagedProcess) (m : List (ℕ × ℕ))
    → All (Agrees g o) m
    → All (Agrees (g + 1) o') m
Agrees-next g o o' [] h = tt
Agrees-next g o o' ((mg, c) ∷ m) ((low, _), h) =
    ((omega arith, λ e p _. absurd (omega arith)), Agrees-next g o o' m h)

Agrees-older :
    (g : ℕ) (o : Option ManagedProcess) (m : List (ℕ × ℕ))
    → All (λ monitor. monitor.0 < g) m
    → All (Agrees g o) m
Agrees-older g o [] h = tt
Agrees-older g o ((mg, c) ∷ m) (low, h) =
    ((omega arith, λ e p _. absurd (omega arith)), Agrees-older g o m h)

older :
    (g : ℕ) (o : Option ManagedProcess) (m : List (ℕ × ℕ))
    → All (Agrees g o) m
    → All (λ monitor. monitor.0 < g + 1) m
older g o [] h = tt
older g o ((mg, c) ∷ m) ((low, _), h) = (omega arith, older g o m h)

pub wrapping_succ_lem : (g : ℕ) → g + 1 < 2 ^ 64 → wrapping_succ g ≡ g + 1
unfolding wrapping_succ
wrapping_succ_lem g h = omega arith

pub start_prepares_lem :
    (s : RuntimeState) (l v : List ℕ) (m : List (ℕ × ℕ)) (g : ℕ) (e : String)
    → start_plan s ≡ proceed g
    → generation s + 1 < 2 ^ 64
    → IsOwned (world s free l v m)
    → IsOwned (world (preparing g e) (starting_up g e) l v m)
unfolding IsOwned IsHeld owner server_owner start_plan process_of server_of generation
start_prepares_lem (stopped c) l v m g e plan small (quiet, loose, serving, agree) =
    let next : c + 1 ≡ g = cc (wrapping_succ_lem c small, plan) in
    (
      (refl, subst (λ k. All (λ monitor. monitor.0 < k) m) next (older c none m agree)),
      loose,
      serving,
      subst (λ k. All (Agrees k none) m) next (Agrees-next c none none m agree),
    )
start_prepares_lem (failed c e' at clean error) l v m g e plan small
      (quiet, loose, serving, agree) =
    let next : c + 1 ≡ g = cc (wrapping_succ_lem c small, plan) in
    (
      (refl, subst (λ k. All (λ monitor. monitor.0 < k) m) next (older c none m agree)),
      loose,
      serving,
      subst (λ k. All (Agrees k none) m) next (Agrees-next c none none m agree),
    )
start_prepares_lem (failed c e' at (process p) error) l v m g e plan small h = absurd (cc)
start_prepares_lem (preparing c e') l v m g e plan small h = absurd (cc)
start_prepares_lem (starting c e' r) l v m g e plan small h = absurd (cc)
start_prepares_lem (running c e' at r) l v m g e plan small h = absurd (cc)
start_prepares_lem (stopping c e' at p) l v m g e plan small h = absurd (cc)

pub some-control : (p q : ManagedProcess) → some p ≡ some q → p.control ≡ q.control
some-control p q e = ap (λ (o : Option ManagedProcess). elim o [ none ↦ 0 | some r ↦ r.control ]) e

pub ==_refl : (g : ℕ) → (g == g) ≡ true
==_refl g = ground arith

set_start_error_preparing :
    (g : ℕ) (e message : String)
    → set_start_error g message (preparing g e) ≡ failed g none none clean message
unfolding set_start_error
set_start_error_preparing g e message = rw (set_start_error, ==_refl g) refl

pub install_preparing :
    (g : ℕ) (e : String) (r : ServiceResources)
    → install g e r (preparing g e) ≡ some (starting g e r)
unfolding install
install_preparing g e r = rw (install, ==_refl g) refl

pub start_fails_lem :
    (s : RuntimeState) (l v : List ℕ) (m : List (ℕ × ℕ)) (g : ℕ) (e message : String)
    → IsOwned (world s (starting_up g e) l v m)
    → IsOwned (world (set_start_error g message s) free l v m)
unfolding IsOwned IsHeld owner server_owner process_of server_of
start_fails_lem s l v m g e message ((at, young), loose, serving, agree) =
    subst (λ x. IsOwned (world x free l v m))
      (sym (ap (set_start_error g message) at ∙ set_start_error_preparing g e message))
      (tt, loose, serving, Agrees-older g none m young)

installed_preparing :
    (l v : List ℕ) (m : List (ℕ × ℕ)) (g : ℕ) (e : String) (r : ServiceResources)
    (termination_error : Option String)
    → installed g e r termination_error (preparing g e) l v m
      ≡ world
          (starting g e r)
          free
          (r.process.control ∷ l)
          (r.sync_server ∷ v)
          ((g, r.process.control) ∷ m)
unfolding installed
installed_preparing l v m g e r termination_error = rw (installed, install_preparing g e r) refl

pub start_installs_lem :
    (s : RuntimeState) (l v : List ℕ) (m : List (ℕ × ℕ)) (g : ℕ) (e : String) (r : ServiceResources)
    (termination_error : Option String)
    → IsOwned (world s (starting_up g e) l v m)
    → IsOwned (installed g e r termination_error s l v m)
unfolding IsOwned IsHeld owner server_owner process_of server_of
start_installs_lem s l v m g e r termination_error ((at, young), loose, serving, agree) =
    let owned : IsOwned (
        world (starting g e r) free (r.process.control ∷ l) (r.sync_server ∷ v)
          ((g, r.process.control) ∷ m)) =
      (
        tt,
        (refl, rw (nobody l loose) tt),
        (refl, rw (no_server v serving) tt),
        (
          (omega arith, λ _ p e'. sym (some-control r.process p e')),
          Agrees-older g (some r.process) m young,
        ),
      ) in
    rw (at, installed_preparing l v m g e r termination_error) owned

-- The state that a stop leaves is the one that its plan tells of.
pub stop_begins_lem :
    (s : RuntimeState) (l v : List ℕ) (m : List (ℕ × ℕ))
    → IsOwned (world s free l v m)
    → IsOwned (planned (stop_begin s) l v m)
unfolding IsOwned IsHeld owner server_owner process_of server_of stop_begin planned generation
    IsStopping
stop_begins_lem (stopped c) l v m h = h
stop_begins_lem (preparing c e) l v m h = absurd h.0
stop_begins_lem (starting c e r) l v m (quiet, loose, serving, agree) =
    ((refl, refl, refl, tt), loose, serving, agree)
stop_begins_lem (running c e at r) l v m (quiet, loose, serving, agree) =
    ((refl, refl, refl, tt), loose, serving, agree)
stop_begins_lem (stopping c e at p) l v m (quiet, loose, serving, agree) =
    ((refl, refl, refl, tt), loose, serving, agree)
stop_begins_lem (failed c e at clean error) l v m (quiet, loose, serving, agree) =
    (tt, loose, serving, agree)
stop_begins_lem (failed c e at (process p) error) l v m (quiet, loose, serving, agree) =
    ((refl, refl, refl, tt), loose, serving, agree)
