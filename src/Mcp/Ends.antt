-- ===== src/Mcp/Ends.antt =====
-- mcp_runtime/termination.rs: the last step of each operation leaves what it held owned.
use astesia.Base.{
  ℕ, ◌+◌, ◌^◌, ◌<◌, ◌≡◌, inl, inr, refl, sym, ap, subst, true, false, Option, none, some, String,
  List, ◌==◌, ==_iff, if◌then◌else◌, All, Bool-cases,
}
use astesia.Mcp.State.{
  ManagedProcess, active, detached, ServiceResources, clean, RuntimeState, stopped, preparing,
  starting, running, stopping, failed, generation, wrapping_succ,
}
use astesia.Mcp.Termination.{
  finish_detached_stop, finished_stop, settled_stop, is_over, fail_begin, fail_end, fail_noted,
  kept,
}
use astesia.Mcp.Steps.{
  free, stopping_up, failing, world, signalled, shut_down, after_signal, begun_failing,
}
use astesia.Mcp.Owners.{
  process_of, server_of, IsQuiet, IsStopping, IsHeld, owner, server_owner, Agrees, IsOwned,
}
use astesia.Mcp.Invariant.{shut_down_lem, Agrees-next, ==_refl, wrapping_succ_lem}
use astesia.Mcp.Signals.{IsSettled, settled_lem}

-- The state still has the process.
still-IsSettled :
    (p : ManagedProcess) (t : Option String) (g : ℕ) (s : RuntimeState)
    → IsStopping p g s
    → IsSettled p t g s
unfolding IsSettled IsStopping
still-IsSettled p t g s (owns, same, server, quiet) = (quiet, server, same, inl (p, owns, refl))

settled_stop-IsSettled :
    (g : ℕ) (p : ManagedProcess) (e at termination_error sync_error : Option String)
    → IsSettled p termination_error g (settled_stop g p e at termination_error sync_error)
unfolding settled_stop IsSettled
settled_stop-IsSettled g p e at (some t) sync_error = (tt, refl, refl, inl (p, refl, refl))
settled_stop-IsSettled g p e at none (some e') = (tt, refl, refl, inr (refl, refl))
settled_stop-IsSettled g p e at none none = (tt, refl, refl, inr (refl, refl))

finished_stop-IsSettled :
    (g : ℕ) (p : ManagedProcess) (termination_error sync_error : Option String) (s : RuntimeState)
    → IsStopping p g s
    → IsSettled p termination_error g (finished_stop g p termination_error sync_error s)
unfolding finished_stop
finished_stop-IsSettled g p t e (stopping _ endpoint at _) h =
    settled_stop-IsSettled g p endpoint at t e
finished_stop-IsSettled g p t e (stopped c) h = still-IsSettled p t g (stopped c) h
finished_stop-IsSettled g p t e (preparing c e') h = still-IsSettled p t g (preparing c e') h
finished_stop-IsSettled g p t e (starting c e' r) h = still-IsSettled p t g (starting c e' r) h
finished_stop-IsSettled g p t e (running c e' at r) h = still-IsSettled p t g (running c e' at r) h
finished_stop-IsSettled g p t e (failed c e' at o m) h =
    still-IsSettled p t g (failed c e' at o m) h

after_signal-IsSettled :
    (g : ℕ) (p : ManagedProcess) (termination_error sync_error : Option String) (s : RuntimeState)
    → IsStopping p g s
    → IsSettled p termination_error g (after_signal g p termination_error sync_error s)
unfolding after_signal finish_detached_stop
after_signal-IsSettled g p t sync_error s h =
    elim p.monitor
      as (λ o.
        IsSettled p t g
          (elim o [ active ↦ s | detached ↦ finish_detached_stop g p t sync_error s ])) [
            | active ↦ still-IsSettled p t g s h
            | detached ↦
                elim (is_over g s)
                  as (λ b. IsSettled p t g (if b then s else finished_stop g p t sync_error s)) [
                    | true ↦ still-IsSettled p t g s h
                    | false ↦ finished_stop-IsSettled g p t sync_error s h
                  ]
          ]

pub stop_signals_lem :
    (s : RuntimeState) (l v : List ℕ) (m : List (ℕ × ℕ)) (p : ManagedProcess) (server : Option ℕ)
    (g : ℕ) (termination_error sync_error : Option String)
    → IsOwned (world s (stopping_up p server g) l v m)
    → IsOwned (
        world
          (after_signal g p termination_error sync_error s)
          free
          (signalled p termination_error l)
          (shut_down server v)
          m)
unfolding IsOwned IsHeld owner server_owner IsStopping
stop_signals_lem s l v m p server g t sync_error (held, loose, serving, agree) =
    settled_lem p t g (after_signal g p t sync_error s) l (shut_down server v) m
      (after_signal-IsSettled g p t sync_error s held) loose (shut_down_lem server v serving)
      (rw (← held.1) agree)

fail_end-IsSettled :
    (g : ℕ) (p : ManagedProcess) (termination_error sync_error : Option String) (message : String)
    → IsSettled p termination_error g
        (fail_end g p termination_error sync_error (failed g none none clean message))
unfolding IsSettled IsQuiet server_of process_of generation fail_end fail_noted kept
fail_end-IsSettled g p none sync_error message = rw (==_refl g) (tt, refl, refl, inr (refl, refl))
fail_end-IsSettled g p (some t) sync_error message =
    rw (==_refl g) (tt, refl, refl, inl (record p { monitor = detached }, refl, refl))

pub fail_ends_lem :
    (s : RuntimeState) (l v : List ℕ) (m : List (ℕ × ℕ)) (g : ℕ) (r : ServiceResources)
    (termination_error sync_error : Option String)
    → IsOwned (world s (failing g r) l v m)
    → IsOwned (
        world
          (fail_end g r.process termination_error sync_error s)
          free
          (signalled r.process termination_error l)
          (shut_down (some r.sync_server) v)
          m)
unfolding IsOwned IsHeld owner server_owner generation
fail_ends_lem s l v m g r t sync_error ((message, at), loose, serving, agree) =
    settled_lem r.process t g (fail_end g r.process t sync_error s) l
      (shut_down (some r.sync_server) v) m
      (rw at (fail_end-IsSettled g r.process t sync_error message)) loose
      (shut_down_lem (some r.sync_server) v serving)
      (subst (λ k. All (Agrees k (some r.process)) m) (ap generation at) agree)

pub fail_begins_lem :
    (s : RuntimeState) (l v : List ℕ) (m : List (ℕ × ℕ)) (g : ℕ) (e : String)
    → generation s + 1 < 2 ^ 64
    → IsOwned (world s free l v m)
    → IsOwned (begun_failing (fail_begin g e s) s l v m)
unfolding fail_begin begun_failing IsOwned IsHeld owner server_owner process_of server_of generation
fail_begins_lem (starting c e' r) l v m g e small (quiet, loose, serving, agree) =
    elim (Bool-cases (c == g)) [
      | inl same ↦
          let now : c ≡ g = (==_iff c g).0 same in
          let next : c + 1 ≡ wrapping_succ g =
            subst (λ k. c + 1 ≡ wrapping_succ k) now (sym (wrapping_succ_lem c small)) in
          rw same (
            (e, refl),
            loose,
            serving,
            subst (λ k. All (Agrees k (some r.process)) m) next
                (Agrees-next c (some r.process) (some r.process) m agree),
          )
      | inr other ↦ rw other (quiet, loose, serving, agree)
    ]
fail_begins_lem (stopped c) l v m g e small h = h
fail_begins_lem (preparing c e') l v m g e small h = h
fail_begins_lem (running c e' at r) l v m g e small h = h
fail_begins_lem (stopping c e' at p) l v m g e small h = h
fail_begins_lem (failed c e' at o message) l v m g e small h = h
