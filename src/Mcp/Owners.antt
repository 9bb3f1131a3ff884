-- ===== src/Mcp/Owners.antt =====
-- mcp_runtime/: who owns the process and the synchronization server.
use astesia.Base.{
  ℕ, ◌<◌, ◌≤◌, ◌≡◌, refl, ap, ◌∙◌, true, false, Option, none, some, String, List, All,
}
use astesia.Mcp.State.{
  ManagedProcess, clean, process, RuntimeState, stopped, preparing, starting, running, stopping,
  failed, generation,
}
use astesia.Mcp.Steps.{Holder, free, starting_up, stopping_up, failing, recording, World, world}

unfoldable pub process_of : RuntimeState → Option ManagedProcess
process_of (starting _ _ r) = some r.process
process_of (running _ _ _ r) = some r.process
process_of (stopping _ _ _ p) = some p
process_of (failed _ _ _ (process p) _) = some p
process_of (failed _ _ _ clean _) = none
process_of (stopped _) = none
process_of (preparing _ _) = none

unfoldable pub server_of : RuntimeState → Option ℕ
server_of (starting _ _ r) = some r.sync_server
server_of (running _ _ _ r) = some r.sync_server
server_of _ = none

unfoldable pub IsQuiet : RuntimeState → Type 0
IsQuiet (preparing _ _) = ⊥
IsQuiet _ = Unit

-- What a stop that has begun leaves in the state: its process, and no server.
unfoldable pub IsStopping : ManagedProcess → ℕ → RuntimeState → Type 0
unfolding process_of server_of IsQuiet generation
IsStopping p g s = (process_of s ≡ some p) × (generation s ≡ g) × (server_of s ≡ none) × IsQuiet s

-- What the state is while the cleanup lock is held.
unfoldable pub IsHeld : Holder → List (ℕ × ℕ) → RuntimeState → Type 0
unfolding IsStopping
IsHeld free m s = IsQuiet s
IsHeld (starting_up g e) m s = (s ≡ preparing g e) × All (λ monitor. monitor.0 < g) m
IsHeld (stopping_up p server g) m s = IsStopping p g s
IsHeld (failing g r) m s = (message : String) × (s ≡ failed g none none clean message)
IsHeld (recording g message unobserved t) m s = s ≡ stopped g

-- A process whose end was observed has no owner.
unfoldable pub owner : Holder → RuntimeState → Option ManagedProcess
unfolding process_of
owner free s = process_of s
owner (starting_up _ _) s = none
owner (stopping_up p _ _) s = some p
owner (failing _ r) s = some r.process
owner (recording _ _ true t) s = some t.process
owner (recording _ _ false t) s = none

unfoldable pub server_owner : Holder → RuntimeState → Option ℕ
unfolding server_of
server_owner free s = server_of s
server_owner (starting_up _ _) s = none
server_owner (stopping_up _ server _) s = server
server_owner (failing _ r) s = some r.sync_server
server_owner (recording _ _ _ t) s = t.sync_server

abbrev pub Controls : ℕ → Option ManagedProcess → Type 0
Controls c none = ⊥
Controls c (some p) = p.control ≡ c

abbrev pub Serves : ℕ → Option ℕ → Type 0
Serves c none = ⊥
Serves c (some s) = s ≡ c

-- A monitor's generation is not a later one, and in the state's own generation its process is the
-- one that is owned.
abbrev pub Agrees : ℕ → Option ManagedProcess → (ℕ × ℕ) → Type 0
Agrees g o (mg, c) = (mg ≤ g) × (mg ≡ g → (p : ManagedProcess) → o ≡ some p → p.control ≡ c)

unfoldable pub IsOwned : World → Type 0
unfolding IsHeld owner server_owner generation
IsOwned (world s h l v m) =
    IsHeld h m s
    × All (λ c. Controls c (owner h s)) l
    × All (λ c. Serves c (server_owner h s)) v
    × All (Agrees (generation s) (owner h s)) m

-- What a step that does not take the cleanup lock does to the state.
pub record Keeps (f : RuntimeState → RuntimeState) : Type 0 where
  pub process : (s : RuntimeState) → process_of (f s) ≡ process_of s
  pub server : (s : RuntimeState) → server_of (f s) ≡ server_of s
  pub same : (s : RuntimeState) → generation (f s) ≡ generation s
  pub quiet : (s : RuntimeState) → IsQuiet s → IsQuiet (f s)
  pub at_preparing : (g : ℕ) (e : String) → f (preparing g e) ≡ preparing g e
  pub at_clean :
      (g : ℕ) (message : String)
      → f (failed g none none clean message) ≡ failed g none none clean message
  pub at_stopped : (g : ℕ) → f (stopped g) ≡ stopped g

module _ (f : RuntimeState → RuntimeState) (k : Keeps f) where
  owner_kept : (h : Holder) (s : RuntimeState) → owner h (f s) ≡ owner h s
  unfolding owner
  owner_kept free s = k.process s
  owner_kept (starting_up _ _) s = refl
  owner_kept (stopping_up _ _ _) s = refl
  owner_kept (failing _ _) s = refl
  owner_kept (recording _ _ true _) s = refl
  owner_kept (recording _ _ false _) s = refl

  server_owner_kept : (h : Holder) (s : RuntimeState) → server_owner h (f s) ≡ server_owner h s
  unfolding server_owner
  server_owner_kept free s = k.server s
  server_owner_kept (starting_up _ _) s = refl
  server_owner_kept (stopping_up _ _ _) s = refl
  server_owner_kept (failing _ _) s = refl
  server_owner_kept (recording _ _ _ _) s = refl

  IsHeld-kept : (h : Holder) (m : List (ℕ × ℕ)) (s : RuntimeState) → IsHeld h m s → IsHeld h m (f s)
  unfolding IsHeld
  IsHeld-kept free m s held = k.quiet s held
  IsHeld-kept (starting_up g e) m s (at, older) = (ap f at ∙ k.at_preparing g e, older)
  IsHeld-kept (stopping_up p server g) m s (owns, same, no_server, quiet) =
      (k.process s ∙ owns, k.same s ∙ same, k.server s ∙ no_server, k.quiet s quiet)
  IsHeld-kept (failing g r) m s (message, at) = (message, ap f at ∙ k.at_clean g message)
  IsHeld-kept (recording g message unobserved t) m s at = ap f at ∙ k.at_stopped g

  pub IsOwned-kept :
      (s : RuntimeState) (h : Holder) (l v : List ℕ) (m : List (ℕ × ℕ))
      → IsOwned (world s h l v m)
      → IsOwned (world (f s) h l v m)
  unfolding IsOwned
  IsOwned-kept s h l v m (held, loose, serving, monitors) = (
    IsHeld-kept h m s held,
    rw (owner_kept h s) loose,
    rw (server_owner_kept h s) serving,
    rw (owner_kept h s, k.same s) monitors,
  )
