-- ===== src/Mcp/Records.antt =====
-- mcp_runtime/termination.rs: `record_termination` leaves what it took owned.
use native.Mathlib.Omega.{arith}
use astesia.Base.{
  ℕ, ◌≡◌, ◌≢◌, inl, inr, refl, sym, ap, subst, ◌∙◌, Bool, true, false, Option, none, some, String,
  List, [], ◌∷◌, All,
}
use astesia.Mcp.State.{
  MonitorOwnership, ManagedProcess, active, detached, clean, process, RuntimeState, stopped,
  preparing, starting, running, stopping, failed, generation, taken,
}
use astesia.Mcp.Termination.{
  Terminated, record_begin, record_end, taken_apart, while_active, recorded, with_sync_error,
}
use astesia.Mcp.Steps.{
  free, recording, world, shut_down, begun_recording, unobserved_signal, unobserved_error, Watched,
}
use astesia.Mcp.Owners.{
  process_of, server_of, IsQuiet, IsHeld, owner, server_owner, Controls, Serves, Agrees, IsOwned,
}
use astesia.Mcp.Invariant.{nobody, shut_down_lem, ==_refl, Agrees-none}
use astesia.Mcp.Signals.{IsSettled, settled_lem}

while_active_lem :
    (o : MonitorOwnership) (t t' : Terminated) → while_active o t ≡ some t' → some t ≡ some t'
unfolding while_active
while_active_lem active t t' h = h
while_active_lem detached t t' h = absurd (cc)

taken_apart_lem :
    (s : RuntimeState) (t : Terminated)
    → taken_apart s ≡ some t
    → (process_of s ≡ some t.process) × (server_of s ≡ t.sync_server)
unfolding taken_apart process_of server_of
taken_apart_lem (starting c e r) t h = (cc, cc)
taken_apart_lem (running c e at r) t h = (cc, cc)
taken_apart_lem (stopping c e at p) t h = (cc, cc)
taken_apart_lem (failed c e at (process p) m) t h =
    let same =
      while_active_lem p.monitor (record { process = p; sync_server = none; was_stopping = false })
        t h in
    (cc same, cc same)
taken_apart_lem (failed c e at clean m) t h = absurd (cc)
taken_apart_lem (stopped c) t h = absurd (cc)
taken_apart_lem (preparing c e) t h = absurd (cc)

record_begin_lem :
    (g : ℕ) (s : RuntimeState) (t : Terminated)
    → record_begin g s ≡ some t
    → (generation s ≡ g) × (taken_apart s ≡ some t)
unfolding record_begin
record_begin_lem g s t h = ground (arith, h)

-- Of the process that a monitor saw end, nothing is loose.
Watched-gone :
    (g c : ℕ) (p : ManagedProcess) (l : List ℕ) (m : List (ℕ × ℕ))
    → Watched g c m
    → All (λ d. d ≢ c) l
    → All (λ d. p.control ≡ d) l
    → All (Agrees g (some p)) m
    → l ≡ []
unfolding Watched
Watched-gone g c p [] m watched ended loose agree = refl
Watched-gone g c p (d ∷ l) [] watched ended loose agree = absurd watched
Watched-gone g c p (d ∷ l) ((mg, mc) ∷ m) (inl (e, e')) ended loose agree =
    absurd (ended.0 (sym loose.0 ∙ agree.0.1 e p refl ∙ e'))
Watched-gone g c p (d ∷ l) ((mg, mc) ∷ m) (inr watched) ended loose agree =
    Watched-gone g c p (d ∷ l) m watched ended loose agree.1

recording_lem :
    (s : RuntimeState) (t : Terminated) (l v : List ℕ) (m : List (ℕ × ℕ)) (g c : ℕ)
    (message : String) (unobserved : Bool)
    → process_of s ≡ some t.process
    → server_of s ≡ t.sync_server
    → generation s ≡ g
    → Watched g c m
    → (unobserved ≡ false → All (λ d. d ≢ c) l)
    → IsOwned (world s free l v m)
    → IsOwned (world (taken s) (recording g message unobserved t) l v m)
unfolding IsOwned IsHeld owner server_owner taken generation
recording_lem s t l v m g c message true owns serves same watched ended
      (quiet, loose, serving, agree) =
    (
      ap stopped same,
      subst (λ o. All (λ d. Controls d o) l) owns loose,
      subst (λ o. All (λ d. Serves d o) v) serves serving,
      subst (λ o. All (Agrees (generation s) o) m) owns agree,
    )
recording_lem s t l v m g c message false owns serves same watched ended
      (quiet, loose, serving, agree) =
    let agree_now =
      subst (λ o. All (Agrees g o) m) owns
        (subst (λ k. All (Agrees k (process_of s)) m) same agree) in
    let gone : l ≡ [] =
      Watched-gone g c t.process l m watched (ended refl)
        (subst (λ o. All (λ d. Controls d o) l) owns loose) agree_now in
    (
      ap stopped same,
      rw gone tt,
      subst (λ o. All (λ d. Serves d o) v) serves serving,
      Agrees-none (generation s) (generation s) (process_of s) m (omega arith) agree,
    )

pub record_begins_lem :
    (s : RuntimeState) (l v : List ℕ) (m : List (ℕ × ℕ)) (g c : ℕ) (message : String)
    (unobserved : Bool)
    → Watched g c m
    → (unobserved ≡ false → All (λ d. d ≢ c) l)
    → IsOwned (world s free l v m)
    → IsOwned (begun_recording (record_begin g s) s g message unobserved l v m)
unfolding begun_recording
record_begins_lem s l v m g c message unobserved watched ended h = go (record_begin g s) refl
  where
    go :
        (o : Option Terminated)
        → record_begin g s ≡ o
        → IsOwned (begun_recording o s g message unobserved l v m)
    go none e = h
    go (some t) e =
        let begun = record_begin_lem g s t e in
        let parts = taken_apart_lem s t begun.1 in
        recording_lem s t l v m g c message unobserved parts.0 parts.1 begun.0 watched ended h

-- What the state is after the end of a process was observed.
IsGone : ℕ → RuntimeState → Type 0
IsGone g s = IsQuiet s × (server_of s ≡ none) × (generation s ≡ g) × (process_of s ≡ none)

gone-IsSettled : (p : ManagedProcess) (g : ℕ) (s : RuntimeState) → IsGone g s → IsSettled p none g s
unfolding IsGone IsSettled
gone-IsSettled p g s (quiet, server, same, gone) = (quiet, server, same, inr (gone, refl))

with_sync_error-IsGone :
    (g : ℕ) (message : String) (p : ManagedProcess) (was_stopping : Bool)
    (sync_error : Option String)
    → IsGone g (with_sync_error sync_error (recorded g message p was_stopping none))
unfolding IsGone with_sync_error recorded IsQuiet server_of generation process_of
with_sync_error-IsGone g message p true none = (tt, refl, refl, refl)
with_sync_error-IsGone g message p true (some e) = (tt, refl, refl, refl)
with_sync_error-IsGone g message p false none = (tt, refl, refl, refl)
with_sync_error-IsGone g message p false (some e) = (tt, refl, refl, refl)

with_sync_error-IsSettled :
    (g : ℕ) (message : String) (p : ManagedProcess) (was_stopping : Bool)
    (termination_error sync_error : Option String)
    → IsSettled p termination_error g
        (with_sync_error sync_error (recorded g message p was_stopping termination_error))
unfolding IsSettled with_sync_error recorded
with_sync_error-IsSettled g message p w none sync_error =
    gone-IsSettled p g _ (with_sync_error-IsGone g message p w sync_error)
with_sync_error-IsSettled g message p w (some t) none =
    (tt, refl, refl, inl (record p { monitor = detached }, refl, refl))
with_sync_error-IsSettled g message p w (some t) (some e) =
    (tt, refl, refl, inl (record p { monitor = detached }, refl, refl))

record_end-stopped :
    (g : ℕ) (message : String) (t : Terminated) (termination_error sync_error : Option String)
    → record_end g message t termination_error sync_error (stopped g)
      ≡ with_sync_error sync_error (recorded g message t.process t.was_stopping termination_error)
unfolding record_end generation
record_end-stopped g message t termination_error sync_error = rw (==_refl g) refl

gone_lem :
    (g : ℕ) (s : RuntimeState) (l v : List ℕ) (m : List (ℕ × ℕ))
    → IsGone g s
    → l ≡ []
    → v ≡ []
    → All (Agrees g none) m
    → IsOwned (world s free l v m)
unfolding IsGone IsOwned IsHeld owner server_owner
gone_lem g s l v m (quiet, server, same, gone) none_left nil agree =
    (quiet, rw none_left tt, rw nil tt, rw (same, gone) agree)

pub record_ends_lem :
    (s : RuntimeState) (t : Terminated) (l v : List ℕ) (m : List (ℕ × ℕ)) (g : ℕ) (message : String)
    (unobserved : Bool) (termination_error sync_error : Option String)
    → IsOwned (world s (recording g message unobserved t) l v m)
    → IsOwned (
        world
          (record_end g message t (unobserved_error unobserved termination_error) sync_error s)
          free
          (unobserved_signal unobserved t.process termination_error l)
          (shut_down t.sync_server v)
          m)
unfolding IsOwned IsHeld owner server_owner generation unobserved_error unobserved_signal
record_ends_lem s t l v m g message true e sync_error (at, loose, serving, agree) =
    settled_lem t.process e g (record_end g message t e sync_error s) l (shut_down t.sync_server v)
      m
      (rw (at, record_end-stopped g message t e sync_error)
        (with_sync_error-IsSettled g message t.process t.was_stopping e sync_error))
      loose (shut_down_lem t.sync_server v serving)
      (subst (λ k. All (Agrees k (some t.process)) m) (ap generation at) agree)
record_ends_lem s t l v m g message false e sync_error (at, loose, serving, agree) =
    gone_lem g (record_end g message t none sync_error s) l (shut_down t.sync_server v) m
      (rw (at, record_end-stopped g message t none sync_error)
        (with_sync_error-IsGone g message t.process t.was_stopping sync_error))
      (nobody l loose) (shut_down_lem t.sync_server v serving)
      (subst (λ k. All (Agrees k none) m) (ap generation at) agree)
