-- ===== src/Mcp/Signals.antt =====
-- mcp_runtime/termination.rs: an operation that has signalled the process leaves no process behind.
use native.Mathlib.Omega.{arith}
use astesia.Base.{
  ℕ, ◌≡◌, ◌⊎◌, inl, inr, refl, sym, ◌∙◌, Option, none, some, String, List, [], ◌∷◌, All,
}
use astesia.Mcp.State.{ManagedProcess, RuntimeState, generation}
use astesia.Mcp.Steps.{free, world, signalled}
use astesia.Mcp.Owners.{
  process_of, server_of, IsQuiet, IsHeld, owner, server_owner, Agrees, IsOwned,
}
use astesia.Mcp.Invariant.{without-nil, Agrees-none, some-control}

-- What the state is after the process was signalled: the process is still in it, unless the
-- signal went through.
unfoldable pub IsSettled : ManagedProcess → Option String → ℕ → RuntimeState → Type 0
unfolding IsQuiet server_of process_of generation
IsSettled p termination_error g s =
    IsQuiet s
    × (server_of s ≡ none)
    × (generation s ≡ g)
    × (((q : ManagedProcess) × (process_of s ≡ some q) × (q.control ≡ p.control))
        ⊎ ((process_of s ≡ none) × (termination_error ≡ none)))

Controls-signalled :
    (p q : ManagedProcess) (termination_error : Option String) (l : List ℕ)
    → q.control ≡ p.control
    → All (λ c. p.control ≡ c) l
    → All (λ c. q.control ≡ c) (signalled p termination_error l)
unfolding signalled
Controls-signalled p q none l e h = rw (without-nil p.control l h) tt
Controls-signalled p q (some _) l e h = rw e h

Agrees-same :
    (g : ℕ) (p q : ManagedProcess) (m : List (ℕ × ℕ))
    → q.control ≡ p.control
    → All (Agrees g (some p)) m
    → All (Agrees g (some q)) m
Agrees-same g p q [] e h = tt
Agrees-same g p q ((mg, c) ∷ m) e ((low, same), h) =
    ((low, λ now r e'. sym (some-control q r e') ∙ e ∙ same now p refl), Agrees-same g p q m e h)

-- A settled state owns what is left.
pub settled_lem :
    (p : ManagedProcess) (termination_error : Option String) (g : ℕ) (s : RuntimeState)
    (l v : List ℕ) (m : List (ℕ × ℕ))
    → IsSettled p termination_error g s
    → All (λ c. p.control ≡ c) l
    → v ≡ []
    → All (Agrees g (some p)) m
    → IsOwned (world s free (signalled p termination_error l) v m)
unfolding IsSettled IsOwned IsHeld owner server_owner signalled
settled_lem p termination_error g s l v m (quiet, server, same, inl (q, owns, e)) loose nil agree =
    (
      quiet,
      rw owns (Controls-signalled p q termination_error l e loose),
      rw nil tt,
      rw (same, owns) (Agrees-same g p q m e agree),
    )
settled_lem p termination_error g s l v m (quiet, server, same, inr (gone, ok)) loose nil agree = (
  quiet,
  rw (ok, signalled, without-nil p.control l loose) tt,
  rw nil tt,
  rw (same, gone) (Agrees-none g g (some p) m (omega arith) agree),
)
