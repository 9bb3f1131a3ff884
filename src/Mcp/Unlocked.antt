-- ===== src/Mcp/Unlocked.antt =====
-- mcp_runtime/: the steps that do not take the cleanup lock keep what is owned.
use astesia.Base.{
  ℕ, ◌≡◌, refl, sym, subst, arith, Bool, true, false, not, Option, none, String, ◌==◌,
  if◌then◌else◌,
}
use mathlib.Core.Path.{fun_ext}
use astesia.Mcp.State.{
  clean, RuntimeState, stopped, preparing, starting, running, stopping, failed, generation,
}
use astesia.Mcp.Termination.{report_ready, stop_timeout, gave_up, is_over, timeout_message}
use astesia.Mcp.Owners.{process_of, server_of, IsQuiet, Keeps}

-- A readied state, where the generation is the right one.
readied : String → RuntimeState → RuntimeState
readied now (starting g e r) = running g e now r
readied now s = s

if_same {ℓ} : {A : Type ℓ} (b : Bool) (x : A) → (if b then x else x) ≡ x
if_same true x = refl
if_same false x = refl

report_ready_cases :
    (g : ℕ) (now : String) (s : RuntimeState)
    → report_ready g now s ≡ (if generation s == g then readied now s else s)
unfolding report_ready readied generation
report_ready_cases g now (starting c e r) = ground arith
report_ready_cases g now (stopped c) = sym (if_same (c == g) _)
report_ready_cases g now (preparing c e) = sym (if_same (c == g) _)
report_ready_cases g now (running c e at r) = sym (if_same (c == g) _)
report_ready_cases g now (stopping c e at p) = sym (if_same (c == g) _)
report_ready_cases g now (failed c e at o m) = sym (if_same (c == g) _)

-- Under a test, a step that keeps what is owned still does.
Keeps-if :
    (f : RuntimeState → RuntimeState) (test : RuntimeState → Bool)
    → Keeps f
    → Keeps (λ s. if test s then f s else s)
Keeps-if f test k = record {
  process = λ s. elim (test s) as (λ b. process_of (if b then f s else s) ≡ process_of s) [
    | true ↦ k.process s
    | false ↦ refl
  ];
  server = λ s. elim (test s) as (λ b. server_of (if b then f s else s) ≡ server_of s) [
    | true ↦ k.server s
    | false ↦ refl
  ];
  same = λ s. elim (test s) as (λ b. generation (if b then f s else s) ≡ generation s) [
    | true ↦ k.same s
    | false ↦ refl
  ];
  quiet = λ s q. elim (test s) as (λ b. IsQuiet (if b then f s else s)) [
    | true ↦ k.quiet s q
    | false ↦ q
  ];
  at_preparing = λ g e.
      elim (test (preparing g e))
        as (λ b. (if b then f (preparing g e) else preparing g e) ≡ preparing g e) [
          | true ↦ k.at_preparing g e
          | false ↦ refl
        ];
  at_clean = λ g e.
      elim (test (failed g none none clean e))
        as (λ b.
          (if b then f (failed g none none clean e) else failed g none none clean e)
          ≡ failed g none none clean e) [ true ↦ k.at_clean g e | false ↦ refl ];
  at_stopped = λ g.
      elim (test (stopped g)) as (λ b. (if b then f (stopped g) else stopped g) ≡ stopped g) [
        | true ↦ k.at_stopped g
        | false ↦ refl
      ];
}

module _ (now : String) where
  readied-process : (s : RuntimeState) → process_of (readied now s) ≡ process_of s
  unfolding process_of readied
  readied-process (starting g e r) = refl
  readied-process (stopped c) = refl
  readied-process (preparing c e) = refl
  readied-process (running c e at r) = refl
  readied-process (stopping c e at p) = refl
  readied-process (failed c e at o m) = refl

  readied-server : (s : RuntimeState) → server_of (readied now s) ≡ server_of s
  unfolding server_of readied
  readied-server (starting g e r) = refl
  readied-server (stopped c) = refl
  readied-server (preparing c e) = refl
  readied-server (running c e at r) = refl
  readied-server (stopping c e at p) = refl
  readied-server (failed c e at o m) = refl

  readied-generation : (s : RuntimeState) → generation (readied now s) ≡ generation s
  unfolding generation readied
  readied-generation (starting g e r) = refl
  readied-generation (stopped c) = refl
  readied-generation (preparing c e) = refl
  readied-generation (running c e at r) = refl
  readied-generation (stopping c e at p) = refl
  readied-generation (failed c e at o m) = refl

  readied-IsQuiet : (s : RuntimeState) → IsQuiet s → IsQuiet (readied now s)
  unfolding IsQuiet readied
  readied-IsQuiet (starting g e r) q = tt
  readied-IsQuiet (stopped c) q = q
  readied-IsQuiet (preparing c e) q = q
  readied-IsQuiet (running c e at r) q = q
  readied-IsQuiet (stopping c e at p) q = q
  readied-IsQuiet (failed c e at o m) q = q

  readied-Keeps : Keeps (readied now)
  unfolding readied
  readied-Keeps = record {
    process = readied-process;
    server = readied-server;
    same = readied-generation;
    quiet = readied-IsQuiet;
    at_preparing = λ g e. refl;
    at_clean = λ g e. refl;
    at_stopped = λ g. refl;
  }

pub report_ready-Keeps : (g : ℕ) (now : String) → Keeps (report_ready g now)
report_ready-Keeps g now =
    subst Keeps (fun_ext (λ s. sym (report_ready_cases g now s)))
      (Keeps-if (readied now) (λ s. generation s == g) (readied-Keeps now))

module _ (message : String) where
  gave_up-process : (s : RuntimeState) → process_of (gave_up message s) ≡ process_of s
  unfolding process_of gave_up
  gave_up-process (starting g e r) = refl
  gave_up-process (stopped c) = refl
  gave_up-process (preparing c e) = refl
  gave_up-process (running c e at r) = refl
  gave_up-process (stopping c e at p) = refl
  gave_up-process (failed c e at o m) = refl

  gave_up-server : (s : RuntimeState) → server_of (gave_up message s) ≡ server_of s
  unfolding server_of gave_up
  gave_up-server (starting g e r) = refl
  gave_up-server (stopped c) = refl
  gave_up-server (preparing c e) = refl
  gave_up-server (running c e at r) = refl
  gave_up-server (stopping c e at p) = refl
  gave_up-server (failed c e at o m) = refl

  gave_up-generation : (s : RuntimeState) → generation (gave_up message s) ≡ generation s
  unfolding generation gave_up
  gave_up-generation (starting g e r) = refl
  gave_up-generation (stopped c) = refl
  gave_up-generation (preparing c e) = refl
  gave_up-generation (running c e at r) = refl
  gave_up-generation (stopping c e at p) = refl
  gave_up-generation (failed c e at o m) = refl

  gave_up-IsQuiet : (s : RuntimeState) → IsQuiet s → IsQuiet (gave_up message s)
  unfolding IsQuiet gave_up
  gave_up-IsQuiet (starting g e r) q = q
  gave_up-IsQuiet (stopped c) q = q
  gave_up-IsQuiet (preparing c e) q = q
  gave_up-IsQuiet (running c e at r) q = q
  gave_up-IsQuiet (stopping c e at p) q = tt
  gave_up-IsQuiet (failed c e at o m) q = q

  gave_up-Keeps : Keeps (gave_up message)
  unfolding gave_up
  gave_up-Keeps = record {
    process = gave_up-process;
    server = gave_up-server;
    same = gave_up-generation;
    quiet = gave_up-IsQuiet;
    at_preparing = λ g e. refl;
    at_clean = λ g e. refl;
    at_stopped = λ g. refl;
  }

if_not {ℓ} : {A : Type ℓ} (b : Bool) (x y : A) → (if not b then x else y) ≡ (if b then y else x)
if_not true x y = refl
if_not false x y = refl

pub stop_timeout-Keeps :
    (g : ℕ) (sync_error termination_error : Option String)
    → Keeps (stop_timeout g sync_error termination_error)
unfolding stop_timeout
stop_timeout-Keeps g sync_error termination_error =
    subst Keeps
      (fun_ext
        (λ s. if_not (is_over g s) (gave_up (timeout_message sync_error termination_error) s) s))
      (Keeps-if (gave_up (timeout_message sync_error termination_error)) (λ s. not (is_over g s))
        (gave_up-Keeps (timeout_message sync_error termination_error)))
