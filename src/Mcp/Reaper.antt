-- ===== src/Mcp/Reaper.antt =====
-- mcp_runtime/reaper.rs: the processes whose termination failed. A control handle is known by a number,
-- at which `Arc::ptr_eq` compares, and what `terminate` answers for each handle is a parameter.
use astesia.Base.{
  ℕ, ◌≡◌, refl, Bool, false, ◌||◌, Option, none, some, String, List, [], ◌∷◌, ◌++◌, ◌==◌,
  if◌then◌else◌, keep, is_some,
}

unfoldable pub is_pending : ℕ → List ℕ → Bool
is_pending control [] = false
is_pending control (existing ∷ pending) = existing == control || is_pending control pending

unfoldable pub retain : ℕ → List ℕ → List ℕ
unfolding is_pending
retain control pending = if is_pending control pending then pending else pending ++ control ∷ []

pub record Retried : Type 0 where
  pub failed : List ℕ
  pub errors : List String

module _ (terminate : ℕ → Option String) where
  add_failure : ℕ → Option String → Retried → Retried
  add_failure control none r = r
  add_failure control (some error) r = record {
    failed = control ∷ r.failed;
    errors = error ∷ r.errors;
  }

  -- The loop of `retry` on the handles that it took.
  retry_each : List ℕ → Retried
  unfolding add_failure
  retry_each [] = record { failed = []; errors = [] }
  retry_each (control ∷ pending) = add_failure control (terminate control) (retry_each pending)

  -- What is pending after `retry`, where `meanwhile` was retained during its loop, and the errors.
  unfoldable pub retry : (pending meanwhile : List ℕ) → List ℕ × List String
  unfolding retry_each
  retry pending meanwhile = (meanwhile ++ (retry_each pending).failed, (retry_each pending).errors)

  add_failure_lem :
      (control : ℕ) (answer : Option String) (r : Retried) (pending : List ℕ)
      → r.failed ≡ keep (λ c. is_some (terminate c)) pending
      → terminate control ≡ answer
      → (add_failure control answer r).failed
        ≡ keep (λ c. is_some (terminate c)) (control ∷ pending)
  unfolding add_failure keep
  add_failure_lem control none r pending h e = rw (keep, e) h
  add_failure_lem control (some error) r pending h e = rw (keep, e, h) refl

  retry_each_lem :
      (pending : List ℕ) → (retry_each pending).failed ≡ keep (λ c. is_some (terminate c)) pending
  unfolding retry_each keep
  retry_each_lem [] = refl
  retry_each_lem (control ∷ pending) =
      add_failure_lem control (terminate control) (retry_each pending) pending
        (retry_each_lem pending) refl

  -- After a retry the handles are pending whose termination failed, in their order, behind those
  -- that were retained meanwhile.
  pub retry_lem :
      (pending meanwhile : List ℕ)
      → (retry pending meanwhile).0 ≡ meanwhile ++ keep (λ c. is_some (terminate c)) pending
  unfolding retry
  retry_lem pending meanwhile = rw (retry_each_lem pending) refl
