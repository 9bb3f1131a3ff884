-- ===== src/Sync/Acquire.antt =====
-- Acquiring a connection gives out a generation that no entry has had.
use astesia.Base.{
  ℕ, ◌≤◌, ◌<◌, ◌≡◌, refl, sym, ap, ◌∙◌, String, false, Option, none, some, arith, ◌⊎◌, inl, inr,
  max, u64_max, if◌then◌else◌, Bool-cases, Option-cases,
}
use mathlib.Core.Option.{some-injective}
use astesia.Base.Table.{Key, get, insert, get-insert, same_self}
use astesia.Sync.{ownership_key_key, OwnershipKey, McpUsePhase, RegistryEntry, McpSyncContext}
use astesia.Sync.Registry.{
  Signed, RegistryState, Reply, saturating_succ, success, validate_connection_id, owner_of,
  ensure_owner_is_open,
}
use astesia.Sync.Operations.{acquire, acquire_existing, acquire_validated}

module _ {R : Type 0} where
  -- Every entry's generation was given out.
  abbrev pub AreGiven : RegistryState R → Type 0
  AreGiven s =
      (j : OwnershipKey) (e : RegistryEntry R)
      → get j s.entries ≡ some e
      → e.generation ≤ s.next_generation

  -- What a new entry under `key` must have.
  pub record IsAcquired (key : OwnershipKey) (revision : R) (s : RegistryState R) (reply : Reply R)
      : Type 0 where
    pub generation : ℕ
    pub answered : reply.response ≡ success (some generation) none
    pub not_zero : 0 < generation
    pub newer :
        (j : OwnershipKey) (e : RegistryEntry R)
        → get j s.entries ≡ some e
        → e.generation < generation
    pub entered :
        get key reply.state.entries
        ≡ some (record {
          profile_revision = revision;
          generation = generation;
          phase = McpUsePhase.acquired;
          last_error = none;
        })
    pub given : AreGiven reply.state

module _ {R : Type 0} ⦃k : Key R⦄ where
  acquire_validated_cases :
      (key : OwnershipKey) (revision : R) (s : RegistryState R)
      → ((acquire_validated key revision s).emit ≡ false)
          × ((acquire_validated key revision s).state ≡ s)
        ⊎ ((ensure_owner_is_open key s ≡ none) × (get key s.entries ≡ none))
  unfolding acquire_validated
  acquire_validated_cases key revision s = elim (Option-cases (ensure_owner_is_open key s)) [
    | inr (why, closed) ↦ inl (rw (acquire_validated, closed) (refl, refl))
    | inl open_ ↦ elim (Option-cases (get key s.entries)) [
      | inr (e, found) ↦ inl (rw (acquire_validated, open_, found) (refl, refl))
      | inl absent ↦ inr (open_, absent)
    ]
  ]

  acquire_validated-IsAcquired :
      (key : OwnershipKey) (revision : R) (s : RegistryState R)
      → s.next_generation < u64_max
      → AreGiven s
      → ensure_owner_is_open key s ≡ none
      → get key s.entries ≡ none
      → IsAcquired key revision s (acquire_validated key revision s)
  unfolding acquire_validated
  acquire_validated-IsAcquired key revision s room given open_ absent =
      let generation = max (saturating_succ s.next_generation) 1 in
      rw (acquire_validated, open_, absent)
        (record {
          generation = generation;
          answered = refl;
          not_zero = omega arith;
          newer = λ j e found. omega (arith, given j e found);
          entered = get-insert key key _ s.entries ∙ rw (same_self key) refl;
          given = λ j e found. new_given generation j e refl (omega arith) found;
        })
    where
      new_given :
          (generation : ℕ) (j : OwnershipKey) (e : RegistryEntry R)
          → generation ≡ max (saturating_succ s.next_generation) 1
          → s.next_generation ≤ generation
          → get j (
              insert key
                (record {
                  profile_revision = revision;
                  generation = generation;
                  phase = McpUsePhase.acquired;
                  last_error = none;
                })
                s.entries)
            ≡ some e
          → e.generation ≤ generation
      new_given generation j e number later found =
          let entry : RegistryEntry R = record {
            profile_revision = revision;
            generation = generation;
            phase = McpUsePhase.acquired;
            last_error = none;
          } in
          let written : get j (insert key entry s.entries)
              ≡ (if ownership_key_key.same key j then some entry else get j s.entries) =
            get-insert j key entry s.entries in
          elim (Bool-cases (ownership_key_key.same key j)) [
            | inl hit ↦
                let new : entry ≡ e = some-injective _ _ (sym (rw hit at written) ∙ found) in
                omega (arith, ap (λ d. d.generation) new)
            | inr other ↦ omega (arith, given j e (sym (rw other at written) ∙ found))
          ]

module _ {R : Type 0} ⦃k : Key R⦄ ⦃signed : Signed R⦄ where
  -- `acquire` either emits nothing and leaves the state as it found it, or it enters the session under
  -- a generation that is not 0 and larger than those of all entries, as long as fewer than 2^64 - 1
  -- generations were given out.
  pub acquire_lem :
      (context : McpSyncContext) (connection_id : String) (revision : R) (validated : Option String)
      (meanwhile : RegistryState R → RegistryState R) (s : RegistryState R)
      → (meanwhile s).next_generation < u64_max
      → AreGiven (meanwhile s)
      → ((acquire context connection_id revision validated meanwhile s).emit ≡ false)
          × (((acquire context connection_id revision validated meanwhile s).state ≡ s)
              ⊎ ((acquire context connection_id revision validated meanwhile s).state
                  ≡ meanwhile s))
        ⊎ IsAcquired
            (owner_of context connection_id)
            revision
            (meanwhile s)
            (acquire context connection_id revision validated meanwhile s)
  unfolding acquire
  acquire_lem context connection_id revision validated meanwhile s room given =
      let key = owner_of context connection_id in
      elim (Option-cases (validate_connection_id connection_id)) [
        | inr (why, bad) ↦ inl (rw (acquire, bad) (refl, inl refl))
        | inl valid ↦ elim (Bool-cases (signed.is_negative revision)) [
          | inl negative ↦ inl (rw (acquire, valid, negative) (refl, inl refl))
          | inr natural ↦ elim (Option-cases (acquire_existing key revision s)) [
            | inr (response, known) ↦ inl (rw (acquire, valid, natural, known) (refl, inl refl))
            | inl new ↦ elim (Option-cases validated) [
              | inr (why, refused) ↦
                  inl (rw (acquire, valid, natural, new, refused) (refl, inr refl))
              | inl fine ↦
                  rw (acquire, valid, natural, new, fine)
                    (elim (acquire_validated_cases key revision (meanwhile s)) [
                      | inl (quiet, same) ↦ inl (quiet, inr same)
                      | inr (open_, absent) ↦ inr (
                          acquire_validated-IsAcquired key revision (meanwhile s) room given open_
                            absent)
                    ])
            ]
          ]
        ]
      ]
