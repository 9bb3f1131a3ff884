-- ===== src/Runtime/Stale.antt =====
-- What reconciling with the profiles' revisions leaves connected.
use astesia.Base.{
  ◌≡◌, refl, sym, ap, ◌∙◌, Bool, false, not, ◌||◌, Option, none, some, List, [], ◌∷◌, arith, inl,
  inr, if◌then◌else◌, Option-cases, Bool-cases,
}
use astesia.Base.Table.{Key, Table, get, IsTable, get-remove}
use astesia.Runtime.{
  ConnectedDriver, RuntimeState, detach, detach_each, detach_stale, stale_ids, is_revision,
}

module _ {C : Type 0} ⦃k : Key C⦄ where
  listed : C → List C → Bool
  listed id [] = false
  listed id (i ∷ is) = k.same i id || listed id is

module _ {C A R : Type 0} ⦃k : Key C⦄ ⦃same_revision : Key R⦄ where
  get-detach :
      (j id : C) (s : RuntimeState C A R)
      → get j (detach id s).0.drivers ≡ (if k.same id j then none else get j s.drivers)
  unfolding detach
  get-detach j id s = elim (Option-cases (get id s.drivers)) [
    | inl absent ↦ ground (arith, k.same_iff id j)
    | inr (d, found) ↦ ground (arith, get-remove j id s.drivers)
  ]

  get-detach_each :
      (j : C) (ids : List C) (s : RuntimeState C A R)
      → get j (detach_each ids s).0.drivers ≡ (if listed j ids then none else get j s.drivers)
  unfolding detach_each listed
  get-detach_each j [] s = refl
  get-detach_each j (id ∷ ids) s =
      get-detach_each j ids (detach id s).0 ∙ ground (arith, get-detach j id s)

  -- The driver where its revision is the profile's, and nothing where it is not or there is no profile.
  abbrev pub current_of :
      Table C R → C → Option (ConnectedDriver A R) → Option (ConnectedDriver A R)
  current_of revisions id none = none
  current_of revisions id (some d) =
      if is_revision (get id revisions) d.profile_revision then some d else none

  abbrev is_stale : Table C R → C → Option (ConnectedDriver A R) → Bool
  is_stale revisions id none = false
  is_stale revisions id (some d) = not (is_revision (get id revisions) d.profile_revision)

  listed-stale_ids :
      (revisions : Table C R) (j : C) (m : Table C (ConnectedDriver A R))
      → IsTable m
      → listed j (stale_ids revisions m) ≡ is_stale revisions j (get j m)
  unfolding stale_ids listed get
  listed-stale_ids revisions j [] t = refl
  listed-stale_ids revisions j ((id, d) ∷ m) t = elim (Bool-cases (k.same id j)) [
    | inl hit ↦
        let absent : get j m ≡ none = ap (λ i. get i m) (sym ((k.same_iff id j).0 hit)) ∙ t.0 in
        let rest = listed-stale_ids revisions j m t.1 ∙ ap (is_stale revisions j) absent in
        let same =
          ap (λ i. is_revision (get i revisions) d.profile_revision) ((k.same_iff id j).0 hit) in
        elim (Bool-cases (is_revision (get id revisions) d.profile_revision)) [
          | inl current ↦ ground arith
          | inr stale ↦ ground arith
        ]
    | inr other ↦
        let rest = listed-stale_ids revisions j m t.1 in
        elim (Bool-cases (is_revision (get id revisions) d.profile_revision)) [
          | inl current ↦ rw (current, other) rest
          | inr stale ↦ rw (stale, other) rest
        ]
  ]

  -- In a table where each id stands once, `detach_stale` leaves each connection whose driver was opened
  -- with the current revision of its profile, and no other.
  pub detach_stale_lem :
      (revisions : Table C R) (s : RuntimeState C A R) (id : C)
      → IsTable s.drivers
      → get id (detach_stale revisions s).0.drivers ≡ current_of revisions id (get id s.drivers)
  unfolding detach_stale
  detach_stale_lem revisions s id t =
      let each = get-detach_each id (stale_ids revisions s.drivers) s in
      let which = listed-stale_ids revisions id s.drivers t in
      elim (Option-cases (get id s.drivers)) [
        | inl absent ↦ rw absent (ground arith)
        | inr (d, found) ↦ elim (Bool-cases (is_revision (get id revisions) d.profile_revision)) [
          | inl current ↦ ground arith
          | inr stale ↦ ground arith
        ]
      ]
