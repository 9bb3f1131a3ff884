-- ===== src/Grid/Changes/Rewind/Rows.antt =====
-- The operations on drafts and on rows keep the history rewindable.
use astesia.Base.{
  ℕ, suc, ◌≤◌, ◌<◌, ◌≡◌, sym, subst, Bool, true, false, ◌⊎◌, inl, inr, none, some, List, [], ◌∷◌,
  ◌++◌, arith, All, replicate, length-replicate, length, get_elem?, ok, checked_succ, Option-cases,
}
use astesia.Base.Order.{nat_ord}
use astesia.Base.OrdMap.Ext.{keep-IsSorted}
use astesia.Base.OrdMap.Sets.{insert_all-IsSorted, IsIncreasing, AreNew}
use astesia.Base.OrdMap.Entries.{All-keep, All-insert_all}
use astesia.Grid.Types.{JsonValue, cell_ord}
use astesia.Grid.Drafts
use astesia.Grid.Drafts.Laws.{Below-mono, All-append, All-remove_at}
use astesia.Grid.Changes.{
  GridChangeSet, set_draft_value, unset_draft_value, insert_draft, remove_draft, delete_rows,
}
use astesia.Grid.Changes.Undo.{
  undo-set_draft_value, undo-unset_draft_value, undo-insert_draft, undo-remove_draft,
  undo-delete_rows,
}
use astesia.Grid.Changes.Invariant.{
  IsInPage, IsWellFormed, CanRewind-IsWellFormed, CanRewind-mono, write-IsWellFormed,
}
use astesia.Grid.Changes.Rewind.{Fits, Fits-of_undo}

module _ {V : Type 0} ⦃j : JsonValue V⦄ (rows columns : ℕ) where
  -- A draft's cell is written, or nothing changes.
  set_draft_value_cases :
      (draft_id column : ℕ) (value : V) (s t : GridChangeSet V) (changed : Bool)
      → set_draft_value draft_id column value s ≡ ok (t, changed)
      → ((changed ≡ false) × (t ≡ s))
        ⊎ ((changed ≡ true)
            × (t.next_draft_id ≡ s.next_draft_id)
            × (t.staged
                ≡ record s.staged { drafts = Drafts.write draft_id column (some value) s.drafts }))
  unfolding set_draft_value
  set_draft_value_cases draft_id column value s t changed h = ground arith

  pub set_draft_value-Fits :
      (draft_id column : ℕ) (value : V) (s t : GridChangeSet V) (changed : Bool)
      → set_draft_value draft_id column value s ≡ ok (t, changed)
      → Fits rows columns s
      → Fits rows columns t
  set_draft_value-Fits draft_id column value s t changed h f =
      let w = CanRewind-IsWellFormed rows columns s.next_draft_id s.history s.staged f in
      elim (set_draft_value_cases draft_id column value s t changed h) [
        | inl (_, same) ↦ subst (Fits rows columns) (sym same) f
        | inr (wrote, ids, staged) ↦
            Fits-of_undo rows columns t s
              (undo-set_draft_value draft_id column value s t (rw (← wrote) h))
              (rw (ids, staged) (write-IsWellFormed draft_id column (some value) s.staged w)) f
      ]

module _ {V : Type 0} (rows columns : ℕ) where
  unset_draft_value_cases :
      (draft_id column : ℕ) (s t : GridChangeSet V) (changed : Bool)
      → unset_draft_value draft_id column s ≡ ok (t, changed)
      → ((changed ≡ false) × (t ≡ s))
        ⊎ ((changed ≡ true)
            × (t.next_draft_id ≡ s.next_draft_id)
            × (t.staged ≡ record s.staged { drafts = Drafts.write draft_id column none s.drafts }))
  unfolding unset_draft_value
  unset_draft_value_cases draft_id column s t changed h = ground arith

  pub unset_draft_value-Fits :
      (draft_id column : ℕ) (s t : GridChangeSet V) (changed : Bool)
      → unset_draft_value draft_id column s ≡ ok (t, changed)
      → Fits rows columns s
      → Fits rows columns t
  unset_draft_value-Fits draft_id column s t changed h f =
      let w = CanRewind-IsWellFormed rows columns s.next_draft_id s.history s.staged f in
      elim (unset_draft_value_cases draft_id column s t changed h) [
        | inl (_, same) ↦ subst (Fits rows columns) (sym same) f
        | inr (wrote, ids, staged) ↦
            Fits-of_undo rows columns t s
              (undo-unset_draft_value draft_id column s t (rw (← wrote) h))
              (rw (ids, staged) (write-IsWellFormed draft_id column none s.staged w)) f
      ]

  insert_draft_shape :
      (s t : GridChangeSet V) (id : ℕ)
      → insert_draft columns s ≡ ok (t, id)
      → (id ≡ suc s.next_draft_id)
        × (t.next_draft_id ≡ suc s.next_draft_id)
        × (t.staged ≡ record s.staged {
          drafts = s.drafts ++ record { id = id; values = replicate columns none } ∷ [];
        })
  unfolding insert_draft checked_succ
  insert_draft_shape s t id h = ground arith

  insert_draft-IsWellFormed :
      (s t : GridChangeSet V) (id : ℕ)
      → insert_draft columns s ≡ ok (t, id)
      → IsWellFormed rows columns s.next_draft_id s.staged
      → IsWellFormed rows columns t.next_draft_id t.staged × (id ≡ suc s.next_draft_id)
  insert_draft-IsWellFormed s t id h w =
      let (given, last, staged) = insert_draft_shape s t id h in
      (
        rw (last, staged)
            (record {
              edits_sorted = w.edits_sorted;
              edits_in = w.edits_in;
              deleted_sorted = w.deleted_sorted;
              deleted_in = w.deleted_in;
              drafts_below =
                  All-append (λ d. d.id ≤ suc s.next_draft_id) s.drafts _
                    (Below-mono s.next_draft_id _ s.drafts (omega arith) w.drafts_below)
                    (omega arith);
              drafts_wide =
                  All-append (λ d. length d.values ≡ columns) s.drafts _ w.drafts_wide
                    (length-replicate columns none);
            }),
        given,
      )

  pub insert_draft-Fits :
      (s t : GridChangeSet V) (id : ℕ)
      → insert_draft columns s ≡ ok (t, id)
      → Fits rows columns s
      → Fits rows columns t
  insert_draft-Fits s t id h f =
      let w = CanRewind-IsWellFormed rows columns s.next_draft_id s.history s.staged f in
      let (u, next) = insert_draft-IsWellFormed s t id h w in
      Fits-of_undo rows columns t (record s { next_draft_id = id })
        (undo-insert_draft columns s t id w.drafts_below h) u
        (CanRewind-mono rows columns s.next_draft_id id s.history s.staged (omega arith) f)

  remove_draft_shape :
      (draft_id : ℕ) (s t : GridChangeSet V)
      → remove_draft draft_id s ≡ ok t
      → (i : ℕ) × (t.next_draft_id ≡ s.next_draft_id)
        × (t.staged ≡ record s.staged { drafts = Drafts.remove_at i s.drafts })
  unfolding remove_draft
  remove_draft_shape draft_id s t h = elim (Option-cases (Drafts.position draft_id s.drafts)) [
    | inl e ↦ absurd (ground arith)
    | inr (i, e) ↦ elim (Option-cases (get_elem? s.drafts i)) [
      | inl f ↦ absurd (ground arith)
      | inr (d, f) ↦ (i, ground arith, ground arith)
    ]
  ]

  remove_draft-IsWellFormed :
      (draft_id : ℕ) (s t : GridChangeSet V)
      → remove_draft draft_id s ≡ ok t
      → IsWellFormed rows columns s.next_draft_id s.staged
      → IsWellFormed rows columns t.next_draft_id t.staged
  remove_draft-IsWellFormed draft_id s t h w =
      let (i, ids, staged) = remove_draft_shape draft_id s t h in
      rw (ids, staged)
        (record {
          edits_sorted = w.edits_sorted;
          edits_in = w.edits_in;
          deleted_sorted = w.deleted_sorted;
          deleted_in = w.deleted_in;
          drafts_below = All-remove_at (λ d. d.id ≤ s.next_draft_id) i s.drafts w.drafts_below;
          drafts_wide = All-remove_at (λ d. length d.values ≡ columns) i s.drafts w.drafts_wide;
        })

  pub remove_draft-Fits :
      (draft_id : ℕ) (s t : GridChangeSet V)
      → remove_draft draft_id s ≡ ok t
      → Fits rows columns s
      → Fits rows columns t
  remove_draft-Fits draft_id s t h f =
      let w = CanRewind-IsWellFormed rows columns s.next_draft_id s.history s.staged f in
      Fits-of_undo rows columns t s (undo-remove_draft draft_id s t h)
        (remove_draft-IsWellFormed draft_id s t h w) f

  delete_rows-IsWellFormed :
      (which : List ℕ) (s : GridChangeSet V)
      → All (λ r. r < rows) which
      → IsWellFormed rows columns s.next_draft_id s.staged
      → IsWellFormed rows columns (delete_rows which s).next_draft_id (delete_rows which s).staged
  unfolding delete_rows
  delete_rows-IsWellFormed which s i w = record {
    edits_sorted = keep-IsSorted _ s.edits w.edits_sorted;
    edits_in = All-keep (IsInPage rows columns) _ s.edits w.edits_in;
    deleted_sorted = insert_all-IsSorted s.deleted_rows which w.deleted_sorted;
    deleted_in = All-insert_all (λ r. r < rows) s.deleted_rows which w.deleted_in i;
    drafts_below = w.drafts_below;
    drafts_wide = w.drafts_wide;
  }

  pub delete_rows-Fits :
      (which : List ℕ) (s : GridChangeSet V)
      → All (λ r. r < rows) which
      → IsIncreasing which
      → AreNew s.deleted_rows which
      → Fits rows columns s
      → Fits rows columns (delete_rows which s)
  delete_rows-Fits which s i up fresh f =
      let w = CanRewind-IsWellFormed rows columns s.next_draft_id s.history s.staged f in
      Fits-of_undo rows columns _ s
        (undo-delete_rows which s w.edits_sorted w.deleted_sorted up fresh)
        (delete_rows-IsWellFormed which s i w) f
