-- ===== src/Grid/Changes/Undo.antt =====
-- Undo is the exact inverse of every staging operation that changes something.
use astesia.Base.{
  ℕ, ◌≡◌, refl, true, false, ◌⊎◌, inl, inr, none, some, List, [], arith, get_elem?, ok, Bool-cases,
  Option-cases, checked_succ, replicate,
}
use astesia.Base.Order.{nat_ord}
use astesia.Base.OrdMap.{get, insert, remove, IsSorted}
use astesia.Base.OrdMap.Ext.{
  remove-insert, insert-insert, insert-remove, extend-keep, remove_absent,
}
use astesia.Base.OrdMap.Sets.{insert_all, remove_all-insert_all, IsIncreasing, AreNew}
use astesia.Grid.Types.{JsonValue, GridCell, GridCellEdit, cell_ord}
use astesia.Grid.Drafts
use astesia.Grid.Drafts.Laws.{
  Below, Below-Without, without-append, write-write, insert_at-remove_at, position-get_elem?,
}
use astesia.Grid.Changes.{
  GridHistoryEntry, cell, push, GridChangeSet, Edits, restore_cell, stage_cell_value,
  set_draft_value, unset_draft_value, insert_draft, remove_draft, delete_rows, undo_entry, undo,
  current_value, new_edit, in_rows,
}

module _ {V : Type 0} where
  -- A cell's former entry is put back, whether the step wrote the cell or cleared it.
  restore-insert :
      (c : GridCell) (edit : GridCellEdit V) (edits : Edits V)
      → IsSorted edits
      → restore_cell c (get c edits) (insert c edit edits) ≡ edits
  unfolding restore_cell
  restore-insert c edit edits s = elim (Option-cases (get c edits)) [
    | inl e ↦ rw (e, restore_cell) (remove-insert c edit edits s e)
    | inr (old, e) ↦ rw (e, restore_cell) (insert-insert c old edit edits s e)
  ]

  restore-remove :
      (c : GridCell) (edits : Edits V)
      → IsSorted edits
      → restore_cell c (get c edits) (remove c edits) ≡ edits
  unfolding restore_cell
  restore-remove c edits s = elim (Option-cases (get c edits)) [
    | inl e ↦ rw (e, restore_cell, remove_absent c edits s e) (remove_absent c edits s e)
    | inr (old, e) ↦ rw (e, restore_cell) (insert-remove c old edits s e)
  ]

module _ {V : Type 0} ⦃j : JsonValue V⦄ where
  -- One staged cell: either nothing changed, or one entry was pushed that takes the change back.
  pub stage_cell_value_cases :
      (c : GridCell) (original value : V) (s : GridChangeSet V)
      → IsSorted s.edits
      → (stage_cell_value c original value s ≡ (s, false))
        ⊎ ((e : GridHistoryEntry V) × ((stage_cell_value c original value s).1 ≡ true)
            × ((stage_cell_value c original value s).0.history ≡ push e s.history)
            × (undo_entry e (stage_cell_value c original value s).0.staged ≡ s.staged)
            × ((stage_cell_value c original value s).0.next_draft_id ≡ s.next_draft_id))
  unfolding stage_cell_value undo_entry
  stage_cell_value_cases c original value s h =
      elim (Bool-cases (j.eq (current_value (get c s.edits) original) value)) [
        | inl same ↦ inl (rw same refl)
        | inr differs ↦ inr (
          cell c (get c s.edits),
          ground arith,
          ground arith,
          ground (
            arith,
            restore-insert c (new_edit c original value) s.edits h,
            restore-remove c s.edits h,
          ),
          ground arith,
        )
      ]

  -- Where the edits are sorted and staging a value changes the cell, an undo after it gives back the
  -- change set as it was, every staged change and the history.
  pub undo-stage_cell_value :
      (c : GridCell) (original value : V) (s : GridChangeSet V)
      → IsSorted s.edits
      → (stage_cell_value c original value s).1 ≡ true
      → undo (stage_cell_value c original value s).0 ≡ (s, true)
  unfolding undo
  undo-stage_cell_value c original value s h changed =
      ground (arith, stage_cell_value_cases c original value s h)

  -- Where writing a value changes a draft's cell, an undo after it gives back the change set as it was.
  pub undo-set_draft_value :
      (draft_id column : ℕ) (value : V) (s t : GridChangeSet V)
      → set_draft_value draft_id column value s ≡ ok (t, true)
      → undo t ≡ (s, true)
  unfolding undo set_draft_value undo_entry
  undo-set_draft_value draft_id column value s t h =
      elim (Option-cases (Drafts.find draft_id s.drafts)) [
        | inl e ↦ absurd (ground arith)
        | inr (d, e) ↦ elim (Option-cases (get_elem? d.values column)) [
          | inl f ↦ absurd (ground arith)
          | inr (old, f) ↦
              ground (arith, write-write draft_id column (some value) old d s.drafts e f)
        ]
      ]

module _ {V : Type 0} where
  -- Where clearing a draft's cell changes it, an undo after it gives back the change set as it was.
  pub undo-unset_draft_value :
      (draft_id column : ℕ) (s t : GridChangeSet V)
      → unset_draft_value draft_id column s ≡ ok (t, true)
      → undo t ≡ (s, true)
  unfolding undo unset_draft_value undo_entry
  undo-unset_draft_value draft_id column s t h =
      elim (Option-cases (Drafts.find draft_id s.drafts)) [
        | inl e ↦ absurd (ground arith)
        | inr (d, e) ↦ elim (Option-cases (get_elem? d.values column)) [
          | inl f ↦ absurd (ground arith)
          | inr (old, f) ↦ ground (arith, write-write draft_id column none old d s.drafts e f)
        ]
      ]

  -- Where no draft has an id above `next_draft_id` and a draft is inserted, an undo after it gives
  -- back the change set, but for the id, which is not given out again.
  pub undo-insert_draft :
      (columns : ℕ) (s t : GridChangeSet V) (id : ℕ)
      → Below s.next_draft_id s.drafts
      → insert_draft columns s ≡ ok (t, id)
      → undo t ≡ (record s { next_draft_id = id }, true)
  unfolding undo insert_draft undo_entry checked_succ
  undo-insert_draft columns s t id b h = ground (
    arith,
    without-append (record { id = id; values = replicate columns none }) s.drafts,
    Below-Without s.next_draft_id id s.drafts,
  )

  -- Where a draft is removed, an undo after it puts the draft back at its place, and gives back the
  -- change set as it was.
  pub undo-remove_draft :
      (draft_id : ℕ) (s t : GridChangeSet V) → remove_draft draft_id s ≡ ok t → undo t ≡ (s, true)
  unfolding undo remove_draft undo_entry
  undo-remove_draft draft_id s t h = elim (Option-cases (Drafts.position draft_id s.drafts)) [
    | inl e ↦ absurd (ground arith)
    | inr (i, e) ↦
        let (d, f) = position-get_elem? draft_id s.drafts i e in
        ground (arith, insert_at-remove_at i d s.drafts f)
  ]

  -- Where the edits and the deleted rows are sorted, and the rows to delete are increasing and not yet
  -- deleted, an undo after the deletion gives back the change set as it was: the rows are there again
  -- with the edits that they had.
  pub undo-delete_rows :
      (rows : List ℕ) (s : GridChangeSet V)
      → IsSorted s.edits
      → IsSorted s.deleted_rows
      → IsIncreasing rows
      → AreNew s.deleted_rows rows
      → undo (delete_rows rows s) ≡ (s, true)
  unfolding undo delete_rows undo_entry
  undo-delete_rows rows s he hd i n = rw (
    extend-keep (in_rows (insert_all [] rows)) s.edits he,
    remove_all-insert_all rows s.deleted_rows hd i n,
  )
