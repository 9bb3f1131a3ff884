-- ===== src/Grid/Changes/Rewind.antt =====
-- Every operation of the change set, undo and clear among them, keeps the history rewindable.
pub mod Rows
use astesia.Base.{ℕ, ◌<◌, ◌≡◌, refl, sym, subst, Bool, true, inl, inr, List, [], ◌∷◌, arith, All}
use astesia.Base.Order.{nat_ord}
use astesia.Grid.Types.{JsonValue, GridCell, cell_ord}
use astesia.Grid.Drafts
use astesia.Grid.Changes.{
  GridHistory, empty, push, GridChangeSet, default, new_edit, undo_top, undo, stage_cell_value,
  stage_each, stage_cell_values, clear,
}
use astesia.Grid.Changes.Undo.{undo-stage_cell_value, stage_cell_value_cases}
use astesia.Grid.Changes.Batch.{undo-stage_cell_values}
use astesia.Grid.Changes.Invariant.{
  IsInPage, IsWellFormed, CanRewind, CanRewind-IsWellFormed, insert-IsWellFormed,
  remove-IsWellFormed,
}

-- The change set of a page with `rows` and `columns`.
abbrev pub Fits : {V : Type 0} → ℕ → ℕ → GridChangeSet V → Type 0
Fits rows columns s = CanRewind rows columns s.next_draft_id s.history s.staged

abbrev pub CellIn : ℕ → ℕ → GridCell → Type 0
CellIn rows columns c = (c.row < rows) × (c.column < columns)

module _ {V : Type 0} (rows columns : ℕ) where
  pub default-Fits : Fits rows columns (default {V = V})
  default-Fits = (
    record {
      edits_sorted = tt;
      edits_in = tt;
      deleted_sorted = tt;
      deleted_in = tt;
      drafts_below = tt;
      drafts_wide = tt;
    },
    refl,
  )

  pub clear-Fits : (s : GridChangeSet V) → Fits rows columns (clear s)
  unfolding clear
  clear-Fits s = (
    record {
      edits_sorted = tt;
      edits_in = tt;
      deleted_sorted = tt;
      deleted_in = tt;
      drafts_below = tt;
      drafts_wide = tt;
    },
    refl,
  )

  Fits-top :
      (h : GridHistory V) (t s : GridChangeSet V)
      → undo_top h t ≡ (s, true)
      → IsWellFormed rows columns t.next_draft_id t.staged
      → Fits rows columns s
      → CanRewind rows columns t.next_draft_id h t.staged
  unfolding undo_top
  Fits-top empty t s p w f = absurd (cc)
  Fits-top (push e h) t s p w f =
      (w, subst (λ (r : GridChangeSet V × Bool). Fits rows columns r.0) (sym p) f)

  -- What undo takes back to a fitting change set fits, if it is well formed itself.
  pub Fits-of_undo :
      (t s : GridChangeSet V)
      → undo t ≡ (s, true)
      → IsWellFormed rows columns t.next_draft_id t.staged
      → Fits rows columns s
      → Fits rows columns t
  unfolding undo
  Fits-of_undo t s p w f = Fits-top t.history t s p w f

  undo_top-Fits :
      (h : GridHistory V) (s : GridChangeSet V)
      → s.history ≡ h
      → CanRewind rows columns s.next_draft_id h s.staged
      → Fits rows columns (undo_top h s).0
  unfolding undo_top
  undo_top-Fits empty s e f = rw e f
  undo_top-Fits (push x h) s e f = f.1

  pub undo-Fits : (s : GridChangeSet V) → Fits rows columns s → Fits rows columns (undo s).0
  unfolding undo
  undo-Fits s f = undo_top-Fits s.history s refl f

module _ {V : Type 0} ⦃j : JsonValue V⦄ (rows columns : ℕ) where
  stage_cell_value-IsWellFormed :
      (c : GridCell) (original value : V) (s : GridChangeSet V)
      → CellIn rows columns c
      → IsWellFormed rows columns s.next_draft_id s.staged
      → IsWellFormed rows columns
          (stage_cell_value c original value s).0.next_draft_id
          (stage_cell_value c original value s).0.staged
  unfolding stage_cell_value
  stage_cell_value-IsWellFormed c original value s i w =
      let own : IsInPage rows columns (c, new_edit c original value) = record {
        row_in = i.0;
        column_in = i.1;
        own_row = refl;
        own_column = refl;
      } in
      ground (
        arith,
        insert-IsWellFormed c (new_edit c original value) s.staged own w,
        remove-IsWellFormed c s.staged w,
      )

  pub stage_cell_value-Fits :
      (c : GridCell) (original value : V) (s : GridChangeSet V)
      → CellIn rows columns c
      → Fits rows columns s
      → Fits rows columns (stage_cell_value c original value s).0
  stage_cell_value-Fits c original value s i f =
      let w = CanRewind-IsWellFormed rows columns s.next_draft_id s.history s.staged f in
      elim (stage_cell_value_cases c original value s w.edits_sorted) [
        | inl same ↦ subst (λ (r : GridChangeSet V × Bool). Fits rows columns r.0) (sym same) f
        | inr (_, changed, _, _, _) ↦
            Fits-of_undo rows columns _ s
              (undo-stage_cell_value c original value s w.edits_sorted changed)
              (stage_cell_value-IsWellFormed c original value s i w) f
      ]

  stage_each-IsWellFormed :
      (values : List (GridCell × V × V)) (s : GridChangeSet V) (k : ℕ)
      → All (λ v. CellIn rows columns (v.0)) values
      → IsWellFormed rows columns s.next_draft_id s.staged
      → IsWellFormed rows columns
          (stage_each values s k).0.next_draft_id
          (stage_each values s k).0.staged
  unfolding stage_each
  stage_each-IsWellFormed [] s k i w = w
  stage_each-IsWellFormed ((c, original, value) ∷ rest) s k i w =
      stage_each-IsWellFormed rest _ _ i.1 (stage_cell_value-IsWellFormed c original value s i.0 w)

  stage_cell_values-IsWellFormed :
      (values : List (GridCell × V × V)) (s : GridChangeSet V)
      → All (λ v. CellIn rows columns (v.0)) values
      → IsWellFormed rows columns s.next_draft_id s.staged
      → IsWellFormed rows columns
          (stage_cell_values values s).0.next_draft_id
          (stage_cell_values values s).0.staged
  unfolding stage_cell_values
  stage_cell_values-IsWellFormed values s i w = stage_each-IsWellFormed values s 0 i w

  pub stage_cell_values-Fits :
      (values : List (GridCell × V × V)) (s : GridChangeSet V)
      → All (λ v. CellIn rows columns (v.0)) values
      → Fits rows columns s
      → Fits rows columns (stage_cell_values values s).0
  stage_cell_values-Fits values s i f =
      let w = CanRewind-IsWellFormed rows columns s.next_draft_id s.history s.staged f in
      elim (undo-stage_cell_values values s w.edits_sorted) [
        | inl (_, same) ↦ subst (Fits rows columns) (sym same) f
        | inr (_, back) ↦
            Fits-of_undo rows columns _ s back (stage_cell_values-IsWellFormed values s i w) f
      ]
