-- ===== src/Grid/Changes/Invariant.antt =====
-- What holds of the staged changes of one page, now and after every undo that is still possible.
use astesia.Base.{ℕ, ◌≤◌, ◌<◌, ◌≡◌, sym, subst, Option, All}
use astesia.Base.Order.{nat_ord}
use astesia.Base.OrdMap.{IsSorted, insert, remove}
use astesia.Base.OrdMap.Lookup.{insert-IsSorted, remove-IsSorted}
use astesia.Base.OrdMap.Entries.{All-insert, All-remove}
use astesia.Grid.Types.{GridCell, GridCellEdit, cell_ord}
use astesia.Grid.Drafts
use astesia.Grid.Drafts.Laws.{Below, Below-mono, HaveWidth, Below-write, HaveWidth-write}
use astesia.Grid.Changes.{
  GridHistory, GridHistoryEntry, empty, push, StagedChanges, nothing_staged, undo_entry,
}

-- An edit is kept under its own cell, and the cell lies in a page of `rows` and `columns`.
pub record IsInPage {V : Type 0} (rows columns : ℕ) (e : GridCell × GridCellEdit V) : Type 0 where
  pub row_in : e.0.row < rows
  pub column_in : e.0.column < columns
  pub own_row : e.1.row ≡ e.0.row
  pub own_column : e.1.column ≡ e.0.column

-- Edits and deletions are ordered and lie in the page, drafts have the page's width, and their ids
-- have been given out.
pub record IsWellFormed {V : Type 0} (rows columns last_id : ℕ) (s : StagedChanges V) : Type 0 where
  pub edits_sorted : IsSorted s.edits
  pub edits_in : All (IsInPage rows columns) s.edits
  pub deleted_sorted : IsSorted s.deleted_rows
  pub deleted_in : All (λ e. e.0 < rows) s.deleted_rows
  pub drafts_below : Below last_id s.drafts
  pub drafts_wide : HaveWidth columns s.drafts

module _ {V : Type 0} (rows columns : ℕ) where
  -- The staged changes are well formed, so they stay after each undo, and nothing is staged when
  -- the history has been undone to its end.
  abbrev pub CanRewind : ℕ → GridHistory V → StagedChanges V → Type 0
  CanRewind n empty s = IsWellFormed rows columns n s × (s ≡ nothing_staged)
  CanRewind n (push e h) s = IsWellFormed rows columns n s × CanRewind n h (undo_entry e s)

  pub CanRewind-IsWellFormed :
      (n : ℕ) (h : GridHistory V) (s : StagedChanges V)
      → CanRewind n h s
      → IsWellFormed rows columns n s
  CanRewind-IsWellFormed n empty s c = c.0
  CanRewind-IsWellFormed n (push e h) s c = c.0

  pub IsWellFormed-mono :
      (m n : ℕ) (s : StagedChanges V)
      → m ≤ n
      → IsWellFormed rows columns m s
      → IsWellFormed rows columns n s
  IsWellFormed-mono m n s h w = record {
    edits_sorted = w.edits_sorted;
    edits_in = w.edits_in;
    deleted_sorted = w.deleted_sorted;
    deleted_in = w.deleted_in;
    drafts_below = Below-mono m n s.drafts h w.drafts_below;
    drafts_wide = w.drafts_wide;
  }

  pub CanRewind-mono :
      (m n : ℕ) (h : GridHistory V) (s : StagedChanges V)
      → m ≤ n
      → CanRewind m h s
      → CanRewind n h s
  CanRewind-mono m n empty s le c = (IsWellFormed-mono m n s le c.0, c.1)
  CanRewind-mono m n (push e h) s le c =
      (IsWellFormed-mono m n s le c.0, CanRewind-mono m n h (undo_entry e s) le c.1)

  -- A step that pushes the entry which takes it back.
  pub CanRewind-push :
      (n : ℕ) (e : GridHistoryEntry V) (h : GridHistory V) (s t : StagedChanges V)
      → IsWellFormed rows columns n t
      → undo_entry e t ≡ s
      → CanRewind n h s
      → CanRewind n (push e h) t
  CanRewind-push n e h s t w back c = (w, subst (CanRewind n h) (sym back) c)

module _ {V : Type 0} {rows columns n : ℕ} where
  pub insert-IsWellFormed :
      (c : GridCell) (edit : GridCellEdit V) (s : StagedChanges V)
      → IsInPage rows columns (c, edit)
      → IsWellFormed rows columns n s
      → IsWellFormed rows columns n (record s { edits = insert c edit s.edits })
  insert-IsWellFormed c edit s p w = record {
    edits_sorted = insert-IsSorted c edit s.edits w.edits_sorted;
    edits_in = All-insert (IsInPage rows columns) c edit s.edits p w.edits_in;
    deleted_sorted = w.deleted_sorted;
    deleted_in = w.deleted_in;
    drafts_below = w.drafts_below;
    drafts_wide = w.drafts_wide;
  }

  pub remove-IsWellFormed :
      (c : GridCell) (s : StagedChanges V)
      → IsWellFormed rows columns n s
      → IsWellFormed rows columns n (record s { edits = remove c s.edits })
  remove-IsWellFormed c s w = record {
    edits_sorted = remove-IsSorted c s.edits w.edits_sorted;
    edits_in = All-remove (IsInPage rows columns) c s.edits w.edits_in;
    deleted_sorted = w.deleted_sorted;
    deleted_in = w.deleted_in;
    drafts_below = w.drafts_below;
    drafts_wide = w.drafts_wide;
  }

  pub write-IsWellFormed :
      (id column : ℕ) (v : Option V) (s : StagedChanges V)
      → IsWellFormed rows columns n s
      → IsWellFormed rows columns n (record s { drafts = Drafts.write id column v s.drafts })
  write-IsWellFormed id column v s w = record {
    edits_sorted = w.edits_sorted;
    edits_in = w.edits_in;
    deleted_sorted = w.deleted_sorted;
    deleted_in = w.deleted_in;
    drafts_below = Below-write n id column v s.drafts w.drafts_below;
    drafts_wide = HaveWidth-write columns id column v s.drafts w.drafts_wide;
  }
