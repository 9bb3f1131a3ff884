-- ===== src/Grid/Session/Invariant.antt =====
-- What holds of a session between two calls: its changes, its undo history and its selection belong
-- to the page that it shows.
use astesia.Base.{ℕ, ◌≡◌, refl, false, Option, none, some, arith, length}
use astesia.Base.Order.{nat_ord}
use astesia.Grid.Types.{GridPage}
use astesia.Grid.Changes
use astesia.Grid.Changes.{GridChangeSet, GridHistory, empty, push, nothing_staged}
use astesia.Grid.Changes.Rewind.{Fits}
use astesia.Grid.Plan.Laws.{IsRectangular}
use astesia.Grid.Selection.{GridSelection}
use astesia.Grid.Selection.Laws.{IsSelectionOf}
use astesia.Grid.Session.{GridSession, page_of}

module _ {V : Type 0} where
  -- Nothing is staged and there is nothing to undo.
  pub record IsClean (c : GridChangeSet V) : Type 0 where
    pub none_staged : c.staged ≡ nothing_staged
    pub no_history : c.history ≡ empty

  abbrev pub BelongsTo : Option (GridPage V) → GridChangeSet V → GridSelection → Type 0
  BelongsTo none c s = IsClean c × IsSelectionOf 0 s
  BelongsTo (some p) c s =
      IsRectangular p × Fits (length p.rows) (length p.columns) c × IsSelectionOf (length p.rows) s

  abbrev pub IsConsistent : GridSession V → Type 0
  IsConsistent s = BelongsTo (page_of s.state) s.changes s.selection

  -- A clean change set fits every page.
  pub IsClean-Fits : (rows columns : ℕ) (c : GridChangeSet V) → IsClean c → Fits rows columns c
  IsClean-Fits rows columns c h =
      rw (h.no_history, h.none_staged)
        (
          record {
            edits_sorted = tt;
            edits_in = tt;
            deleted_sorted = tt;
            deleted_in = tt;
            drafts_below = tt;
            drafts_wide = tt;
          },
          refl,
        )

  Fits-IsClean :
      (rows columns : ℕ) (c : GridChangeSet V) → c.history ≡ empty → Fits rows columns c → IsClean c
  Fits-IsClean rows columns c e f = record { none_staged = (rw e at f).1; no_history = e }

  no_history-empty : (c : GridChangeSet V) → Changes.has_history c ≡ false → c.history ≡ empty
  unfolding Changes.has_history
  no_history-empty c h = ground arith

  -- Without an undo history a consistent session is clean.
  pub BelongsTo-IsClean :
      (p : Option (GridPage V)) (c : GridChangeSet V) (s : GridSelection)
      → Changes.has_history c ≡ false
      → BelongsTo p c s
      → IsClean c
  BelongsTo-IsClean none c s e b = b.0
  BelongsTo-IsClean (some p) c s e b =
      Fits-IsClean (length p.rows) (length p.columns) c (no_history-empty c e) b.1
