-- ===== src/Grid/Session/Saving.antt =====
-- What a consistent session can rely on when it saves and when it undoes.
use astesia.Base.{
  ℕ, zero, suc, ◌+◌, ◌≡◌, refl, ap, ◌∙◌, false, Bool-cases, inl, inr, ◌⊎◌, Option, none, some,
  String, ok, err, length, All, arith,
}
use astesia.Grid.Types.{
  JsonValue, GridPage, GridSavePlan, QueryTarget, TableRef, missing_row_identity,
}
use astesia.Grid.Changes
use astesia.Grid.Changes.{
  GridChangeSet, GridHistory, StagedChanges, empty, push, nothing_staged, undo_entry,
}
use astesia.Grid.Changes.Invariant.{CanRewind, CanRewind-IsWellFormed}
use astesia.Grid.Plan.{edits_of}
use astesia.Grid.Plan.Laws.{HasKey, IsKeyless, IsTouched, save_plan_total}
use astesia.Grid.Selection.{GridSelection}
use astesia.Grid.Session.{GridSession, page, page_of, new}
use astesia.Grid.Session.Reach.{Reach, Reach-IsConsistent}
use astesia.Grid.Session.Guards.{require_editable}
use astesia.Grid.Session.Guards.Laws.{require_editable_page}
use astesia.Grid.Session.Save.{save_plan, undo, is_saving}
use astesia.Grid.Session.Invariant.{IsClean, IsClean-Fits, IsConsistent, BelongsTo}

rewind : {V : Type 0} → ℕ → GridChangeSet V → GridChangeSet V
rewind zero c = c
rewind (suc n) c = rewind n (Changes.undo c).0

-- Undo, as often as `n`.
abbrev pub undo_times : {V : Type 0} → ℕ → GridSession V → GridSession V
undo_times zero s = s
undo_times (suc n) s = undo_times n (undo s).0

module _ {V : Type 0} where
  rewound :
      (rows columns n : ℕ) (h : GridHistory V) (st : StagedChanges V)
      → CanRewind rows columns n h st
      → IsClean (rewind (Changes.height h) (record { next_draft_id = n; staged = st; history = h }))
  unfolding rewind Changes.height Changes.undo
  rewound rows columns n empty st f = record { none_staged = f.1; no_history = refl }
  rewound rows columns n (push x h) st f = rewound rows columns n h (undo_entry x st) f.1

  rewound_shown :
      (page : Option (GridPage V)) (c : GridChangeSet V) (s : GridSelection)
      → BelongsTo page c s
      → IsClean (rewind (Changes.height c.history) c)
  rewound_shown none c s b = rewound 0 0 c.next_draft_id c.history c.staged (IsClean-Fits 0 0 c b.0)
  rewound_shown (some p) c s b = rewound _ _ c.next_draft_id c.history c.staged b.1

  undo_calm :
      (s : GridSession V)
      → is_saving s.state ≡ false
      → (undo s).0 ≡ record s { changes = (Changes.undo s.changes).0 }
  unfolding undo
  undo_calm s calm = ground arith

  undo_times_shape :
      (n : ℕ) (s : GridSession V)
      → is_saving s.state ≡ false
      → undo_times n s ≡ record s { changes = rewind n s.changes }
  unfolding rewind
  undo_times_shape zero s calm = refl
  undo_times_shape (suc n) s calm =
      ap (undo_times n) (undo_calm s calm)
      ∙ undo_times_shape n (record s { changes = (Changes.undo s.changes).0 }) calm

  undo_clean : (s : GridSession V) → IsClean s.changes → undo s ≡ (s, false)
  unfolding undo Changes.undo
  undo_clean s clean = elim (Bool-cases (is_saving s.state)) [
    | inl busy ↦ ground arith
    | inr calm ↦ let empty_history = clean.no_history in ground arith
  ]

module _ {V : Type 0} ⦃j : JsonValue V⦄ where
  -- After any sequence of calls on a new session, where it is not saving, undo, as often as the
  -- history is high, takes back every staged change: no edit, no draft and no deleted row is left, and
  -- no history. The rest of the session is as it was, and one more undo takes nothing back. This is where
  -- the calls leave a page, or take a new one, only without an undo history, and where each page that
  -- arrives is rectangular.
  pub undo_all :
      (target : QueryTarget) (table : TableRef) (size : ℕ) (s t : GridSession V)
      → new target table size ≡ ok s
      → Reach s t
      → is_saving t.state ≡ false
      → let u = undo_times (Changes.height t.changes.history) t in
        IsClean u.changes × (u ≡ record t { changes = u.changes }) × (undo u ≡ (u, false))
  undo_all target table size s t h r calm =
      let n = Changes.height t.changes.history in
      let shape = undo_times_shape n t calm in
      let clean =
        rewound_shown (page_of t.state) t.changes t.selection
          (Reach-IsConsistent target table size s t h r) in
      rw shape (clean, refl, undo_clean (record t { changes = rewind n t.changes }) clean)

  -- A consistent session that is editable shows a page. Either every row of it that has an edit or is
  -- deleted has a primary key, and the session makes a plan, with an update for each edit and an
  -- insert for each draft, which counts them and the deleted rows; or it returns the error that names
  -- a row that has an edit or is deleted and whose primary key is null. No index is out of range.
  pub save_plan-IsConsistent :
      (s : GridSession V) (key : ℕ × String)
      → IsConsistent s
      → require_editable s ≡ ok key
      → (p : GridPage V) × (page s ≡ some p)
        × (((plan : GridSavePlan V) × (save_plan s ≡ ok plan)
              × (length plan.updates ≡ length s.changes.edits)
              × (length plan.inserts ≡ length s.changes.drafts)
              × (plan.operation_count
                  ≡ length s.changes.edits
                    + length s.changes.drafts
                    + length s.changes.deleted_rows)
              × All (λ e. HasKey p key.0 e.row) (edits_of s.changes.edits)
              × All (λ e. HasKey p key.0 e.0) s.changes.deleted_rows)
            ⊎ ((row : ℕ) × (save_plan s ≡ err (missing_row_identity row))
                × IsKeyless p key.0 row
                × IsTouched s.changes row))
  unfolding save_plan page
  save_plan-IsConsistent s key v h =
      let (p, shown, key_in) = require_editable_page s h in
      let b : BelongsTo (some p) s.changes s.selection = rw shown at v in
      let w = CanRewind-IsWellFormed _ _ _ s.changes.history s.changes.staged b.1 in
      let total =
        save_plan_total p key.0 s.target s.table key.1 s.changes s.changes.next_draft_id b.0 key_in
          w in
      (p, shown, rw (h, save_plan) (rw shown total))
