-- ===== src/Grid/Changes.antt =====
-- application/grid_session/changes.rs: the staged changes of a grid and their undo history.
-- A method returns the new change set, with its result beside it; where the source returns `Err`
-- it has changed nothing. `history` is a stack, its newest entry outermost.
pub mod History
pub mod Undo
pub mod Batch
pub mod Invariant
pub mod Rewind
use astesia.Base.{
  ℕ, suc, ◌+◌, ◌-◌, min, Bool, true, false, ◌||◌, not, Option, none, some, List, [], ◌∷◌, ◌++◌,
  length, get_elem?, replicate, keep, ok, ◌>>=◌, ok_or, expect, checked_succ, ◌==◌, if◌then◌else◌,
}
use astesia.Base.Order.{nat_ord}
use astesia.Base.OrdMap.{OrdMap, OrdSet, get, insert, remove, extend, contains_key}
use astesia.Base.OrdMap.Sets.{insert_all, remove_all, keys_of}
use astesia.Grid.Types.{
  JsonValue, GridPage, GridCell, GridCellEdit, GridDraftRow, GridChangeSummary, GridResult,
  draft_not_found, column_out_of_bounds, cell_ord,
}
use astesia.Grid.Drafts

mutual
  pub data GridHistoryEntry (V : Type 0) : Type 0 where
    cell : GridCell → Option (GridCellEdit V) → GridHistoryEntry V
    draft_added : ℕ → GridHistoryEntry V
    draft_cell : ℕ → ℕ → Option V → GridHistoryEntry V
    draft_removed : ℕ → GridDraftRow V → GridHistoryEntry V
    rows_deleted : List ℕ → List (GridCell × GridCellEdit V) → GridHistoryEntry V
    batch : GridHistory V → GridHistoryEntry V

  pub data GridHistory (V : Type 0) : Type 0 where
    empty : GridHistory V
    push : GridHistoryEntry V → GridHistory V → GridHistory V

abbrev pub Edits : Type 0 → Type 0
Edits V = OrdMap GridCell (GridCellEdit V)

-- The three collections that an undo step writes.
pub record StagedChanges (V : Type 0) : Type 0 where
  pub edits : Edits V
  pub drafts : List (GridDraftRow V)
  pub deleted_rows : OrdSet ℕ

pub record GridChangeSet (V : Type 0) : Type 0 where
  pub next_draft_id : ℕ
  pub staged : StagedChanges V
  pub open staged use *
  pub history : GridHistory V

module _ {V : Type 0} where
  abbrev pub nothing_staged : StagedChanges V
  nothing_staged = record { edits = []; drafts = []; deleted_rows = [] }

  -- `GridChangeSet::default()`
  abbrev pub default : GridChangeSet V
  default = record { next_draft_id = 0; staged = nothing_staged; history = empty }

  unfoldable pub height : GridHistory V → ℕ
  height empty = 0
  height (push _ h) = suc (height h)

  -- The newest `n` entries, and what is below them: `split_off` at `height - n`.
  pub top : ℕ → GridHistory V → GridHistory V
  top ℕ.zero h = empty
  top (suc n) empty = empty
  top (suc n) (push e h) = push e (top n h)

  pub below : ℕ → GridHistory V → GridHistory V
  below ℕ.zero h = h
  below (suc n) empty = empty
  below (suc n) (push e h) = below n h

  unfoldable pub wrap_batch : GridHistory V → GridHistory V → GridHistory V
  wrap_batch empty rest = rest
  wrap_batch (push e h) rest = push (batch (push e h)) rest

  unfoldable pub page_value : GridPage V → GridCell → Option V
  page_value page c = elim (get_elem? page.rows c.row) [
    | none ↦ none
    | some row ↦ get_elem? row c.column
  ]

  unfoldable pub cell_value : GridChangeSet V → GridPage V → GridCell → Option V
  unfolding page_value
  cell_value s page c = elim (get c s.edits) [
    | none ↦ page_value page c
    | some edit ↦ some edit.new_value
  ]

  unfoldable pub is_cell_dirty : GridChangeSet V → GridCell → Bool
  unfolding contains_key
  is_cell_dirty s c = contains_key c s.edits

  unfoldable pub is_row_deleted : GridChangeSet V → ℕ → Bool
  unfolding contains_key
  is_row_deleted s row = contains_key row s.deleted_rows

  abbrev pub new_edit : GridCell → V → V → GridCellEdit V
  new_edit c original new_value = record {
    row = c.row;
    column = c.column;
    old_value = original;
    new_value = new_value;
  }

  current_value : Option (GridCellEdit V) → V → V
  current_value none original = original
  current_value (some edit) original = edit.new_value

module _ {V : Type 0} ⦃j : JsonValue V⦄ where
  unfoldable pub stage_cell_value : GridCell → V → V → GridChangeSet V → GridChangeSet V × Bool
  unfolding current_value
  stage_cell_value c original new_value s =
      let previous = get c s.edits in
      if j.eq (current_value previous original) new_value then (s, false) else (
        record s {
          history = push (cell c previous) s.history;
          staged = record s.staged {
            edits =
                if j.eq original new_value
                then remove c s.edits
                else insert c (new_edit c original new_value) s.edits;
          };
        },
        true,
      )

  -- The loop of `stage_cell_values`, with the count of the cells that changed.
  unfoldable pub stage_each : List (GridCell × V × V) → GridChangeSet V → ℕ → GridChangeSet V × ℕ
  stage_each [] s changed = (s, changed)
  stage_each ((c, original, value) ∷ rest) s changed =
      let (s', did) = stage_cell_value c original value s in
      stage_each rest s' (if did then changed + 1 else changed)

  unfoldable pub stage_cell_values : List (GridCell × V × V) → GridChangeSet V → GridChangeSet V × ℕ
  unfolding stage_each wrap_batch
  stage_cell_values values s =
      let history_start = height s.history in
      let (s', changed) = stage_each values s 0 in
      let pushed = height s'.history - history_start in
      (
        record s' { history = wrap_batch (top pushed s'.history) (below pushed s'.history) },
        changed,
      )

  already_holds : Option V → V → Bool
  already_holds none v = false
  already_holds (some old) v = j.eq old v

  unfoldable pub set_draft_value : ℕ → ℕ → V → GridChangeSet V → GridResult (GridChangeSet V × Bool)
  unfolding already_holds
  set_draft_value draft_id column value s = do
    draft ← ok_or (Drafts.find draft_id s.drafts) (draft_not_found draft_id)
    current ← ok_or (get_elem? draft.values column) (column_out_of_bounds column)
    if already_holds current value
        then ok (s, false)
        else ok (
          record s {
            staged = record s.staged {
              drafts = Drafts.write draft_id column (some value) s.drafts;
            };
            history = push (draft_cell draft_id column current) s.history;
          },
          true,
        )

module _ {V : Type 0} where
  unfoldable pub insert_draft : ℕ → GridChangeSet V → GridResult (GridChangeSet V × ℕ)
  insert_draft column_count s = do
    draft_id ← expect (checked_succ s.next_draft_id)
    ok (
      record s {
        next_draft_id = draft_id;
        staged = record s.staged {
          drafts = s.drafts ++ record { id = draft_id; values = replicate column_count none } ∷ [];
        };
        history = push (draft_added draft_id) s.history;
      },
      draft_id,
    )

  clear_value : ℕ → ℕ → Option V → GridChangeSet V → GridChangeSet V × Bool
  clear_value draft_id column none s = (s, false)
  clear_value draft_id column (some previous) s = (
    record s {
      staged = record s.staged { drafts = Drafts.write draft_id column none s.drafts };
      history = push (draft_cell draft_id column (some previous)) s.history;
    },
    true,
  )

  unfoldable pub unset_draft_value : ℕ → ℕ → GridChangeSet V → GridResult (GridChangeSet V × Bool)
  unfolding clear_value
  unset_draft_value draft_id column s = do
    draft ← ok_or (Drafts.find draft_id s.drafts) (draft_not_found draft_id)
    current ← ok_or (get_elem? draft.values column) (column_out_of_bounds column)
    ok (clear_value draft_id column current s)

  -- `drafts.remove(index)` cannot panic: `position` has found the index.
  unfoldable pub remove_draft : ℕ → GridChangeSet V → GridResult (GridChangeSet V)
  remove_draft draft_id s = do
    index ← ok_or (Drafts.position draft_id s.drafts) (draft_not_found draft_id)
    draft ← expect (get_elem? s.drafts index)
    ok (record s {
      staged = record s.staged { drafts = Drafts.remove_at index s.drafts };
      history = push (draft_removed index draft) s.history;
    })

  in_rows : OrdSet ℕ → GridCell × GridCellEdit V → Bool
  in_rows row_set (c, _) = contains_key c.row row_set

  unfoldable pub delete_rows : List ℕ → GridChangeSet V → GridChangeSet V
  unfolding in_rows
  delete_rows rows s =
      let row_set = insert_all [] rows in
      record s {
        staged = record s.staged {
          edits = keep (λ e. not (in_rows row_set e)) s.edits;
          deleted_rows = insert_all s.deleted_rows rows;
        };
        history = push (rows_deleted rows (keep (in_rows row_set) s.edits)) s.history;
      }

  restore_cell : GridCell → Option (GridCellEdit V) → Edits V → Edits V
  restore_cell c none edits = remove c edits
  restore_cell c (some edit) edits = insert c edit edits

unfoldable mutual
  unfolding restore_cell

  pub undo_entry : {V : Type 0} → GridHistoryEntry V → StagedChanges V → StagedChanges V
  undo_entry (cell c previous) s = record s { edits = restore_cell c previous s.edits }
  undo_entry (draft_added draft_id) s = record s { drafts = Drafts.without draft_id s.drafts }
  undo_entry (draft_cell draft_id column previous) s = record s {
    drafts = Drafts.write draft_id column previous s.drafts;
  }
  undo_entry (draft_removed index draft) s = record s {
    drafts = Drafts.insert_at (min index (length s.drafts)) draft s.drafts;
  }
  undo_entry (rows_deleted rows removed_edits) s = record s {
    deleted_rows = remove_all rows s.deleted_rows;
    edits = extend s.edits removed_edits;
  }
  undo_entry (batch entries) s = undo_entries entries s

  -- The entries of a batch are undone newest first.
  pub undo_entries : {V : Type 0} → GridHistory V → StagedChanges V → StagedChanges V
  undo_entries empty s = s
  undo_entries (push e h) s = undo_entries h (undo_entry e s)

is_empty {ℓ} : {A : Type ℓ} → List A → Bool
is_empty [] = true
is_empty (_ ∷ _) = false

module _ {V : Type 0} where
  undo_top : GridHistory V → GridChangeSet V → GridChangeSet V × Bool
  undo_top empty s = (s, false)
  undo_top (push e h) s = (record s { staged = undo_entry e s.staged; history = h }, true)

  unfoldable pub undo : GridChangeSet V → GridChangeSet V × Bool
  unfolding undo_top
  undo s = undo_top s.history s

  unfoldable pub can_undo : GridChangeSet V → Bool
  can_undo s = elim s.history [ empty ↦ false | push _ _ ↦ true ]

  unfoldable pub clear : GridChangeSet V → GridChangeSet V
  clear s = record s { staged = nothing_staged; history = empty }

  unfoldable pub has_changes : GridChangeSet V → Bool
  unfolding is_empty
  has_changes s = not (is_empty s.edits) || not (is_empty s.drafts) || not (is_empty s.deleted_rows)

  unfoldable pub has_history : GridChangeSet V → Bool
  has_history s = elim s.history [ empty ↦ false | push _ _ ↦ true ]

  unfoldable pub summary : GridChangeSet V → GridChangeSummary
  summary s = record {
    updated_cells = length s.edits;
    inserted_rows = length s.drafts;
    deleted_rows = length s.deleted_rows;
  }

  unfoldable pub primary_key_edit_count : GridChangeSet V → ℕ → ℕ
  primary_key_edit_count s primary_key =
      length (keep (λ (c : GridCell). c.column == primary_key) (keys_of s.edits))
