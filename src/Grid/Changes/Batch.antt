-- ===== src/Grid/Changes/Batch.antt =====
-- `stage_cell_values` pushes at most one entry, and undo takes the whole batch back.
use astesia.Base.{
  ℕ, zero, suc, ◌+◌, ◌-◌, ◌<◌, ◌≡◌, refl, ap, ◌∙◌, true, ◌⊎◌, inl, inr, List, [], ◌∷◌, arith,
}
use astesia.Base.OrdMap.{IsSorted}
use astesia.Base.OrdMap.Lookup.{insert-IsSorted, remove-IsSorted}
use astesia.Grid.Types.{JsonValue, GridCell, cell_ord}
use astesia.Grid.Changes.{
  GridHistory, GridHistoryEntry, empty, push, GridChangeSet, height, top, below, new_edit,
  stage_cell_value, stage_each, wrap_batch, stage_cell_values, undo_entry, undo_entries, undo,
}
use astesia.Grid.Changes.History.{below-suc, undo_entries-top-suc}
use astesia.Grid.Changes.Undo.{stage_cell_value_cases}

-- `k` entries stand above the history of `s`, and undoing them gives what `s` had staged.
record UndoneBy {V : Type 0} (k : ℕ) (t s : GridChangeSet V) : Type 0 where
  heights : height t.history ≡ k + height s.history
  under : below k t.history ≡ s.history
  undone : undo_entries (top k t.history) t.staged ≡ s.staged
  ids : t.next_draft_id ≡ s.next_draft_id

module _ {V : Type 0} where
  UndoneBy-refl : (s : GridChangeSet V) → UndoneBy 0 s s
  unfolding below top undo_entries
  UndoneBy-refl s = record { heights = omega arith; under = refl; undone = refl; ids = refl }

  wrap0 :
      (t s : GridChangeSet V)
      → UndoneBy 0 t s
      → record t { history = wrap_batch (top 0 t.history) (below 0 t.history) } ≡ s
  unfolding wrap_batch top below undo_entries
  wrap0 t s u = cc (u.under, u.undone, u.ids)

  -- One more entry below.
  UndoneBy-step :
      (k : ℕ) (t u s : GridChangeSet V) (e : GridHistoryEntry V)
      → UndoneBy k t u
      → u.history ≡ push e s.history
      → undo_entry e u.staged ≡ s.staged
      → u.next_draft_id ≡ s.next_draft_id
      → UndoneBy (suc k) t s
  unfolding height
  UndoneBy-step k t u s e b h v i = record {
    heights = omega (arith, b.heights, ap height h);
    under = below-suc k t.history (b.under ∙ h);
    undone =
        undo_entries-top-suc k t.history t.staged (b.under ∙ h) ∙ ap (undo_entry e) b.undone ∙ v;
    ids = b.ids ∙ i;
  }

  -- The batch entry stands for the entries that it wraps.
  undo-wrap_batch :
      (k n : ℕ) (g : GridHistory V) (t : GridChangeSet V)
      → height g ≡ suc k + n
      → undo (record t { history = wrap_batch (top (suc k) g) (below (suc k) g) }) ≡ (
        record t { staged = undo_entries (top (suc k) g) t.staged; history = below (suc k) g },
        true,
      )
  unfolding wrap_batch top undo undo_entry height
  undo-wrap_batch k n empty t h = absurd (omega arith)
  undo-wrap_batch k n (push e g) t h = refl

  wrap_undone :
      (k : ℕ) (t s : GridChangeSet V)
      → UndoneBy k t s
      → ((k ≡ 0) × (record t { history = wrap_batch (top k t.history) (below k t.history) } ≡ s))
        ⊎ ((0 < k)
            × (undo (record t { history = wrap_batch (top k t.history) (below k t.history) })
                ≡ (s, true)))
  unfolding wrap_batch
  wrap_undone zero t s u = inl (refl, wrap0 t s u)
  wrap_undone (suc k) t s u = inr (
    omega arith,
    undo-wrap_batch k (height s.history) t.history t u.heights ∙ cc (u.under, u.undone, u.ids),
  )

module _ {V : Type 0} ⦃j : JsonValue V⦄ where
  pub stage_cell_value-IsSorted :
      (c : GridCell) (original value : V) (s : GridChangeSet V)
      → IsSorted s.edits
      → IsSorted (stage_cell_value c original value s).0.edits
  unfolding stage_cell_value
  stage_cell_value-IsSorted c original value s h =
      ground (
        arith,
        insert-IsSorted c (new_edit c original value) s.edits h,
        remove-IsSorted c s.edits h,
      )

  stage_each-UndoneBy :
      (values : List (GridCell × V × V)) (s : GridChangeSet V) (n : ℕ)
      → IsSorted s.edits
      → (k : ℕ) × UndoneBy k (stage_each values s n).0 s × ((stage_each values s n).1 ≡ n + k)
  unfolding stage_each
  stage_each-UndoneBy [] s n h = (0, UndoneBy-refl s, omega arith)
  stage_each-UndoneBy ((c, original, value) ∷ rest) s n h =
      elim (stage_cell_value_cases c original value s h) [
        | inl same ↦ rw (same, stage_each) (stage_each-UndoneBy rest s n h)
        | inr (e, changed, pushed, undone, ids) ↦
            rw (changed, stage_each)
              (let s' = (stage_cell_value c original value s).0 in
                let (k, u, counted) =
                  stage_each-UndoneBy rest s' (n + 1)
                    (stage_cell_value-IsSorted c original value s h) in
                (suc k, UndoneBy-step k _ s' s e u pushed undone ids, omega (arith, counted)))
      ]

  -- Where the edits are sorted, a batch that changes no cell leaves everything as it was, and a batch
  -- that changes a cell is taken back whole by one undo, with the history as it was.
  pub undo-stage_cell_values :
      (values : List (GridCell × V × V)) (s : GridChangeSet V)
      → IsSorted s.edits
      → (((stage_cell_values values s).1 ≡ 0) × ((stage_cell_values values s).0 ≡ s))
        ⊎ ((0 < (stage_cell_values values s).1) × (undo (stage_cell_values values s).0 ≡ (s, true)))
  unfolding stage_cell_values
  undo-stage_cell_values values s h =
      let (k, u, counted) = stage_each-UndoneBy values s 0 h in
      let (t, changed) = stage_each values s 0 in
      let e : height t.history - height s.history ≡ k = omega (arith, u.heights) in
      let count : changed ≡ k = omega (arith, counted) in rw (e, count) (wrap_undone k t s u)
