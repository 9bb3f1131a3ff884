-- ===== src/Grid/Changes/History.antt =====
-- The undo stack: taking its newest entries off, and undoing them one after another.
use astesia.Base.{ℕ, zero, suc, ◌≡◌}
use astesia.Grid.Changes.{
  GridHistory, GridHistoryEntry, empty, push, top, below, StagedChanges, undo_entry, undo_entries,
}

module _ {V : Type 0} where
  -- Under `k` entries stands the entry `e`, and under it `h`.
  pub below-suc :
      (k : ℕ) (g : GridHistory V) {e : GridHistoryEntry V} {h : GridHistory V}
      → below k g ≡ push e h
      → below (suc k) g ≡ h
  unfolding below
  below-suc zero empty p = absurd (cc)
  below-suc zero (push x g) p = cc
  below-suc (suc k) empty p = absurd (cc)
  below-suc (suc k) (push x g) p = below-suc k g p

  pub undo_entries-top-suc :
      (k : ℕ) (g : GridHistory V) {e : GridHistoryEntry V} {h : GridHistory V} (s : StagedChanges V)
      → below k g ≡ push e h
      → undo_entries (top (suc k) g) s ≡ undo_entry e (undo_entries (top k g) s)
  unfolding below top undo_entries
  undo_entries-top-suc zero empty s p = absurd (cc)
  undo_entries-top-suc zero (push x g) s p = cc p
  undo_entries-top-suc (suc k) empty s p = absurd (cc)
  undo_entries-top-suc (suc k) (push x g) s p = undo_entries-top-suc k g (undo_entry x s) p
