-- ===== src/Grid/Drafts.antt =====
-- The list of inserted rows, `drafts: Vec<GridDraftRow>`: the searches and writes of
-- application/grid_session/changes.rs. A draft is found by its id, the first that has it.
pub mod Laws
use astesia.Base.{ℕ, zero, suc, Option, none, some, List, [], ◌∷◌, ◌==◌, if◌then◌else◌}
use astesia.Grid.Types.{GridDraftRow}

-- Writing one element of a vector; out of bounds nothing changes.
unfoldable pub set_elem {ℓ} : {A : Type ℓ} → List A → ℕ → A → List A
set_elem [] i v = []
set_elem (x ∷ xs) zero v = v ∷ xs
set_elem (x ∷ xs) (suc i) v = x ∷ set_elem xs i v

-- `Vec::insert`; beyond the end, which the program avoids by `min`, it appends.
unfoldable pub insert_at {ℓ} : {A : Type ℓ} → ℕ → A → List A → List A
insert_at zero v xs = v ∷ xs
insert_at (suc i) v [] = v ∷ []
insert_at (suc i) v (x ∷ xs) = x ∷ insert_at i v xs

-- `Vec::remove`
unfoldable pub remove_at {ℓ} : {A : Type ℓ} → ℕ → List A → List A
remove_at i [] = []
remove_at zero (x ∷ xs) = xs
remove_at (suc i) (x ∷ xs) = x ∷ remove_at i xs

module _ {V : Type 0} where
  -- `iter().find(|draft| draft.id == id)`
  unfoldable pub find : ℕ → List (GridDraftRow V) → Option (GridDraftRow V)
  find id [] = none
  find id (d ∷ ds) = if d.id == id then some d else find id ds

  -- `iter().position(|draft| draft.id == id)`
  unfoldable pub position : ℕ → List (GridDraftRow V) → Option ℕ
  position id [] = none
  position id (d ∷ ds) =
      if d.id == id then some 0 else elim (position id ds) [ none ↦ none | some i ↦ some (suc i) ]

  -- The write through `iter_mut().find(..)` and `values.get_mut(column)`.
  unfoldable pub write : ℕ → ℕ → Option V → List (GridDraftRow V) → List (GridDraftRow V)
  unfolding set_elem
  write id column v [] = []
  write id column v (d ∷ ds) =
      if d.id == id
      then record d { values = set_elem d.values column v } ∷ ds
      else d ∷ write id column v ds

  -- `retain(|draft| draft.id != id)`
  unfoldable pub without : ℕ → List (GridDraftRow V) → List (GridDraftRow V)
  without id [] = []
  without id (d ∷ ds) = let rest = without id ds in if d.id == id then rest else d ∷ rest
