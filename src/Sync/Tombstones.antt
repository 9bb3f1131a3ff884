-- ===== src/Sync/Tombstones.antt =====
-- mcp_sync_server/registry/state.rs: `BoundedTombstones`, a set that remembers the newest 4096 values.
pub mod Laws
use astesia.Base.{
  ℕ, ◌+◌, ◌≤◌, ◌≡◌, Bool, false, not, ◌||◌, List, [], ◌∷◌, ◌++◌, keep, length, leb, if◌then◌else◌,
}
use astesia.Base.Table.{Key}

abbrev pub max_retained_keys : ℕ
max_retained_keys = 4096

module _ {ℓ} {T : Type ℓ} ⦃k : Key T⦄ where
  unfoldable pub contains : T → List T → Bool
  contains value [] = false
  contains value (x ∷ xs) = k.same x value || contains value xs

  -- The list without a value.
  unfoldable pub without : T → List T → List T
  unfolding keep
  without value xs = keep (λ x. not (k.same x value)) xs

-- `entries` is a `HashSet`, in no order.
pub record BoundedTombstones {ℓ} (T : Type ℓ) : Type ℓ where
  pub entries : List T
  pub order : List T

module _ {ℓ} {T : Type ℓ} ⦃k : Key T⦄ where
  -- The loop that forgets the oldest values, oldest first.
  unfoldable pub forget_oldest : List T → List T → BoundedTombstones T
  unfolding without
  forget_oldest entries [] = record { entries = entries; order = [] }
  forget_oldest entries (expired ∷ order) =
      let rest = forget_oldest (without expired entries) order in
      if leb (length (expired ∷ order)) max_retained_keys
      then record { entries = entries; order = expired ∷ order }
      else rest

  unfoldable pub insert : T → BoundedTombstones T → BoundedTombstones T
  unfolding contains without forget_oldest
  insert value s =
      let known = contains value s.entries in
      forget_oldest (if known then s.entries else value ∷ s.entries)
        ((if known then without value s.order else s.order) ++ value ∷ [])

  unfoldable pub retain : (T → Bool) → BoundedTombstones T → BoundedTombstones T
  unfolding contains keep
  retain kept s =
      let entries = keep kept s.entries in
      record { entries = entries; order = keep (λ value. contains value entries) s.order }

  -- The set and the queue have the same values, none twice, and no more than the limit.
  abbrev pub AreDistinct : List T → Type 0
  AreDistinct [] = Unit
  AreDistinct (x ∷ xs) = (contains x xs ≡ false) × AreDistinct xs

  pub record IsValid (s : BoundedTombstones T) : Type ℓ where
    pub same_values : (value : T) → contains value s.entries ≡ contains value s.order
    pub order_once : AreDistinct s.order
    pub bounded : length s.order ≤ max_retained_keys
