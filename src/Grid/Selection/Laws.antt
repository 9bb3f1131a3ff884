-- ===== src/Grid/Selection/Laws.antt =====
-- Selected rows stay inside the page, and a range selection holds exactly the rows of its range.
use astesia.Base.{
  ℕ, zero, suc, ◌+◌, ◌-◌, ◌≤◌, ◌<◌, min, max, ◌≡◌, refl, ap, Bool, false, not, ◌&&◌, ◌||◌, Option,
  none, some, inl, inr, List, [], ◌∷◌, arith, All, All-keep, keep, ◌==◌, leb, Bool-cases, ==_iff,
  if◌then◌else◌,
}
use astesia.Base.Order.{nat_ord}
use astesia.Base.OrdMap.{OrdSet, insert, contains_key, IsSorted}
use astesia.Base.OrdMap.Lookup.{get-insert, get-remove, insert-IsSorted, remove-IsSorted}
use astesia.Base.OrdMap.Sets.{insert_all, insert_all-IsSorted}
use astesia.Base.OrdMap.Entries.{All-insert, All-remove, All-insert_all}
use astesia.Grid.Types.{GridCell, GridRowSelectionMode, replace, toggle, extend}
use astesia.Grid.Selection.{
  GridSelection, span, between, in_range, anchor_or, rows_for, select_row, select_cell, clear,
  row_selected, default,
}

abbrev pub AnchorIn : ℕ → Option ℕ → Type 0
AnchorIn n none = Unit
AnchorIn n (some a) = a < n

-- The selection of a page with `n` rows.
pub record IsSelectionOf (n : ℕ) (s : GridSelection) : Type 0 where
  pub rows_sorted : IsSorted s.rows
  pub rows_in : All (λ e. e.0 < n) s.rows
  pub anchor_in : AnchorIn n s.row_anchor

pub default-IsSelectionOf : (n : ℕ) → IsSelectionOf n default
default-IsSelectionOf n = record { rows_sorted = tt; rows_in = tt; anchor_in = tt }

All-span : (n first count : ℕ) → first + count ≤ n → All (λ r. r < n) (span first count)
unfolding span
All-span n first zero h = tt
All-span n first (suc count) h = (omega arith, All-span n (suc first) count (omega arith))

anchor_or_in : (n : ℕ) (a : Option ℕ) (row : ℕ) → AnchorIn n a → row < n → anchor_or a row < n
unfolding anchor_or
anchor_or_in n none row a h = h
anchor_or_in n (some x) row a h = a

rows_for-rows :
    (n row : ℕ) (mode : GridRowSelectionMode) (deleted : OrdSet ℕ) (s : GridSelection)
    → row < n
    → IsSelectionOf n s
    → IsSorted (rows_for mode row deleted s) × All (λ e. e.0 < n) (rows_for mode row deleted s)
unfolding rows_for
rows_for-rows n row replace deleted s h v =
    (insert-IsSorted row tt [] tt, All-insert (λ e. e.0 < n) row tt [] h tt)
rows_for-rows n row toggle deleted s h v = ground (
  arith,
  insert-IsSorted row tt s.rows v.rows_sorted,
  remove-IsSorted row s.rows v.rows_sorted,
  All-insert (λ e. e.0 < n) row tt s.rows h v.rows_in,
  All-remove (λ e. e.0 < n) row s.rows v.rows_in,
)
rows_for-rows n row extend deleted s h v =
    let a = anchor_or s.row_anchor row in
    let below = anchor_or_in n s.row_anchor row v.anchor_in h in
    let within : All (λ r. r < n) (between a row) =
      All-span n (min a row) (suc (max a row - min a row)) (omega arith) in
    (
      insert_all-IsSorted [] _ tt,
      All-insert_all (λ r. r < n) [] _ tt
          (All-keep (λ r. r < n) (λ r. not (contains_key r deleted)) (between a row) within),
    )

pub select_row-IsSelectionOf :
    (n row : ℕ) (mode : GridRowSelectionMode) (deleted : OrdSet ℕ) (s : GridSelection)
    → row < n
    → IsSelectionOf n s
    → IsSelectionOf n (select_row row mode deleted s).0
unfolding select_row
select_row-IsSelectionOf n row mode deleted s h v =
    let (sorted, within) = rows_for-rows n row mode deleted s h v in
    record { rows_sorted = sorted; rows_in = within; anchor_in = h }

pub select_cell-IsSelectionOf :
    (n : ℕ) (cell : GridCell) (extending : Bool) (s : GridSelection)
    → IsSelectionOf n (select_cell cell extending s).0
unfolding select_cell
select_cell-IsSelectionOf n cell extending s = record {
  rows_sorted = tt;
  rows_in = tt;
  anchor_in = tt;
}

pub clear-IsSelectionOf : (n : ℕ) (s : GridSelection) → IsSelectionOf n (clear s).0
unfolding clear
clear-IsSelectionOf n s = default-IsSelectionOf n

-- Membership in a list of numbers.
abbrev member : ℕ → List ℕ → Bool
member q [] = false
member q (x ∷ xs) = q == x || member q xs

contains_key-insert_all :
    (q : ℕ) (s : OrdSet ℕ) (ks : List ℕ)
    → contains_key q (insert_all s ks) ≡ (member q ks || contains_key q s)
unfolding insert_all contains_key
contains_key-insert_all q s [] = refl
contains_key-insert_all q s (k ∷ ks) =
    ground (arith, contains_key-insert_all q (insert k tt s) ks, get-insert q k tt s)

member-keep : (p : ℕ → Bool) (q : ℕ) (ks : List ℕ) → member q (keep p ks) ≡ (member q ks && p q)
unfolding keep
member-keep p q [] = refl
member-keep p q (k ∷ ks) = elim (Bool-cases (q == k)) [
  | inl e ↦ ground (arith, ap p ((==_iff q k).0 e), member-keep p q ks)
  | inr e ↦ ground (arith, member-keep p q ks)
]

member-span :
    (q first count : ℕ) → member q (span first count) ≡ (leb first q && leb (q + 1) (first + count))
unfolding span
member-span q first zero = ground arith
member-span q first (suc count) = ground (arith, member-span q (suc first) count)

member-between : (q a b : ℕ) → member q (between a b) ≡ in_range a b q
unfolding between in_range
member-between q a b = ground (arith, member-span q (min a b) (suc (max a b - min a b)))

-- A range selection holds a row exactly when it lies between the anchor and the clicked row, both
-- included and in either order, and is not deleted. The anchor is the row that was selected last,
-- or the clicked row itself.
pub row_selected-extend :
    (row q : ℕ) (deleted : OrdSet ℕ) (s : GridSelection)
    → row_selected q (select_row row extend deleted s).0
      ≡ (in_range (anchor_or s.row_anchor row) row q && not (contains_key q deleted))
unfolding row_selected select_row contains_key
row_selected-extend row q deleted s =
    let a = anchor_or s.row_anchor row in
    let p = λ (r : ℕ). not (contains_key r deleted) in
    ground (
      arith,
      contains_key-insert_all q [] (keep p (between a row)),
      member-keep p q (between a row),
      member-between q a row,
    )

-- Where the selected rows are sorted, a toggle flips the clicked row and leaves every other row as it
-- was.
pub row_selected-toggle :
    (row q : ℕ) (deleted : OrdSet ℕ) (s : GridSelection)
    → IsSorted s.rows
    → row_selected q (select_row row toggle deleted s).0
      ≡ (if q == row then not (row_selected q s) else row_selected q s)
unfolding row_selected select_row contains_key
row_selected-toggle row q deleted s h =
    ground (arith, get-insert q row tt s.rows, get-remove q row s.rows h)
