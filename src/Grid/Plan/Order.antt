-- ===== src/Grid/Plan/Order.antt =====
-- The order of the updates of a save: `sort_by_key` in `save_plan`.
use mathlib.Core.List.{Perm}
use astesia.Base.{
  ℕ, ◌≤◌, ◌≡◌, ◌≢◌, String, true, false, some, ok, List, [], ◌∷◌, arith, Ordering, All, get_elem?,
  Bool-cases, Option-cases, >>=-eq-ok, inl, inr, refl,
}
use astesia.Base.Sort.{IsOrdered, sort_by-IsOrdered, sort_by-perm}
use astesia.Grid.Types.{
  JsonValue, GridPage, GridColumn, GridCellEdit, GridUpdate, GridSavePlan, QueryTarget, TableRef,
}
use astesia.Grid.Changes.{GridChangeSet}
use astesia.Grid.Plan.{
  index_page, edits_of, edit_cmp, sort_edits, plan_update, plan_updates, plan_deletes, save_plan,
}

module _ {V : Type 0} (pk : ℕ) where
  cmp_trans :
      (a b c : GridCellEdit V)
      → edit_cmp pk a b ≢ Ordering.gt
      → edit_cmp pk b c ≢ Ordering.gt
      → edit_cmp pk a c ≢ Ordering.gt
  unfolding edit_cmp
  cmp_trans a b c h k = ground arith

  cmp_total : (a b : GridCellEdit V) → edit_cmp pk a b ≡ Ordering.gt → edit_cmp pk b a ≢ Ordering.gt
  unfolding edit_cmp
  cmp_total a b h = ground arith

  -- Of the edits `x` and `y` in this order: rows ascend; in a row the key comes last, and the other
  -- columns ascend.
  abbrev pub Precedes : GridCellEdit V → GridCellEdit V → Type 0
  Precedes x y =
      (x.row ≤ y.row)
      × (x.row ≡ y.row → x.column ≡ pk → y.column ≡ pk)
      × (x.row ≡ y.row → y.column ≢ pk → x.column ≤ y.column)

  abbrev pub IsInSaveOrder : List (GridCellEdit V) → Type 0
  IsInSaveOrder [] = Unit
  IsInSaveOrder (x ∷ xs) = All (Precedes x) xs × IsInSaveOrder xs

  cmp-Precedes : (x y : GridCellEdit V) → edit_cmp pk x y ≢ Ordering.gt → Precedes x y
  unfolding edit_cmp
  cmp-Precedes x y h = (ground arith, (λ r c. ground arith), (λ r c. ground arith))

  All-Precedes :
      (x : GridCellEdit V) (ys : List (GridCellEdit V))
      → All (λ y. edit_cmp pk x y ≢ Ordering.gt) ys
      → All (Precedes x) ys
  All-Precedes x [] a = tt
  All-Precedes x (y ∷ ys) a = (cmp-Precedes x y a.0, All-Precedes x ys a.1)

  IsOrdered-IsInSaveOrder :
      (xs : List (GridCellEdit V)) → IsOrdered (edit_cmp pk) xs → IsInSaveOrder xs
  IsOrdered-IsInSaveOrder [] o = tt
  IsOrdered-IsInSaveOrder (x ∷ xs) o = (All-Precedes x xs o.0, IsOrdered-IsInSaveOrder xs o.1)

  sort_edits_order :
      (xs : List (GridCellEdit V)) → Perm (sort_edits pk xs) xs × IsInSaveOrder (sort_edits pk xs)
  unfolding sort_edits
  sort_edits_order xs = (
    sort_by-perm (edit_cmp pk) xs,
    IsOrdered-IsInSaveOrder (sort_edits pk xs)
        (sort_by-IsOrdered (edit_cmp pk) cmp_trans cmp_total xs),
  )

module _ {V : Type 0} ⦃j : JsonValue V⦄ (page : GridPage V) (pk : ℕ) where
  -- The update writes the edit's value to the edit's column, in the row that has the key's value.
  abbrev pub IsUpdateOf : GridCellEdit V → GridUpdate V → Type 0
  IsUpdateOf e u =
      (u.row ≡ e.row)
      × (u.new_value ≡ e.new_value)
      × (index_page page e.row pk ≡ ok u.primary_key_value)
      × (j.is_null u.primary_key_value ≡ false)
      × (c : GridColumn) × (get_elem? page.columns e.column ≡ some c)
      × (u.column ≡ c.name)

  abbrev pub AreUpdatesOf : List (GridCellEdit V) → List (GridUpdate V) → Type 0
  AreUpdatesOf [] [] = Unit
  AreUpdatesOf (e ∷ es) (u ∷ us) = IsUpdateOf e u × AreUpdatesOf es us
  AreUpdatesOf _ _ = false ≡ true

  plan_update-IsUpdateOf :
      (e : GridCellEdit V) (u : GridUpdate V) → plan_update page pk e ≡ ok u → IsUpdateOf e u
  unfolding plan_update
  plan_update-IsUpdateOf e u made =
      let (key, f, rest) = >>=-eq-ok (index_page page e.row pk) _ made in
      elim (Bool-cases (j.is_null key)) [
        | inl null ↦ absurd (ground arith)
        | inr known ↦ elim (Option-cases (get_elem? page.columns e.column)) [
          | inl out ↦ absurd (ground arith)
          | inr (c, column) ↦
              let shape : u ≡ record {
                row = e.row;
                primary_key_value = key;
                column = c.name;
                new_value = e.new_value;
              } =
                ground arith in
              rw shape (refl, refl, f, known, c, column, refl)
        ]
      ]

  plan_updates-AreUpdatesOf :
      (es : List (GridCellEdit V)) (us : List (GridUpdate V))
      → plan_updates page pk es ≡ ok us
      → AreUpdatesOf es us
  unfolding plan_updates
  plan_updates-AreUpdatesOf [] us made = let shape : us ≡ [] = ground arith in rw shape tt
  plan_updates-AreUpdatesOf (e ∷ es) us made =
      let (u, first, rest) = >>=-eq-ok (plan_update page pk e) _ made in
      let (more, others, joined) = >>=-eq-ok (plan_updates page pk es) _ rest in
      let shape : us ≡ u ∷ more = ground arith in
      rw shape (plan_update-IsUpdateOf e u first, plan_updates-AreUpdatesOf es more others)

  -- Where `save_plan` returns a plan, its updates are those of the staged edits, each edit once: each
  -- writes its edit's value
  -- to the column that has the edit's index, in the row that has the primary key's value, which is not
  -- null. They stand in the order of their rows, and in each row in the order of the columns, but for
  -- the update of the primary key, which comes after all the others.
  pub save_plan_updates :
      (target : QueryTarget) (table : TableRef) (name : String) (s : GridChangeSet V)
      (plan : GridSavePlan V)
      → save_plan page target table pk name s ≡ ok plan
      → (es : List (GridCellEdit V)) × Perm es (edits_of s.edits)
        × IsInSaveOrder pk es
        × AreUpdatesOf es plan.updates
  unfolding save_plan
  save_plan_updates target table name s plan made =
      let es = sort_edits pk (edits_of s.edits) in
      let (updates, first, rest) = >>=-eq-ok (plan_updates page pk es) _ made in
      let (keys, _, joined) = >>=-eq-ok (plan_deletes page pk s.deleted_rows) _ rest in
      let same : plan.updates ≡ updates = ground arith in
      let (perm, order) = sort_edits_order pk (edits_of s.edits) in
      (es, perm, order, rw same (plan_updates-AreUpdatesOf es updates first))
