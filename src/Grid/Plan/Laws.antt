-- ===== src/Grid/Plan/Laws.antt =====
-- When a plan is made, and that no index is out of range.

use astesia.Base.{
  ℕ, suc, String, ◌+◌, ◌<◌, ◌≡◌, refl, ◌∙◌, ap, ◌⊎◌, inl, inr, List, [], ◌∷◌, arith, length,
  get_elem?-some, All-get_elem?, All, Any, ok, true, false, err, Bool-cases,
}
use astesia.Base.OrdMap.{OrdSet}
use astesia.Grid.Types.{
  JsonValue, GridPage, GridCellEdit, GridDraftRow, GridUpdate, GridSavePlan, GridResult,
  QueryTarget, TableRef, missing_row_identity, cell_ord,
}
use astesia.Grid.Changes.{GridChangeSet, Edits}
use astesia.Grid.Changes.Invariant.{IsInPage, IsWellFormed}
use astesia.Grid.Plan.{
  index_page, edits_of, sort_edits, edit_cmp, plan_update, plan_updates, plan_deletes, plan_inserts,
  delete_of, save_plan,
}
use astesia.Base.Sort.{All-sort_by, All-unsort_by, Any-unsort_by, length-sort_by}

-- Every row has a value for each column, as `GridPage::new` checks.
abbrev pub IsRectangular : {V : Type 0} → GridPage V → Type 0
IsRectangular page = All (λ r. length r ≡ length page.columns) page.rows

module _ {V : Type 0} ⦃j : JsonValue V⦄ (page : GridPage V) (pk : ℕ) where
  -- The row's primary key has a value.
  abbrev pub HasKey : ℕ → Type 0
  HasKey row = (key : V) × (index_page page row pk ≡ ok key) × (j.is_null key ≡ false)

  -- The row's primary key is null.
  abbrev pub IsKeyless : ℕ → Type 0
  IsKeyless row = (key : V) × (index_page page row pk ≡ ok key) × (j.is_null key ≡ true)

  -- The call returns a thing for each row, all of which have a key, or names one of the rows, whose
  -- key is null. It does not panic.
  abbrev ReturnsOrKeyless : {A B : Type 0} → (A → ℕ) → List A → GridResult (List B) → Type 0
  ReturnsOrKeyless {A} {B} row xs r =
      ((ys : List B) × (r ≡ ok ys) × (length ys ≡ length xs) × All (λ x. HasKey (row x)) xs)
      ⊎ ((bad : ℕ) × (r ≡ err (missing_row_identity bad))
          × IsKeyless bad
          × Any (λ x. row x ≡ bad) xs)

module _ {V : Type 0} where
  -- The row has an edit or is deleted.
  abbrev pub IsTouched : GridChangeSet V → ℕ → Type 0
  IsTouched s row = Any (λ e. e.row ≡ row) (edits_of s.edits) ⊎ Any (λ e. e.0 ≡ row) s.deleted_rows

  pub index_page_total :
      (page : GridPage V) (row column : ℕ)
      → IsRectangular page
      → row < length page.rows
      → column < length page.columns
      → (v : V) × (index_page page row column ≡ ok v)
  unfolding index_page
  index_page_total page row column rect r c =
      let (values, e) = get_elem?-some page.rows row r in
      let wide = All-get_elem? (λ r. length r ≡ length page.columns) page.rows row values rect e in
      let (v, f) = get_elem?-some values column (omega arith) in (v, rw (e, index_page) (rw f refl))

  length-edits_of : (m : Edits V) → length (edits_of m) ≡ length m
  length-edits_of [] = refl
  length-edits_of (e ∷ m) = ap suc (length-edits_of m)

  -- An edit's own row and column lie in the page.
  abbrev pub EditIn : GridPage V → GridCellEdit V → Type 0
  EditIn page e = (e.row < length page.rows) × (e.column < length page.columns)

  edits_of-EditIn :
      (page : GridPage V) (m : Edits V)
      → All (IsInPage (length page.rows) (length page.columns)) m
      → All (EditIn page) (edits_of m)
  edits_of-EditIn page [] a = tt
  edits_of-EditIn page ((c, e) ∷ m) a = (
    (rw (a.0.own_row) (a.0.row_in), rw (a.0.own_column) (a.0.column_in)),
    edits_of-EditIn page m a.1,
  )

module _ {V : Type 0} ⦃j : JsonValue V⦄ (page : GridPage V) (pk : ℕ) where
  module _ (rect : IsRectangular page) (key_in : pk < length page.columns) where
    plan_update_total :
        (e : GridCellEdit V)
        → EditIn page e
        → ((u : GridUpdate V) × (plan_update page pk e ≡ ok u) × HasKey page pk e.row)
          ⊎ ((plan_update page pk e ≡ err (missing_row_identity e.row)) × IsKeyless page pk e.row)
    unfolding plan_update
    plan_update_total e i =
        let (key, f) = index_page_total page e.row pk rect i.0 key_in in
        let (column, g) = get_elem?-some page.columns e.column i.1 in
        let update : GridUpdate V = record {
          row = e.row;
          primary_key_value = key;
          column = column.name;
          new_value = e.new_value;
        } in
        elim (Bool-cases (j.is_null key)) [
          | inl null ↦ inr (ground arith, (key, f, null))
          | inr known ↦ inl (update, ground arith, (key, f, known))
        ]

    pub plan_updates_total :
        (es : List (GridCellEdit V))
        → All (EditIn page) es
        → ReturnsOrKeyless page pk (λ e. e.row) es (plan_updates page pk es)
    unfolding plan_updates
    plan_updates_total [] a = inl ([], refl, refl, tt)
    plan_updates_total (e ∷ es) a = elim (plan_update_total e a.0) [
      | inr (bad, null) ↦ inr (e.row, rw (bad, plan_updates) refl, null, inl refl)
      | inl (u, made, known) ↦ elim (plan_updates_total es a.1) [
        | inr (row, bad, null, there) ↦
            inr (row, rw (made, plan_updates) (rw bad refl), null, inr there)
        | inl (us, rest, n, all) ↦
            inl (u ∷ us, rw (made, plan_updates) (rw rest refl), ap suc n, (known, all))
      ]
    ]

    pub plan_deletes_total :
        (rows : OrdSet ℕ)
        → All (λ e. e.0 < length page.rows) rows
        → ReturnsOrKeyless page pk (λ e. e.0) rows (plan_deletes page pk rows)
    unfolding plan_deletes
    plan_deletes_total [] a = inl ([], refl, refl, tt)
    plan_deletes_total ((row, _) ∷ rows) a =
        let (key, f) = index_page_total page row pk rect a.0 key_in in
        elim (Bool-cases (j.is_null key)) [
          | inl null ↦ inr (row, ground arith, (key, f, null), inl refl)
          | inr known ↦ elim (plan_deletes_total rows a.1) [
            | inr (bad, fails, null, there) ↦ inr (bad, ground arith, null, inr there)
            | inl (keys, rest, n, all) ↦
                inl (key ∷ keys, ground arith, ap suc n, ((key, f, known), all))
          ]
        ]

  length-plan_inserts : (ds : List (GridDraftRow V)) → length (plan_inserts page ds) ≡ length ds
  unfolding plan_inserts
  length-plan_inserts [] = refl
  length-plan_inserts (d ∷ ds) = ap suc (length-plan_inserts ds)

  -- For well-formed changes of a rectangular page that has the primary key's column, either every row
  -- that has an edit or is deleted has a primary key, and the plan has one update for each edit, one
  -- insert for each draft, and counts them and the deleted rows; or the call returns the error that
  -- names a row that has an edit or is deleted and whose primary key is null. Indexing never panics.
  pub save_plan_total :
      (target : QueryTarget) (table : TableRef) (name : String) (s : GridChangeSet V) (n : ℕ)
      → IsRectangular page
      → pk < length page.columns
      → IsWellFormed (length page.rows) (length page.columns) n s.staged
      → ((plan : GridSavePlan V) × (save_plan page target table pk name s ≡ ok plan)
          × (length plan.updates ≡ length s.edits)
          × (length plan.inserts ≡ length s.drafts)
          × (plan.operation_count ≡ length s.edits + length s.drafts + length s.deleted_rows)
          × All (λ e. HasKey page pk e.row) (edits_of s.edits)
          × All (λ e. HasKey page pk e.0) s.deleted_rows)
        ⊎ ((row : ℕ) × (save_plan page target table pk name s ≡ err (missing_row_identity row))
            × IsKeyless page pk row
            × IsTouched s row)
  unfolding save_plan sort_edits
  save_plan_total target table name s n rect key_in w =
      let es = edits_of s.edits in
      let sorted_in =
        All-sort_by (edit_cmp pk) (EditIn page) es (edits_of-EditIn page s.edits w.edits_in) in
      elim (plan_updates_total rect key_in (sort_edits pk es) sorted_in) [
        | inr (row, bad, null, there) ↦ inr (
          row,
          rw (bad, save_plan) refl,
          null,
          inl (Any-unsort_by (edit_cmp pk) (λ e. e.row ≡ row) es there),
        )
        | inl (updates, made, count, keyed) ↦
            elim (plan_deletes_total rect key_in s.deleted_rows w.deleted_in) [
              | inr (row, bad, null, there) ↦
                  inr (row, rw (made, save_plan) (rw bad refl), null, inr there)
              | inl (keys, deleted, _, deletable) ↦
                  let edits = count ∙ length-sort_by (edit_cmp pk) es ∙ length-edits_of s.edits in
                  let drafts = length-plan_inserts s.drafts in
                  inl (
                    record {
                      target = target;
                      table = table;
                      primary_key_column = name;
                      updates = updates;
                      inserts = plan_inserts page s.drafts;
                      delete = delete_of keys;
                      operation_count =
                          length updates
                          + length (plan_inserts page s.drafts)
                          + length s.deleted_rows;
                    },
                    rw (made, save_plan) (rw deleted refl),
                    edits,
                    drafts,
                    omega (arith, edits, drafts),
                    All-unsort_by (edit_cmp pk) (λ e. HasKey page pk e.row) es keyed,
                    deletable,
                  )
            ]
      ]
