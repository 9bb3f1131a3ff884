-- ===== src/Grid/Session/Project.antt =====
-- application/grid_session.rs: the rows and columns that a copy or an export takes. `selection_tsv`
-- formats JSON texts and is left out; it projects by `selected_projection` and `project`.
use astesia.Base.{ℕ, String, not, Option, none, some, List, [], ◌∷◌, length, get_elem?, keep}
use astesia.Base.OrdMap.Sets.{keys_of}
use astesia.Base.OrdMap.{OrdSet}
use astesia.Grid.Types.{GridPage, GridCell}
use astesia.Grid.Changes
use astesia.Grid.Selection.{span, between}
use astesia.Grid.Session.{GridSession, page}

pub record GridProjection : Type 0 where
  pub columns : List ℕ
  pub rows : List ℕ

-- `collect::<Option<Vec<_>>>`
unfoldable pub collect {ℓ} : {A : Type ℓ} → List (Option A) → Option (List A)
collect [] = some []
collect (none ∷ xs) = none
collect (some x ∷ xs) = elim (collect xs) [ none ↦ none | some ys ↦ some (x ∷ ys) ]

unfoldable pub map_list {ℓ κ} : {A : Type ℓ} {B : Type κ} → (A → B) → List A → List B
map_list f [] = []
map_list f (x ∷ xs) = f x ∷ map_list f xs

module _ {V : Type 0} where
  unfoldable pub cell_value : GridSession V → GridCell → Option V
  cell_value s cell = elim (page s) [ none ↦ none | some p ↦ Changes.cell_value s.changes p cell ]

  row_projection : GridPage V → OrdSet ℕ → Option GridProjection
  unfolding span
  row_projection p [] = none
  row_projection p (r ∷ rs) =
      some (record { columns = span 0 (length p.columns); rows = keys_of (r ∷ rs) })

  unfoldable pub selected_projection : GridSession V → GridPage V → Option GridProjection
  unfolding row_projection between
  selected_projection s p = elim s.selection.cells [
    | none ↦ row_projection p s.selection.rows
    | some c ↦ some (record {
      columns = between c.anchor.column c.focus.column;
      rows = between c.anchor.row c.focus.row;
    })
  ]

  unfoldable pub visible_projection : GridSession V → GridPage V → GridProjection
  unfolding span
  visible_projection s p = record {
    columns = span 0 (length p.columns);
    rows = keep (λ row. not (Changes.is_row_deleted s.changes row)) (span 0 (length p.rows));
  }

  column_name : GridPage V → ℕ → Option String
  column_name p column = elim (get_elem? p.columns column) [ none ↦ none | some c ↦ some c.name ]

  project_row {κ} : {T : Type κ} → GridSession V → (V → T) → List ℕ → ℕ → Option (List T)
  unfolding collect map_list
  project_row s f columns row = collect (
      map_list
        (λ column. elim (cell_value s (record { row = row; column = column })) [
          | none ↦ none
          | some v ↦ some (f v)
        ])
        columns)

  unfoldable pub project {κ} :
      {T : Type κ}
      → GridSession V
      → GridPage V
      → GridProjection
      → (V → T)
      → Option (List String × List (List T))
  unfolding collect map_list column_name project_row
  project s p projection f = elim (collect (map_list (column_name p) projection.columns)) [
    | none ↦ none
    | some names ↦ elim (collect (map_list (project_row s f projection.columns) projection.rows)) [
      | none ↦ none
      | some rows ↦ some (names, rows)
    ]
  ]

  projection_or_visible : Option GridProjection → GridSession V → GridPage V → GridProjection
  unfolding visible_projection
  projection_or_visible none s p = visible_projection s p
  projection_or_visible (some projection) s p = projection

  unfoldable pub export_rows : GridSession V → Option (List String × List (List V))
  unfolding projection_or_visible selected_projection project
  export_rows s = elim (page s) [
    | none ↦ none
    | some p ↦ project s p (projection_or_visible (selected_projection s p) s p) (λ v. v)
  ]
