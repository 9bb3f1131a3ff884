-- ===== src/Grid/Page.antt =====
-- `GridPage::new` and `with_enum_values` of application/grid_session.rs: a page is made of rows that
-- have a value for each column. The columns get their enum values afterwards.
use astesia.Base.{
  ℕ, zero, suc, ◌+◌, String, ◌≡◌, ◌≢◌, refl, ap, ◌∙◌, ◌⊎◌, inl, inr, Option, none, some, List, [],
  ◌∷◌, arith, All, length, get_elem?, ok, err, ◌==◌, if◌then◌else◌, Bool-cases,
}
use astesia.Base.OrdMap.{OrdMap}
use astesia.Grid.Types.{ColumnInfo, GridColumn, GridPage, GridResult, invalid_page_shape}
use astesia.Grid.Plan.Laws.{IsRectangular}

-- `GridColumn::new` without enum values
unfoldable pub columns_of : List ColumnInfo → List GridColumn
columns_of [] = []
columns_of (info ∷ infos) = record { info = info; enum_values = [] } ∷ columns_of infos

unfoldable pub set_enum_values : ℕ → List String → List GridColumn → List GridColumn
set_enum_values i values [] = []
set_enum_values zero values (c ∷ cs) = record c { enum_values = values } ∷ cs
set_enum_values (suc i) values (c ∷ cs) = c ∷ set_enum_values i values cs

unfoldable pub set_each : OrdMap ℕ (List String) → List GridColumn → List GridColumn
unfolding set_enum_values
set_each [] columns = columns
set_each ((i, values) ∷ m) columns = set_each m (set_enum_values i values columns)

length-columns_of : (infos : List ColumnInfo) → length (columns_of infos) ≡ length infos
unfolding columns_of
length-columns_of [] = refl
length-columns_of (info ∷ infos) = ap suc (length-columns_of infos)

module _ {V : Type 0} where
  -- `find_map` on the numbered rows, from `index` on.
  unfoldable pub bad_row : ℕ → ℕ → List (List V) → Option (ℕ × ℕ)
  bad_row expected index [] = none
  bad_row expected index (row ∷ rows) =
      let rest = bad_row expected (suc index) rows in
      if length row == expected then rest else some (index, length row)

  unfoldable pub new : List ColumnInfo → List (List V) → Option ℕ → GridResult (GridPage V)
  unfolding bad_row columns_of
  new columns rows total_rows = elim (bad_row (length columns) 0 rows) [
    | some (row, actual) ↦ err (invalid_page_shape row (length columns) actual)
    | none ↦ ok (record { columns = columns_of columns; rows = rows; total_rows = total_rows })
  ]

  unfoldable pub with_enum_values : OrdMap ℕ (List String) → GridPage V → GridPage V
  unfolding set_each
  with_enum_values values p = record p { columns = set_each values p.columns }

  -- Whether all rows have `n` values, or which row has not.
  bad_row_cases :
      (n index : ℕ) (rows : List (List V))
      → (All (λ r. length r ≡ n) rows × (bad_row n index rows ≡ none))
        ⊎ ((k : ℕ) × (row : List V) × (get_elem? rows k ≡ some row)
            × (length row ≢ n)
            × (bad_row n index rows ≡ some (k + index, length row)))
  unfolding bad_row
  bad_row_cases n index [] = inl (tt, refl)
  bad_row_cases n index (row ∷ rows) = elim (Bool-cases (length row == n)) [
    | inr other ↦ inr (0, row, refl, ground arith, ground arith)
    | inl same ↦ elim (bad_row_cases n (suc index) rows) [
      | inl (a, e) ↦ inl ((ground arith, a), ground arith)
      | inr (k, bad, at, ne, e) ↦
          let moved : bad_row n (suc index) rows ≡ some (suc k + index, length bad) =
            e ∙ ap (λ i. some (i, length bad)) (omega arith) in
          inr (suc k, bad, at, ne, ground (arith, moved))
    ]
  ]

  -- A page is made exactly of rows that each have a value for every column, and it holds them
  -- unchanged. Otherwise the error names a row of another length, with both lengths.
  pub new_cases :
      (columns : List ColumnInfo) (rows : List (List V)) (total : Option ℕ)
      → ((p : GridPage V) × (new columns rows total ≡ ok p)
          × IsRectangular p
          × (p.rows ≡ rows)
          × (length p.columns ≡ length columns))
        ⊎ ((row : ℕ) × (values : List V) × (get_elem? rows row ≡ some values)
            × (length values ≢ length columns)
            × (new columns rows total
                ≡ err (invalid_page_shape row (length columns) (length values))))
  unfolding new
  new_cases columns rows total = elim (bad_row_cases (length columns) 0 rows) [
    | inl (a, e) ↦ inl (
      record { columns = columns_of columns; rows = rows; total_rows = total },
      rw (e, new) refl,
      rw (length-columns_of columns) a,
      refl,
      length-columns_of columns,
    )
    | inr (k, row, at, ne, e) ↦ inr (
      k,
      row,
      at,
      ne,
      rw (e, new)
          (ap (λ i. err (invalid_page_shape i (length columns) (length row))) (omega arith)),
    )
  ]
