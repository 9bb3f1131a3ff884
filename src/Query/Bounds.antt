-- ===== src/Query/Bounds.antt =====
-- application/query_result_selection.rs: `to_tsv` slices only what is there.
use astesia.Base.{
  ℕ, ◌+◌, ◌≤◌, ◌<◌, ◌≡◌, min, max, Bool, true, false, ◌&&◌, ◌||◌, Option, none, some, List, [], ◌∷◌,
  Outcome, ok, err, panic, subst, ◌≢◌, ok_or, expect, Returns, Returns->>=, Returns-if, length,
  get_elem?, ltb, leb, arith, if◌then◌else◌,
}
use astesia.Base.OrdMap.{OrdSet}
use astesia.Query.Selection.{
  Text, Selection, unselected, cells, rows, JsonText, StatementResult, slice, cell_rows, whole_rows,
  header_row, cell_table, table_of, to_tsv, prefix, format_tsv,
}

ok_or-Returns : {A : Type 0} (o : Option A) → Returns {E = Unit {0}} (λ _. Unit) (ok_or o tt)
ok_or-Returns none = tt
ok_or-Returns (some a) = tt

slice_lem :
    {A : Type 0} (first last : ℕ) (l : List A)
    → first ≤ last
    → last < length l
    → Returns {E = Unit {0}} (λ _. Unit) (expect (slice first last l))
unfolding slice
slice_lem first last l le lt =
    let inside : (leb first (last + 1) && ltb last (length l)) ≡ true = ground arith in
    rw (slice, inside) tt

prefix_lem :
    {A : Type 0} (n : ℕ) (l : List A)
    → ltb (length l) n ≡ false
    → Returns {E = Unit {0}} (λ _. Unit) (prefix n l)
unfolding prefix
prefix_lem n l long = let inside : leb n (length l) ≡ true = ground arith in rw (prefix, inside) tt

module _ {V : Type 0} (json : JsonText V) where
  cell_rows_lem :
      (first last : ℕ) (l : List (List V)) → Returns (λ _. Unit) (cell_rows json first last l)
  unfolding cell_rows
  cell_rows_lem first last [] = tt
  cell_rows_lem first last (row ∷ more) =
      Returns->>= _ _ (ok_or (slice first last row) tt) _ (ok_or-Returns (slice first last row))
        (λ _ _.
          Returns->>= _ _ (cell_rows json first last more) _ (cell_rows_lem first last more)
            (λ _ _. tt))

  whole_rows_lem :
      (selected : OrdSet ℕ) (result : StatementResult V)
      → Returns (λ _. Unit) (whole_rows json selected result)
  unfolding whole_rows
  whole_rows_lem [] result = tt
  whole_rows_lem ((index, _) ∷ selected) result =
      Returns->>= _ _ (ok_or (get_elem? result.rows index) tt) _
        (ok_or-Returns (get_elem? result.rows index))
        (λ row _.
          Returns->>= (λ _. Unit) _
            (if ltb (length row) (length result.columns)
              then err tt
              else prefix (length result.columns) row)
            _
            (Returns-if _ (ltb (length row) (length result.columns)) _ _ (λ _. tt)
              (prefix_lem (length result.columns) row))
            (λ _ _.
              Returns->>= _ _ (whole_rows json selected result) _ (whole_rows_lem selected result)
                (λ _ _. tt)))

  header_row_lem :
      (wanted : Bool) (names : Outcome (Unit {0}) (List Text))
      → Returns (λ _. Unit) names
      → Returns (λ _. Unit) (header_row json wanted names)
  unfolding header_row
  header_row_lem true names h = Returns->>= _ _ names _ h (λ _ _. tt)
  header_row_lem false names h = tt

  cell_table_lem :
      (row_start row_end column_start column_end : ℕ) (result : StatementResult V) (wanted : Bool)
      → row_start ≤ row_end
      → column_start ≤ column_end
      → row_end < length result.rows
      → column_end < length result.columns
      → Returns
          (λ _. Unit)
          (cell_table json row_start row_end column_start column_end result wanted)
  unfolding cell_table
  cell_table_lem rs re cs ce result wanted rle cle rlt clt =
      Returns->>= _ _ (header_row json wanted (expect (slice cs ce result.columns))) _
        (header_row_lem wanted _ (slice_lem cs ce result.columns cle clt))
        (λ _ _.
          Returns->>= _ _ (expect (slice rs re result.rows)) _ (slice_lem rs re result.rows rle rlt)
            (λ selected _.
              Returns->>= _ _ (cell_rows json cs ce selected) _ (cell_rows_lem cs ce selected)
                (λ _ _. tt)))

  table_of_lem :
      (s : Selection) (result : StatementResult V) (wanted : Bool)
      → Returns (λ _. Unit) (table_of json s result wanted)
  unfolding table_of
  table_of_lem unselected result wanted = tt
  table_of_lem (cells anchor extent) result wanted =
      Returns-if _
        (leb (length result.rows) (max anchor.row extent.row)
          || leb (length result.columns) (max anchor.column extent.column))
        _ _ (λ _. tt)
        (λ inside.
          cell_table_lem (min anchor.row extent.row) (max anchor.row extent.row)
            (min anchor.column extent.column) (max anchor.column extent.column) result wanted
            (omega arith) (omega arith) (grind arith) (grind arith))
  table_of_lem (rows _ selected) result wanted =
      Returns->>= _ _ (header_row json wanted (ok result.columns)) _
        (header_row_lem wanted (ok result.columns) tt)
        (λ _ _.
          Returns->>= _ _ (whole_rows json selected result) _ (whole_rows_lem selected result)
            (λ _ _. tt))

  -- `to_tsv` gives a text or nothing and never panics, whatever is selected and whatever the lengths of
  -- the result's rows are.
  pub to_tsv_lem :
      (s : Selection) (result : StatementResult V) (include_headers : Bool)
      → to_tsv json s result include_headers ≢ panic
  unfolding to_tsv
  to_tsv_lem s result wanted e = subst (Returns (λ _. Unit)) e (
      Returns->>= _ _ (table_of json s result wanted) (λ table. ok (format_tsv table))
        (table_of_lem s result wanted) (λ _ _. tt))
