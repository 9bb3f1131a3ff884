-- ===== src/Query/Selection.antt =====
-- application/query_result_selection.rs: the selected cells or rows of a query's result, and the
-- text that is copied. A text is the list of its code points. Of a result only the columns and the
-- rows are read, of a column only its name; a value is serde_json's, which is a parameter.
use astesia.Base.{
  ℕ, zero, suc, ◌+◌, ◌-◌, min, max, Bool, true, false, not, ◌&&◌, ◌||◌, Option, none, some, List,
  [], ◌∷◌, ◌++◌, map, Outcome, ok, err, panic, ◌>>=◌, ok_or, expect, length, get_elem?, ◌==◌, ltb,
  leb, if◌then◌else◌,
}
use astesia.Base.Order.{nat_ord}
use astesia.Base.OrdMap.{OrdSet, insert, remove, contains_key}
use astesia.Base.OrdMap.Sets.{insert_all}
use astesia.Grid.Selection.{span, between, in_range}

pub record ResultCell : Type 0 where
  pub row : ℕ
  pub column : ℕ

pub data Selection : Type 0 where
  unselected : Selection
  cells : (anchor extent : ResultCell) → Selection
  rows : (anchor : ℕ) (selected : OrdSet ℕ) → Selection

same_cell : ResultCell → ResultCell → Bool
same_cell a b = a.row == b.row && a.column == b.column

same_rows : OrdSet ℕ → OrdSet ℕ → Bool
same_rows [] [] = true
same_rows ((a, _) ∷ s) ((b, _) ∷ t) = a == b && same_rows s t
same_rows _ _ = false

-- `==`, as the derived instance compares.
same_selection : Selection → Selection → Bool
unfolding same_cell same_rows
same_selection unselected unselected = true
same_selection (cells a e) (cells a' e') = same_cell a a' && same_cell e e'
same_selection (rows a s) (rows a' s') = a == a' && same_rows s s'
same_selection _ _ = false

-- The selection that takes another's place, and whether it differs.
unfoldable pub replace : Selection → Selection → Selection × Bool
unfolding same_selection
replace next s = (next, not (same_selection s next))

unfoldable pub clear : Selection → Selection × Bool
unfolding replace
clear s = replace unselected s

unfoldable pub has_selection : Selection → Bool
has_selection unselected = false
has_selection (cells _ _) = true
has_selection (rows _ _) = true

anchor_for : Selection → Bool → ResultCell → ResultCell
anchor_for (cells anchor _) true cell = anchor
anchor_for _ _ cell = cell

unfoldable pub select_cell : ℕ → ℕ → Bool → Selection → Selection × Bool
unfolding anchor_for replace
select_cell row column extend s =
    let cell : ResultCell = record { row = row; column = column } in
    replace (cells (anchor_for s extend cell) cell) s

no_rows : OrdSet ℕ → Bool
no_rows [] = true
no_rows (_ ∷ _) = false

toggled : ℕ → OrdSet ℕ → OrdSet ℕ
toggled row selected = elim (contains_key row selected) [
  | true ↦ remove row selected
  | false ↦ insert row tt selected
]

rows_or_none : ℕ → OrdSet ℕ → Selection
unfolding no_rows
rows_or_none anchor selected = if no_rows selected then unselected else rows anchor selected

row_selection : ℕ → (extend toggle : Bool) → Selection → Selection
unfolding between toggled rows_or_none insert_all
row_selection row true _ (rows anchor selected) =
    rows anchor (insert_all selected (between anchor row))
row_selection row false true (rows _ selected) = rows_or_none row (toggled row selected)
row_selection row _ _ _ = rows row (insert row tt [])

unfoldable pub select_row : ℕ → (extend toggle : Bool) → Selection → Selection × Bool
unfolding row_selection replace
select_row row extend toggle s = replace (row_selection row extend toggle s) s

unfoldable pub select_all_rows : ℕ → Selection → Selection × Bool
unfolding span insert_all replace
select_all_rows row_count s =
    replace (if row_count == 0 then unselected else rows 0 (insert_all [] (span 0 row_count))) s

unfoldable pub contains_cell : ℕ → ℕ → Selection → Bool
unfolding in_range
contains_cell row column (cells anchor extent) =
    in_range anchor.row extent.row row && in_range anchor.column extent.column column
contains_cell row column _ = false

unfoldable pub contains_row : ℕ → Selection → Bool
unfolding contains_key
contains_row row (rows _ selected) = contains_key row selected
contains_row row _ = false

abbrev pub Text : Type 0
Text = List ℕ

unfoldable pub is_special : ℕ → Bool
is_special c = c == b'\t' || c == b'\n' || c == b'\r' || c == b'"'

-- `value.contains([..])`
unfoldable pub contains_special : Text → Bool
unfolding is_special
contains_special [] = false
contains_special (c ∷ value) = is_special c || contains_special value

-- `value.replace('"', "\"\"")`
unfoldable pub doubled : Text → Text
doubled [] = []
doubled (c ∷ value) = let rest = doubled value in if c == b'"' then b'"' ∷ b'"' ∷ rest else c ∷ rest

unfoldable pub escape_tsv_field : Text → Text
unfolding contains_special doubled
escape_tsv_field value = if contains_special value then b'"' ∷ doubled value ++ b'"' ∷ [] else value

unfoldable pub join : ℕ → List Text → Text
join separator [] = []
join separator (field ∷ []) = field
join separator (field ∷ next ∷ more) = field ++ separator ∷ join separator (next ∷ more)

unfoldable pub format_tsv : List (List Text) → Text
unfolding escape_tsv_field join
format_tsv table = join b'\n' (map (λ row. join b'\t' (map escape_tsv_field row)) table)

-- serde_json's `Value`: a null, a string's text, and the `Display` of any other value.
pub record JsonText {ℓ} (V : Type ℓ) : Type ℓ where
  pub is_null : V → Bool
  pub as_str : V → Option Text
  pub to_string : V → Text

pub record StatementResult {ℓ} (V : Type ℓ) : Type ℓ where
  pub columns : List Text
  pub rows : List (List V)

unfoldable pub drop {ℓ} : {A : Type ℓ} → ℕ → List A → List A
drop zero l = l
drop (suc n) [] = []
drop (suc n) (_ ∷ l) = drop n l

unfoldable pub take {ℓ} : {A : Type ℓ} → ℕ → List A → List A
take zero l = []
take (suc n) [] = []
take (suc n) (x ∷ l) = x ∷ take n l

-- `&l[..n]`, which panics where `l` is shorter.
unfoldable pub prefix {ℓ κ} : {A : Type ℓ} {E : Type κ} → ℕ → List A → Outcome E (List A)
unfolding take
prefix n l = if leb n (length l) then ok (take n l) else panic

-- `slice.get(first..=last)`
unfoldable pub slice {ℓ} : {A : Type ℓ} → ℕ → ℕ → List A → Option (List A)
unfolding drop take
slice first last l =
    if leb first (last + 1) && ltb last (length l)
    then some (take (last + 1 - first) (drop first l))
    else none

module _ {ℓ} {V : Type ℓ} (json : JsonText V) where
  text_of : Option Text → V → Text
  text_of none value = json.to_string value
  text_of (some text) value = text

  unfoldable pub format_value : V → Text
  unfolding text_of
  format_value value = if json.is_null value then [] else text_of (json.as_str value) value

  -- The values of the selected columns of each row: `row.get(..)?`.
  unfoldable pub cell_rows : ℕ → ℕ → List (List V) → Outcome (Unit {0}) (List (List Text))
  unfolding slice format_value
  cell_rows first last [] = ok []
  cell_rows first last (row ∷ more) = do
    values ← ok_or (slice first last row) tt
    rest ← cell_rows first last more
    ok (map format_value values ∷ rest)

  -- The selected rows, each as long as the columns.
  unfoldable pub whole_rows : OrdSet ℕ → StatementResult V → Outcome (Unit {0}) (List (List Text))
  unfolding prefix format_value
  whole_rows [] result = ok []
  whole_rows ((index, _) ∷ selected) result = do
    row ← ok_or (get_elem? result.rows index) tt
    values ←
        if ltb (length row) (length result.columns)
        then err tt
        else prefix (length result.columns) row
    rest ← whole_rows selected result
    ok (map format_value values ∷ rest)

  -- The table's first row, where headers are wanted.
  unfoldable pub header_row :
      Bool → Outcome (Unit {0}) (List Text) → Outcome (Unit {0}) (List (List Text))
  header_row true names = names >>= λ names. ok (names ∷ [])
  header_row false names = ok []

  unfoldable pub cell_table :
      (row_start row_end column_start column_end : ℕ)
      → StatementResult V
      → Bool
      → Outcome (Unit {0}) (List (List Text))
  unfolding cell_rows header_row slice
  cell_table row_start row_end column_start column_end result include_headers = do
    first ← header_row include_headers (expect (slice column_start column_end result.columns))
    selected ← expect (slice row_start row_end result.rows)
    table ← cell_rows column_start column_end selected
    ok (first ++ table)

  -- `None` is `err`; a slice out of range panics.
  unfoldable pub table_of :
      Selection → StatementResult V → Bool → Outcome (Unit {0}) (List (List Text))
  unfolding cell_table whole_rows header_row
  table_of unselected result include_headers = err tt
  table_of (cells anchor extent) result include_headers =
      if leb (length result.rows) (max anchor.row extent.row)
        || leb (length result.columns) (max anchor.column extent.column)
      then err tt
      else cell_table (min anchor.row extent.row) (max anchor.row extent.row)
          (min anchor.column extent.column) (max anchor.column extent.column) result include_headers
  table_of (rows _ selected) result include_headers = do
    first ← header_row include_headers (ok result.columns)
    table ← whole_rows selected result
    ok (first ++ table)

  unfoldable pub to_tsv : Selection → StatementResult V → Bool → Outcome (Unit {0}) Text
  unfolding table_of format_tsv
  to_tsv s result include_headers = do
    table ← table_of s result include_headers
    ok (format_tsv table)
