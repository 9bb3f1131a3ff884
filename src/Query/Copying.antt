-- ===== src/Query/Copying.antt =====
-- application/query_result_selection.rs: the copied text reads back as the table that was copied.
use mathlib.Core.List.{append_assoc, append-nil}
use astesia.Base.{
  ℕ, zero, suc, ◌≡◌, refl, ap, sym, ◌∙◌, true, false, Option, none, some, List, [], ◌∷◌, ◌++◌, map,
  ◌==◌, arith, length, All,
}
use astesia.Query.Selection.{Text, escape_tsv_field, join, format_tsv}
use astesia.Query.Escaping.{ends_field, read_field, IsAfterField, read_field-escape_tsv_field}

-- What is read in front of what is read from the rest.
with_first {ℓ} : {A : Type ℓ} → A → Option (List A × Text) → Option (List A × Text)
with_first a none = none
with_first a (some (more, rest)) = some (a ∷ more, rest)

-- A list of what `read` reads, with a separator in front of each but the first.
module _ {ℓ} {A : Type ℓ} (separator : ℕ) (read : Text → Option (A × Text)) where
  read_tail : ℕ → Text → Option (List A × Text)
  unfolding with_first
  read_tail zero s = some ([], s)
  read_tail (suc n) [] = none
  read_tail (suc n) (c ∷ s) = elim (c == separator) [
    | false ↦ none
    | true ↦ elim (read s) [ none ↦ none | some (a, rest) ↦ with_first a (read_tail n rest) ]
  ]

  -- A first one, and as many more as the number says.
  unfoldable pub read_list : ℕ → Text → Option (List A × Text)
  unfolding read_tail with_first
  read_list n s = elim (read s) [ none ↦ none | some (a, rest) ↦ with_first a (read_tail n rest) ]

  read_tail_step :
      (n : ℕ) (s : Text) (a : A) (rest : Text)
      → read s ≡ some (a, rest)
      → read_tail (suc n) (separator ∷ s) ≡ with_first a (read_tail n rest)
  unfolding read_tail
  read_tail_step n s a rest e =
      let same : (separator == separator) ≡ true = ground arith in rw (read_tail, same, e) refl

  read_list_step :
      (n : ℕ) (s : Text) (a : A) (rest : Text)
      → read s ≡ some (a, rest)
      → read_list n s ≡ with_first a (read_tail n rest)
  unfolding read_list
  read_list_step n s a rest e = rw (read_list, e) refl

tails : ℕ → List Text → Text
tails separator [] = []
tails separator (s ∷ more) = separator ∷ s ++ tails separator more

join-tails :
    (separator : ℕ) (s : Text) (more : List Text)
    → join separator (s ∷ more) ≡ s ++ tails separator more
unfolding join tails
join-tails separator s [] = sym (append-nil s)
join-tails separator s (next ∷ more) = ap (λ t. s ++ separator ∷ t) (join-tails separator next more)

module _ {ℓ} {A : Type ℓ} (separator : ℕ) (read : Text → Option (A × Text)) (print : A → Text)
    (Good : A → Type 0) (ends : ends_field separator ≡ true)
    (read-print : (a : A) (rest : Text)
      → Good a
      → IsAfterField rest
      → read (print a ++ rest) ≡ some (a, rest)) where
  tails-IsAfterField :
      (l : List A) (rest : Text)
      → IsAfterField rest
      → IsAfterField (tails separator (map print l) ++ rest)
  unfolding tails IsAfterField
  tails-IsAfterField [] rest after = after
  tails-IsAfterField (a ∷ l) rest after = ends

  read_tail-tails :
      (l : List A) (rest : Text)
      → All Good l
      → IsAfterField rest
      → read_tail separator read (length l) (tails separator (map print l) ++ rest) ≡ some (l, rest)
  unfolding read_tail tails with_first
  read_tail-tails [] rest good after = refl
  read_tail-tails (a ∷ l) rest (good, more) after =
      read_tail_step separator read (length l) (print a ++ tails separator (map print l) ++ rest) a
        (tails separator (map print l) ++ rest)
        (ap read (append_assoc (print a) (tails separator (map print l)) rest)
          ∙ read-print a (tails separator (map print l) ++ rest) good
              (tails-IsAfterField l rest after))
      ∙ ap (with_first a) (read_tail-tails l rest more after)

  -- The list that was joined reads back.
  pub read_list-join :
      (a : A) (l : List A) (rest : Text)
      → Good a
      → All Good l
      → IsAfterField rest
      → read_list separator read (length l) (join separator (map print (a ∷ l)) ++ rest)
        ≡ some (a ∷ l, rest)
  unfolding read_list with_first
  read_list-join a l rest good more after =
      read_list_step separator read (length l) (join separator (map print (a ∷ l)) ++ rest) a
        (tails separator (map print l) ++ rest)
        (ap read (
            ap (λ t. t ++ rest) (join-tails separator (print a) (map print l))
            ∙ append_assoc (print a) (tails separator (map print l)) rest)
          ∙ read-print a (tails separator (map print l) ++ rest) good
              (tails-IsAfterField l rest after))
      ∙ ap (with_first a) (read_tail-tails l rest more after)

-- A row of one more column than a number says.
unfoldable pub HasColumns : ℕ → List Text → Type 0
HasColumns n row = (first : Text) × (more : List Text) × (row ≡ first ∷ more) × (length more ≡ n)

print_row : List Text → Text
print_row row = join b'\t' (map escape_tsv_field row)

read_row : ℕ → Text → Option (List Text × Text)
unfolding read_list
read_row n s = read_list b'\t' read_field n s

All-true : (l : List Text) → All (λ _. Unit {0}) l
All-true [] = tt
All-true (a ∷ l) = (tt, All-true l)

read_row-print_row :
    (n : ℕ) (row : List Text) (rest : Text)
    → HasColumns n row
    → IsAfterField rest
    → read_row n (print_row row ++ rest) ≡ some (row, rest)
unfolding read_row print_row HasColumns ends_field
read_row-print_row n row rest (first, more, e, count) after =
    rw (e, ← count)
      (read_list-join b'\t' read_field escape_tsv_field (λ _. Unit) refl
        (λ a rest _ after. read_field-escape_tsv_field a rest after) first more rest tt
        (All-true more) after)

-- The rows of a copied text, by the number of rows and of columns beyond the first.
unfoldable pub read_tsv : (rows columns : ℕ) → Text → Option (List (List Text) × Text)
unfolding read_row read_list
read_tsv rows columns s = read_list b'\n' (read_row columns) rows s

-- The text that is copied reads back as the table of fields, whatever characters the fields hold,
-- when the table has a row, and each row the same number of fields, one at least.
pub read_tsv-format_tsv :
    (columns : ℕ) (first : List Text) (more : List (List Text))
    → HasColumns columns first
    → All (HasColumns columns) more
    → read_tsv (length more) columns (format_tsv (first ∷ more)) ≡ some (first ∷ more, [])
unfolding read_tsv format_tsv ends_field IsAfterField print_row
read_tsv-format_tsv columns first more good all =
    ap (read_list b'\n' (read_row columns) (length more))
      (sym (append-nil (join b'\n' (map print_row (first ∷ more)))))
    ∙ read_list-join b'\n' (read_row columns) print_row (HasColumns columns) refl
        (λ row rest good after. read_row-print_row columns row rest good after) first more [] good
        all tt
