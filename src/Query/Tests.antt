-- ===== src/Query/Tests.antt =====
-- application/query_result_selection.rs: a result of two rows, and the theorems at it.
use Prim.Native.Char.{code}
use astesia.Base.{ℕ, ◌≡◌, ◌≢◌, refl, true, false, some, [], ◌∷◌, ok, panic, String}
use astesia.Query.Selection.{Text, ResultCell, cells, JsonText, StatementResult, to_tsv, format_tsv}
use astesia.Query.Copying.{read_tsv, read_tsv-format_tsv, HasColumns}
use astesia.Query.Bounds.{to_tsv_lem}

abbrev codes : String → Text
codes String.[] = []
codes (String.◌∷◌ c s) = code c ∷ codes s

-- Every value is a string.
abbrev strings : JsonText Text
strings = record { is_null = λ _. false; as_str = λ value. some value; to_string = λ value. value }

abbrev two_rows : StatementResult Text
two_rows = record {
  columns = codes "id" ∷ codes "note" ∷ [];
  rows = (codes "1" ∷ codes "a\tb" ∷ []) ∷ (codes "2" ∷ codes "say \"hi\"" ∷ []) ∷ [];
}

abbrev at : ℕ → ℕ → ResultCell
at row column = record { row = row; column = column }

copied :
    to_tsv strings (cells (at 1 1) (at 0 0)) two_rows true
    ≡ ok (codes "id\tnote\n1\t\"a\tb\"\n2\t\"say \"\"hi\"\"\"")
unfolding to_tsv
copied = refl

read_tsv-format_tsv_example :
    read_tsv 1 1 (format_tsv ((codes "1" ∷ codes "a\tb" ∷ []) ∷ (codes "2" ∷ codes "\"" ∷ []) ∷ []))
    ≡ some ((codes "1" ∷ codes "a\tb" ∷ []) ∷ (codes "2" ∷ codes "\"" ∷ []) ∷ [], [])
unfolding HasColumns
read_tsv-format_tsv_example =
    read_tsv-format_tsv 1 (codes "1" ∷ codes "a\tb" ∷ []) ((codes "2" ∷ codes "\"" ∷ []) ∷ [])
      (codes "1", codes "a\tb" ∷ [], refl, refl) ((codes "2", codes "\"" ∷ [], refl, refl), tt)

to_tsv_lem_example : to_tsv strings (cells (at 5 1) (at 0 0)) two_rows true ≢ panic
to_tsv_lem_example = to_tsv_lem strings (cells (at 5 1) (at 0 0)) two_rows true
