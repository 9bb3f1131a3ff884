-- ===== src/Query/Escaping.antt =====
-- application/query_result_selection.rs: what a reader of tab-separated text makes of the fields.
use astesia.Base.{
  ℕ, ◌≡◌, refl, ap, sym, ◌∙◌, Bool, true, false, ◌||◌, Option, none, some, [], ◌∷◌, ◌++◌, ◌==◌,
  ==_iff, Bool-cases, inl, inr, arith,
}
use mathlib.Core.List.{append_assoc}
use astesia.Query.Selection.{Text, is_special, contains_special, doubled, escape_tsv_field}

-- A character goes in front of the text that is read from the rest.
pushed : ℕ → Option (Text × Text) → Option (Text × Text)
pushed c none = none
pushed c (some (text, rest)) = some (c ∷ text, rest)

-- A quoted text from its opening quote on, after a quote or not: two quotes stand for one, and the
-- first single one ends the text.
quoted : Bool → Text → Option (Text × Text)
unfolding pushed
quoted false [] = none
quoted true [] = some ([], [])
quoted false (c ∷ s) = elim (c == b'"') [ true ↦ quoted true s | false ↦ pushed c (quoted false s) ]
quoted true (c ∷ s) = elim (c == b'"') [
  | true ↦ pushed b'"' (quoted false s)
  | false ↦ some ([], c ∷ s)
]

unfoldable pub ends_field : ℕ → Bool
ends_field c = c == b'\t' || c == b'\n'

plain : Text → Text × Text
unfolding ends_field
plain [] = ([], [])
plain (c ∷ s) = elim (ends_field c) [
  | true ↦ ([], c ∷ s)
  | false ↦ let (text, rest) = plain s in (c ∷ text, rest)
]

-- One field at the start of a text, and what follows it.
unfoldable pub read_field : Text → Option (Text × Text)
unfolding quoted plain
read_field [] = some ([], [])
read_field (c ∷ s) = elim (c == b'"') [ true ↦ quoted false s | false ↦ some (plain (c ∷ s)) ]

-- What follows a field: the end of the text, a tab or a line's end.
unfoldable pub IsAfterField : Text → Type 0
unfolding ends_field
IsAfterField [] = Unit
IsAfterField (c ∷ s) = ends_field c ≡ true

module _ (c : ℕ) (s : Text) (e : (c == b'"') ≡ false) where
  quoted_end : quoted true (c ∷ s) ≡ some ([], c ∷ s)
  unfolding quoted
  quoted_end = rw (quoted, e) refl

  quoted_next : quoted false (c ∷ s) ≡ pushed c (quoted false s)
  unfolding quoted
  quoted_next = rw (quoted, e) refl

  doubled_other : doubled (c ∷ s) ≡ c ∷ doubled s
  unfolding doubled
  doubled_other = rw e refl

doubled_quote : (c : ℕ) (s : Text) → (c == b'"') ≡ true → doubled (c ∷ s) ≡ b'"' ∷ b'"' ∷ doubled s
unfolding doubled
doubled_quote c s e = rw e refl

after_quote : (rest : Text) → IsAfterField rest → quoted true rest ≡ some ([], rest)
unfolding quoted IsAfterField ends_field
after_quote [] after = refl
after_quote (c ∷ rest) after = quoted_end c rest (grind arith)

-- A quoted field ends at its own quote.
quoted-doubled :
    (value rest : Text)
    → IsAfterField rest
    → quoted false (doubled value ++ b'"' ∷ rest) ≡ some (value, rest)
unfolding quoted pushed doubled
quoted-doubled [] rest after = after_quote rest after
quoted-doubled (c ∷ value) rest after = elim (Bool-cases (c == b'"')) [
  | inl quote ↦
      let same : c ≡ b'"' = (==_iff c b'"').0 quote in
      ap (λ t. quoted false (t ++ b'"' ∷ rest)) (doubled_quote c value quote)
      ∙ ap (pushed b'"') (quoted-doubled value rest after)
      ∙ ap (λ d. some (d ∷ value, rest)) (sym same)
  | inr other ↦
      ap (λ t. quoted false (t ++ b'"' ∷ rest)) (doubled_other c value other)
      ∙ quoted_next c (doubled value ++ b'"' ∷ rest) other
      ∙ ap (pushed c) (quoted-doubled value rest after)
]

plain_end : (rest : Text) → IsAfterField rest → plain rest ≡ ([], rest)
unfolding plain IsAfterField
plain_end [] after = refl
plain_end (c ∷ rest) after = rw (plain, after) refl

plain_next :
    (c : ℕ) (s : Text) → ends_field c ≡ false → plain (c ∷ s) ≡ (c ∷ (plain s).0, (plain s).1)
unfolding plain
plain_next c s e = rw (plain, e) refl

ends_field_special : (c : ℕ) → is_special c ≡ false → ends_field c ≡ false
unfolding ends_field is_special
ends_field_special c h = grind arith

quote_special : (c : ℕ) → is_special c ≡ false → (c == b'"') ≡ false
unfolding is_special
quote_special c h = grind arith

plain_text :
    (value rest : Text)
    → contains_special value ≡ false
    → IsAfterField rest
    → plain (value ++ rest) ≡ (value, rest)
unfolding plain contains_special
plain_text [] rest none_special after = plain_end rest after
plain_text (c ∷ value) rest none_special after =
    let inside : ends_field c ≡ false = ends_field_special c (grind arith) in
    let more : contains_special value ≡ false = grind arith in
    plain_next c (value ++ rest) inside
    ∙ ap (λ (t : Text × Text). (c ∷ t.0, t.1)) (plain_text value rest more after)

read_field-quoted :
    (value rest : Text)
    → IsAfterField rest
    → read_field (b'"' ∷ doubled value ++ b'"' ∷ rest) ≡ some (value, rest)
unfolding read_field
read_field-quoted value rest after = quoted-doubled value rest after

read_field_unquoted :
    (c : ℕ) (s : Text) → (c == b'"') ≡ false → read_field (c ∷ s) ≡ some (plain (c ∷ s))
unfolding read_field
read_field_unquoted c s e = rw (read_field, e) refl

read_field-plain :
    (value rest : Text)
    → contains_special value ≡ false
    → IsAfterField rest
    → read_field (value ++ rest) ≡ some (value, rest)
unfolding read_field contains_special IsAfterField ends_field
read_field-plain [] [] none_special after = refl
read_field-plain [] (c ∷ rest) none_special after =
    read_field_unquoted c rest (grind arith) ∙ ap some (plain_end (c ∷ rest) after)
read_field-plain (c ∷ value) rest none_special after =
    read_field_unquoted c (value ++ rest) (quote_special c (grind arith))
    ∙ ap some (plain_text (c ∷ value) rest none_special after)

-- A field that was escaped reads back as it was, and the text behind it is left: the end, a tab or
-- a line's end.
pub read_field-escape_tsv_field :
    (value rest : Text)
    → IsAfterField rest
    → read_field (escape_tsv_field value ++ rest) ≡ some (value, rest)
unfolding escape_tsv_field
read_field-escape_tsv_field value rest after = elim (Bool-cases (contains_special value)) [
  | inl special ↦ rw special (
      ap read_field (ap (λ t. b'"' ∷ t) (append_assoc (doubled value) (b'"' ∷ []) rest))
      ∙ read_field-quoted value rest after)
  | inr none_special ↦ rw none_special (read_field-plain value rest none_special after)
]
