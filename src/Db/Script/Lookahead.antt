-- ===== src/Db/Script/Lookahead.antt =====
-- db/sql_script/reader.rs: `dollar_delimiter` and `matches` only read ahead.
use astesia.Base.{
  ℕ, zero, suc, ◌+◌, ◌≤◌, ◌<◌, ◌≡◌, refl, true, false, Option, none, some, List, [], ◌∷◌, ◌++◌,
  arith, ok, ◌==◌, Returns, Returns->>=, Returns-imp, Returns-elim, sym, length, get_elem?,
  get_elem?_lt,
}
use astesia.Db.Script.Statement.{Chars}
use astesia.Db.Script.Source.{
  Source, peek, delimiter_from, dollar_delimiter, in_delimiter, matches_from, matches, is_char,
}
use astesia.Db.Script.Reading.{IsAt, Stays, Stays-trans, left, peek_lem, length-snoc}

-- A delimiter that is found is not empty.
abbrev pub HasText : Option Chars → Type 0
HasText none = Unit
HasText (some delimiter) = 0 < length delimiter

abbrev pub Delimits : List ℕ → Source → (Option Chars × Source) → Type 0
Delimits bytes s (found, moved) = Stays bytes s moved × HasText found

module _ (bytes : List ℕ) where
  delimiter_from_lem :
      (fuel index : ℕ) (delimiter : Chars) (s : Source)
      → IsAt bytes s
      → left s + 1 < fuel + index
      → index ≤ left s + 1
      → Returns (Delimits bytes s) (delimiter_from fuel index delimiter s)
  unfolding delimiter_from
  delimiter_from_lem zero index delimiter s at enough low = absurd (omega arith)
  delimiter_from_lem (suc fuel) index delimiter s at enough low =
      Returns->>= _ _ (peek index s) _ (peek_lem bytes index s at) (λ (found, peeked) (stays, e).
        go (λ i d t. delimiter_from_lem fuel i d t) found peeked stays e)
    where
      go :
          ((i : ℕ) (d : Chars) (t : Source)
            → IsAt bytes t
            → left t + 1 < fuel + i
            → i ≤ left t + 1
            → Returns (Delimits bytes t) (delimiter_from fuel i d t))
          → (found : Option ℕ) (peeked : Source) → Stays bytes s peeked
          → found ≡ get_elem? peeked.ahead index
          → Returns (Delimits bytes s) (elim found [
            | none ↦ ok (none, peeked)
            | some c ↦ elim (c == b'$') [
              | true ↦ ok (some (delimiter ++ c ∷ []), peeked)
              | false ↦ elim (in_delimiter index c) [
                | false ↦ ok (none, peeked)
                | true ↦ delimiter_from fuel (index + 1) (delimiter ++ c ∷ []) peeked
              ]
            ]
          ])
      go ih none peeked stays e = (stays, tt)
      go ih (some c) peeked stays e =
          Returns-elim _ (c == b'$') _ _ (λ _. (stays, omega (arith, length-snoc delimiter c)))
            (λ _.
              Returns-elim _ (in_delimiter index c) _ _
                (λ _.
                  let inside : index < length peeked.ahead =
                    get_elem?_lt peeked.ahead index (sym e) in
                  Returns-imp _ _ (delimiter_from fuel (index + 1) (delimiter ++ c ∷ []) peeked)
                    (λ (_, moved) (further, some_text).
                      (Stays-trans bytes s peeked moved stays further, some_text))
                    (ih (index + 1) (delimiter ++ c ∷ []) peeked stays.0 (omega (arith, stays.2))
                      (omega arith)))
                (λ _. (stays, tt)))

  pub dollar_delimiter_lem :
      (s : Source) → IsAt bytes s → Returns (Delimits bytes s) (dollar_delimiter s)
  unfolding dollar_delimiter
  dollar_delimiter_lem s at =
      delimiter_from_lem (left s + 1) 1 (b'$' ∷ []) s at (omega arith) (omega arith)

  matches_from_lem :
      (value : Chars) (index : ℕ) (s : Source)
      → IsAt bytes s
      → Returns (λ (_, moved). Stays bytes s moved) (matches_from value index s)
  unfolding matches_from
  matches_from_lem [] index s at = (at, refl, omega arith, omega arith)
  matches_from_lem (c ∷ value) index s at =
      Returns->>= _ _ (peek index s) _ (peek_lem bytes index s at) (λ (found, peeked) (stays, _).
        Returns-elim _ (is_char c found) _ _
          (λ _.
            Returns-imp _ _ (matches_from value (index + 1) peeked)
              (λ (_, moved) further. Stays-trans bytes s peeked moved stays further)
              (matches_from_lem value (index + 1) peeked stays.0))
          (λ _. stays))

  pub matches_lem :
      (value : Chars) (s : Source)
      → IsAt bytes s
      → Returns (λ (_, moved). Stays bytes s moved) (matches value s)
  unfolding matches
  matches_lem value s at = matches_from_lem value 0 s at
