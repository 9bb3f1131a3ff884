-- ===== src/Db/Script/Source.antt =====
-- db/sql_script/reader.rs: the characters of a reader, which is the list of its bytes. A read of
-- these bytes fails only where `read_exact` meets their end.
use astesia.Base.{
  ℕ, zero, suc, ◌+◌, ◌-◌, ◌*◌, Bool, true, false, not, ◌&&◌, ◌||◌, Option, none, some, List, [],
  ◌∷◌, ◌++◌, Outcome, ok, err, panic, ◌>>=◌, ltb, leb, ◌==◌, if◌then◌else◌, get_elem?, length,
}
use astesia.Db.Script.Statement.{Chars, SqlRenderError, invalid_script, PendingStatement, push_char}

abbrev pub contains_nul : SqlRenderError
contains_nul = invalid_script "SQL script must not contain NUL"

abbrev pub invalid_utf8 : SqlRenderError
invalid_utf8 = invalid_script "SQL script must be valid UTF-8"

abbrev pub read_error : SqlRenderError
read_error = invalid_script "Unable to read SQL script: failed to fill whole buffer"

abbrev pub unterminated : SqlRenderError
unterminated = invalid_script "SQL script contains an unterminated quote or comment"

pub record Source : Type 0 where
  pub reader : List ℕ
  pub ahead : Chars
  pub offset : ℕ
  pub before_last : Option ℕ
  pub last : Option ℕ

-- `char::len_utf8`
unfoldable pub len_utf8 : ℕ → ℕ
len_utf8 c = if ltb c 128 then 1 else if ltb c 2048 then 2 else if ltb c 65536 then 3 else 4

-- How many bytes the character has that a byte starts.
unfoldable pub byte_length : ℕ → Outcome SqlRenderError ℕ
byte_length b =
    if b == 0
    then err contains_nul
    else if ltb b 128
    then ok 1
    else if leb 194 b && leb b 223
    then ok 2
    else if leb 224 b && leb b 239
    then ok 3
    else if leb 240 b && leb b 244
    then ok 4
    else err invalid_utf8

-- `Read::read_exact`
unfoldable pub read_exact : ℕ → List ℕ → Outcome SqlRenderError (List ℕ × List ℕ)
read_exact zero bytes = ok ([], bytes)
read_exact (suc n) [] = err read_error
read_exact (suc n) (b ∷ bytes) = do (read, rest) ← read_exact n bytes; ok (b ∷ read, rest)

-- `std::str::from_utf8` on the bytes of one character, and that character.
is_tail : ℕ → Bool
is_tail b = leb 128 b && leb b 191

unfoldable pub from_utf8 : List ℕ → Outcome SqlRenderError ℕ
unfolding is_tail
from_utf8 (a ∷ []) = if ltb a 128 then ok a else err invalid_utf8
from_utf8 (a ∷ b ∷ []) =
    if leb 194 a && leb a 223 && is_tail b
    then ok ((a - 192) * 64 + (b - 128))
    else err invalid_utf8
from_utf8 (a ∷ b ∷ c ∷ []) =
    if leb 224 a
      && leb a 239
      && is_tail b
      && is_tail c
      && (not (a == 224) || leb 160 b)
      && (not (a == 237) || leb b 159)
    then ok ((a - 224) * 4096 + (b - 128) * 64 + (c - 128))
    else err invalid_utf8
from_utf8 (a ∷ b ∷ c ∷ d ∷ []) =
    if leb 240 a
      && leb a 244
      && is_tail b
      && is_tail c
      && is_tail d
      && (not (a == 240) || leb 144 b)
      && (not (a == 244) || leb b 143)
    then ok ((a - 240) * 262144 + (b - 128) * 4096 + (c - 128) * 64 + (d - 128))
    else err invalid_utf8
from_utf8 _ = err invalid_utf8

-- One round of the loop in `peek`: no character at the end of the reader.
unfoldable pub read_char : List ℕ → Outcome SqlRenderError (Option (ℕ × List ℕ))
unfolding byte_length read_exact from_utf8
read_char [] = ok none
read_char (b ∷ bytes) = do
  count ← byte_length b
  (more, rest) ← read_exact (count - 1) bytes
  character ← from_utf8 (b ∷ more)
  ok (some (character, rest))

unfoldable pub pushed : ℕ → List ℕ → Source → Source
pushed character rest s = record s { reader = rest; ahead = s.ahead ++ character ∷ [] }

-- `n` rounds of it.
unfoldable pub fill : ℕ → Source → Outcome SqlRenderError Source
unfolding read_char pushed
fill zero s = ok s
fill (suc n) s = do
  found ← read_char s.reader
  elim found [ none ↦ ok s | some (character, rest) ↦ fill n (pushed character rest s) ]

unfoldable pub peek : ℕ → Source → Outcome SqlRenderError (Option ℕ × Source)
unfolding fill
peek index s = do
  filled ← fill (index + 1 - length s.ahead) s
  ok (get_elem? filled.ahead index, filled)

unfoldable pub pop_front : Chars → Chars
pop_front [] = []
pop_front (_ ∷ s) = s

unfoldable pub popped : ℕ → Source → Source
unfolding pop_front len_utf8
popped character s = record s {
  ahead = pop_front s.ahead;
  offset = s.offset + len_utf8 character;
  before_last = s.last;
  last = some character;
}

unfoldable pub next : Source → Outcome SqlRenderError (Option ℕ × Source)
unfolding peek popped
next s = do
  (found, peeked) ← peek 0 s
  elim found [
    | none ↦ ok (none, peeked)
    | some character ↦ ok (some character, popped character peeked)
  ]

unfoldable pub append :
    Source → PendingStatement → Outcome SqlRenderError (Source × PendingStatement)
unfolding next push_char
append s statement = do
  (found, moved) ← next s
  elim found [
    | none ↦ ok (moved, statement)
    | some character ↦ ok (moved, push_char character s.offset statement)
  ]

-- `for _ in delimiter.chars() { append }`
unfoldable pub append_each :
    Chars → Source → PendingStatement → Outcome SqlRenderError (Source × PendingStatement)
unfolding append
append_each [] s statement = ok (s, statement)
append_each (_ ∷ more) s statement = do
  (moved, grown) ← append s statement
  append_each more moved grown

is_letter : ℕ → Bool
is_letter c = (leb b'a' c && leb c b'z') || (leb b'A' c && leb c b'Z')

is_digit : ℕ → Bool
is_digit c = leb b'0' c && leb c b'9'

-- `!c.is_ascii_alphanumeric() && c != '_'`
unfoldable pub is_boundary : ℕ → Bool
unfolding is_letter is_digit
is_boundary c = not (is_letter c || is_digit c) && not (c == b'_')

pub in_delimiter : ℕ → ℕ → Bool
unfolding is_letter is_digit
in_delimiter index c = c == b'_' || is_letter c || (ltb 1 index && is_digit c)

-- The loop of `dollar_delimiter`, whose fuel is a bound on the characters left.
unfoldable pub delimiter_from :
    ℕ → ℕ → Chars → Source → Outcome SqlRenderError (Option Chars × Source)
unfolding peek in_delimiter
delimiter_from zero index delimiter s = panic
delimiter_from (suc fuel) index delimiter s = do
  (found, peeked) ← peek index s
  elim found [
    | none ↦ ok (none, peeked)
    | some c ↦ elim (c == b'$') [
      | true ↦ ok (some (delimiter ++ c ∷ []), peeked)
      | false ↦ elim (in_delimiter index c) [
        | false ↦ ok (none, peeked)
        | true ↦ delimiter_from fuel (index + 1) (delimiter ++ c ∷ []) peeked
      ]
    ]
  ]

unfoldable pub dollar_delimiter : Source → Outcome SqlRenderError (Option Chars × Source)
unfolding delimiter_from
dollar_delimiter s = delimiter_from (length s.ahead + length s.reader + 1) 1 (b'$' ∷ []) s

unfoldable pub is_char : ℕ → Option ℕ → Bool
is_char c none = false
is_char c (some d) = c == d

-- The loop of `matches`, from an index on.
unfoldable pub matches_from : Chars → ℕ → Source → Outcome SqlRenderError (Bool × Source)
unfolding peek is_char
matches_from [] index s = ok (true, s)
matches_from (c ∷ value) index s = do
  (found, peeked) ← peek index s
  elim (is_char c found) [
    | false ↦ ok (false, peeked)
    | true ↦ matches_from value (index + 1) peeked
  ]

unfoldable pub matches : Chars → Source → Outcome SqlRenderError (Bool × Source)
unfolding matches_from
matches value s = matches_from value 0 s
