-- ===== src/Db/Script/Reading.antt =====
-- db/sql_script/reader.rs: where in the bytes a source stands.
use mathlib.Core.Path.{◌≡◌, refl, sym, ap, subst, ◌∙◌}
use astesia.Base.{
  ℕ, zero, suc, ◌+◌, ◌-◌, ◌≤◌, ◌<◌, Option, none, some, List, [], ◌∷◌, ◌++◌, arith, ok, Returns,
  Returns->>=, Returns-eq, Returns-imp, length, get_elem?,
}
use astesia.Db.Script.Statement.{Chars, SqlRenderError, drop}
use astesia.Db.Script.Source.{
  Source, len_utf8, byte_length, read_exact, from_utf8, read_char, fill, peek, next, pop_front,
  pushed, popped,
}

byte_length_lem : (b : ℕ) → Returns (λ n. 0 < n) (byte_length b)
unfolding byte_length
byte_length_lem b = ground arith

read_exact_lem :
    (n : ℕ) (bytes : List ℕ)
    → Returns
        (λ (read, rest). (rest ≡ drop n bytes) × (length read ≡ n) × (length rest ≤ length bytes))
        (read_exact n bytes)
unfolding read_exact drop
read_exact_lem zero bytes = (refl, refl, omega arith)
read_exact_lem (suc n) [] = tt
read_exact_lem (suc n) (b ∷ bytes) =
    Returns->>= _ _ (read_exact n bytes) _ (read_exact_lem n bytes)
      (λ r h. (h.0, omega (arith, h.1), omega (arith, h.2)))

pub len_utf8_pos : (c : ℕ) → 0 < len_utf8 c
unfolding len_utf8
len_utf8_pos c = ground arith

from_utf8_lem : (bytes : List ℕ) → Returns (λ c. len_utf8 c ≡ length bytes) (from_utf8 bytes)
unfolding from_utf8 len_utf8
from_utf8_lem [] = tt
from_utf8_lem (a ∷ []) = ground arith
from_utf8_lem (a ∷ b ∷ []) = ground arith
from_utf8_lem (a ∷ b ∷ c ∷ []) = ground arith
from_utf8_lem (a ∷ b ∷ c ∷ d ∷ []) = ground arith
from_utf8_lem (a ∷ b ∷ c ∷ d ∷ e ∷ more) = tt

-- What `read_char` gives for the bytes.
abbrev IsFirst : List ℕ → Option (ℕ × List ℕ) → Type 0
IsFirst bytes none = Unit
IsFirst bytes (some (c, rest)) = (rest ≡ drop (len_utf8 c) bytes) × (length rest < length bytes)

read_char_lem : (bytes : List ℕ) → Returns (IsFirst bytes) (read_char bytes)
unfolding read_char drop
read_char_lem [] = tt
read_char_lem (b ∷ bytes) = Returns->>= _ _ (byte_length b) _ (byte_length_lem b) (λ n _.
    Returns->>= _ _ (read_exact (n - 1) bytes) _ (read_exact_lem (n - 1) bytes) (λ (more, rest) h.
      Returns->>= _ _ (from_utf8 (b ∷ more)) _ (from_utf8_lem (b ∷ more))
        (λ c size. (rw (size, h.1) h.0, omega (arith, h.2)))))

-- The characters of a list stand one after another at the start of the bytes, before the rest.
pub Reads : List ℕ → Chars → List ℕ → Type 0
Reads bytes [] rest = bytes ≡ rest
Reads bytes (c ∷ s) rest =
    (read_char bytes ≡ ok (some (c, drop (len_utf8 c) bytes)))
    × Reads (drop (len_utf8 c) bytes) s rest

-- A source stands in the bytes at its offset.
unfoldable pub IsAt : List ℕ → Source → Type 0
unfolding Reads
IsAt bytes s = Reads (drop s.offset bytes) s.ahead s.reader

-- The characters and bytes that are left, at most.
abbrev pub left : Source → ℕ
left s = length s.ahead + length s.reader

pub start-IsAt :
    (bytes : List ℕ)
    → IsAt bytes
        (record { reader = bytes; ahead = []; offset = 0; before_last = none; last = none })
unfolding IsAt drop
start-IsAt bytes = refl

Reads-snoc :
    (bytes : List ℕ) (s : Chars) (rest : List ℕ) (c : ℕ)
    → Reads bytes s rest
    → read_char rest ≡ ok (some (c, drop (len_utf8 c) rest))
    → Reads bytes (s ++ c ∷ []) (drop (len_utf8 c) rest)
unfolding Reads
Reads-snoc bytes [] rest c r e = (rw r e, rw r)
Reads-snoc bytes (d ∷ s) rest c (first, r) e =
    (first, Reads-snoc (drop (len_utf8 d) bytes) s rest c r e)

pub length-snoc : (s : Chars) (c : ℕ) → length (s ++ c ∷ []) ≡ length s + 1
length-snoc [] c = refl
length-snoc (d ∷ s) c = omega (arith, length-snoc s c)

-- A source that reads ahead stays where it is.
abbrev pub Stays : List ℕ → Source → Source → Type 0
Stays bytes s moved =
    IsAt bytes moved
    × (moved.offset ≡ s.offset)
    × (left moved ≤ left s)
    × (length s.ahead ≤ length moved.ahead)

pub Stays-trans :
    (bytes : List ℕ) (a b c : Source) → Stays bytes a b → Stays bytes b c → Stays bytes a c
Stays-trans bytes a b c (at, e, h, l) (at', e', h', l') =
    (at', cc (e, e'), omega (arith, h, h'), omega (arith, l, l'))

pushed_lem :
    (bytes : List ℕ) (s : Source) (c : ℕ) (rest : List ℕ)
    → IsAt bytes s
    → read_char s.reader ≡ ok (some (c, rest))
    → (rest ≡ drop (len_utf8 c) s.reader) × (length rest < length s.reader)
    → Stays bytes s (pushed c rest s)
unfolding IsAt pushed
pushed_lem bytes s c rest at e (next_rest, shorter) =
    let longer = length-snoc s.ahead c in
    (
      rw next_rest (Reads-snoc (drop s.offset bytes) s.ahead s.reader c at (rw (← next_rest) e)),
      refl,
      omega (arith, shorter, longer),
      omega (arith, longer),
    )

fill_found :
    (bytes : List ℕ) (n : ℕ) (s : Source) (found : Option (ℕ × List ℕ))
    → ((t : Source) → IsAt bytes t → Returns (Stays bytes t) (fill n t))
    → IsAt bytes s
    → read_char s.reader ≡ ok found
    → IsFirst s.reader found
    → Returns
        (Stays bytes s)
        (elim found [ none ↦ ok s | some (character, rest) ↦ fill n (pushed character rest s) ])
fill_found bytes n s none ih at e h = (at, refl, omega arith, omega arith)
fill_found bytes n s (some (c, rest)) ih at e h =
    let moved = pushed_lem bytes s c rest at e h in
    Returns-imp _ _ (fill n (pushed c rest s))
      (λ t stays. Stays-trans bytes s (pushed c rest s) t moved stays)
      (ih (pushed c rest s) moved.0)

fill_lem : (bytes : List ℕ) (n : ℕ) (s : Source) → IsAt bytes s → Returns (Stays bytes s) (fill n s)
unfolding fill
fill_lem bytes zero s at = (at, refl, omega arith, omega arith)
fill_lem bytes (suc n) s at =
    Returns->>= _ _ (read_char s.reader) _
      (Returns-eq _ (read_char s.reader) (read_char_lem s.reader))
      (λ found (e, h). fill_found bytes n s found (λ t. fill_lem bytes n t) at e h)

-- What `peek` finds is the character ahead at the index.
pub peek_lem :
    (bytes : List ℕ) (index : ℕ) (s : Source)
    → IsAt bytes s
    → Returns
        (λ (found, peeked). Stays bytes s peeked × (found ≡ get_elem? peeked.ahead index))
        (peek index s)
unfolding peek
peek_lem bytes index s at =
    Returns->>= _ _ (fill (index + 1 - length s.ahead) s) _ (fill_lem bytes _ s at)
      (λ filled stays. (stays, refl))

-- What `next` gives: nothing, or the character that stands at the offset.
abbrev pub Nexts : List ℕ → Source → Option ℕ → Source → Type 0
Nexts bytes s none moved = Stays bytes s moved × (length s.ahead ≡ 0)
Nexts bytes s (some c) moved =
    IsAt bytes moved
    × (moved.offset ≡ s.offset + len_utf8 c)
    × (left moved < left s)
    × (read_char (drop s.offset bytes) ≡ ok (some (c, drop moved.offset bytes)))

drop-nil : (n : ℕ) → drop n [] ≡ []
unfolding drop
drop-nil zero = refl
drop-nil (suc n) = refl

drop-drop : (m n : ℕ) (bytes : List ℕ) → drop m (drop n bytes) ≡ drop (n + m) bytes
unfolding drop
drop-drop m zero bytes = ap (λ k. drop k bytes) (omega arith)
drop-drop m (suc n) [] = drop-nil m ∙ sym (drop-nil (suc n + m))
drop-drop m (suc n) (b ∷ bytes) =
    let e : suc n + m ≡ suc (n + m) = omega arith in rw e (drop-drop m n bytes)

front : (s : Chars) (c : ℕ) → some c ≡ get_elem? s 0 → s ≡ c ∷ pop_front s
unfolding pop_front
front [] c e = absurd (cc)
front (d ∷ s) c e = cc

ahead_nil : (s : Chars) → none ≡ get_elem? s 0 → length s ≡ 0
ahead_nil [] e = refl
ahead_nil (c ∷ s) e = absurd (cc)

popped_lem :
    (bytes : List ℕ) (s peeked : Source) (c : ℕ)
    → Stays bytes s peeked
    → some c ≡ get_elem? peeked.ahead 0
    → Nexts bytes s (some c) (popped c peeked)
unfolding IsAt popped Reads
popped_lem bytes s peeked c (at, same, shorter, more) e =
    let split : peeked.ahead ≡ c ∷ pop_front peeked.ahead = front peeked.ahead c e in
    let reads : Reads (drop peeked.offset bytes) (c ∷ pop_front peeked.ahead) peeked.reader =
      subst (λ x. Reads (drop peeked.offset bytes) x peeked.reader) split at in
    let joined = drop-drop (len_utf8 c) peeked.offset bytes in
    let shorter_by : length peeked.ahead ≡ suc (length (pop_front peeked.ahead)) =
      ap length split in
    (
      rw (← joined) reads.1,
      cc same,
      omega (arith, shorter, shorter_by),
      rw (← same, ← joined) reads.0,
    )

next_found :
    (bytes : List ℕ) (s peeked : Source) (found : Option ℕ)
    → Stays bytes s peeked
    → found ≡ get_elem? peeked.ahead 0
    → Returns {E = SqlRenderError}
        (λ (o, moved). Nexts bytes s o moved)
        (elim found [
          | none ↦ ok (none, peeked)
          | some character ↦ ok (some character, popped character peeked)
        ])
next_found bytes s peeked none stays e = (stays, omega (arith, stays.3, ahead_nil peeked.ahead e))
next_found bytes s peeked (some c) stays e = popped_lem bytes s peeked c stays e

pub next_lem :
    (bytes : List ℕ) (s : Source)
    → IsAt bytes s
    → Returns (λ (o, moved). Nexts bytes s o moved) (next s)
unfolding next
next_lem bytes s at =
    Returns->>= _ _ (peek 0 s) _ (peek_lem bytes 0 s at)
      (λ (found, peeked) (stays, e). next_found bytes s peeked found stays e)
