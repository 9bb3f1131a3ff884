-- ===== src/Db/Script/Starts.antt =====
-- db/sql_script.rs: where the statement that is being collected starts.
use astesia.Base.{
  ℕ, ◌≤◌, ◌<◌, ◌≡◌, refl, ◌∙◌, true, false, not, ◌&&◌, is_some, Option, none, some, List, [], ◌∷◌,
  ◌++◌, arith, ok, Returns, Returns->>=, Returns-imp, Bool-cases, inl, inr, length, if◌then◌else◌,
}
use astesia.Base.Text.{is_space}
use astesia.Db.Script.Statement.{
  Chars, SqlRenderError, SqlStatement, PendingStatement, empty_pending, push_char, take, separator,
  separated, last_char, drop,
}
use astesia.Db.Script.Source.{Source, append, append_each, read_char, next}
use astesia.Db.Script.Reading.{IsAt, left, next_lem, Nexts, len_utf8_pos}
use astesia.Db.Script.Trim.{
  first_visible, first_visible-visible, first_visible-space, EndsVisibly, trimmed, trimmed_lem,
  trim_end-blank,
}

-- A character stands in the bytes at an offset.
unfoldable pub CharAt : List ℕ → ℕ → ℕ → Type 0
CharAt bytes k c = (rest : List ℕ) × (read_char (drop k bytes) ≡ ok (some (c, rest)))

-- What a statement of a script is: trimmed text that is not blank, whose first character stands
-- in the bytes at the statement's start.
unfoldable pub IsStatement : List ℕ → SqlStatement → Type 0
unfolding CharAt EndsVisibly
IsStatement bytes statement =
    (c : ℕ) × (is_space c ≡ false)
    × CharAt bytes statement.source_start c
    × ((rest : Chars) × (statement.sql ≡ c ∷ rest))
    × EndsVisibly statement.sql

abbrev StartsIn : List ℕ → ℕ → ℕ → Chars → Option ℕ → Type 0
StartsIn bytes lo hi sql none = first_visible sql ≡ none
StartsIn bytes lo hi sql (some k) =
    (c : ℕ) × (first_visible sql ≡ some c) × CharAt bytes k c × (lo ≤ k) × (k < hi)

-- The statement starts, if it has, in the bytes between two offsets.
unfoldable pub IsPending : List ℕ → ℕ → ℕ → PendingStatement → Type 0
unfolding CharAt first_visible
IsPending bytes lo hi p = (lo ≤ hi) × StartsIn bytes lo hi p.sql p.source_start

first_visible-++_none :
    (s t : Chars) → first_visible s ≡ none → first_visible (s ++ t) ≡ first_visible t
unfolding first_visible
first_visible-++_none [] t e = refl
first_visible-++_none (c ∷ s) t e = ground (arith, first_visible-++_none s t)

first_visible-++_some :
    (s t : Chars) (c : ℕ) → first_visible s ≡ some c → first_visible (s ++ t) ≡ some c
unfolding first_visible
first_visible-++_some [] t c e = absurd (cc)
first_visible-++_some (d ∷ s) t c e = ground (arith, first_visible-++_some s t c)

first_visible_space : (s : Chars) (c : ℕ) → first_visible s ≡ some c → is_space c ≡ false
unfolding first_visible
first_visible_space [] c e = absurd (cc)
first_visible_space (d ∷ s) c e = ground (arith, first_visible_space s c)

module _ (bytes : List ℕ) (lo : ℕ) where
  StartsIn-later :
      (hi hi' : ℕ) (sql : Chars) (start : Option ℕ)
      → hi ≤ hi'
      → StartsIn bytes lo hi sql start
      → StartsIn bytes lo hi' sql start
  StartsIn-later hi hi' sql none h starts = starts
  StartsIn-later hi hi' sql (some k) h (c, e, at, l, u) = (c, e, at, l, omega (arith, u))

  StartsIn-space :
      (hi c : ℕ) (sql : Chars) (start : Option ℕ)
      → is_space c ≡ true
      → StartsIn bytes lo hi sql start
      → StartsIn bytes lo hi (sql ++ c ∷ []) start
  unfolding first_visible
  StartsIn-space hi c sql none space e =
      first_visible-++_none sql (c ∷ []) e ∙ first_visible-space c [] space
  StartsIn-space hi c sql (some k) space (d, e, at, l, u) =
      (d, first_visible-++_some sql (c ∷ []) d e, at, l, u)

  StartsIn-visible :
      (k hi c : ℕ) (sql : Chars) (start : Option ℕ)
      → is_space c ≡ false
      → CharAt bytes k c
      → lo ≤ k
      → k < hi
      → StartsIn bytes lo k sql start
      → StartsIn bytes lo hi (sql ++ c ∷ []) (if not (is_some start) && true then some k else start)
  StartsIn-visible k hi c sql none visible at low h e =
      (c, first_visible-++_none sql (c ∷ []) e ∙ first_visible-visible c [] visible, at, low, h)
  StartsIn-visible k hi c sql (some j) visible at low h (d, e, at', l, u) =
      (d, first_visible-++_some sql (c ∷ []) d e, at', l, omega (arith, u))

  pub IsPending-later :
      (hi hi' : ℕ) (p : PendingStatement)
      → hi ≤ hi'
      → IsPending bytes lo hi p
      → IsPending bytes lo hi' p
  unfolding IsPending
  IsPending-later hi hi' p h (low, starts) =
      (omega (arith, low), StartsIn-later hi hi' p.sql p.source_start h starts)

  pub push_char-IsPending :
      (k hi c : ℕ) (p : PendingStatement)
      → (is_space c ≡ false → CharAt bytes k c)
      → k < hi
      → IsPending bytes lo k p
      → IsPending bytes lo hi (push_char c k p)
  unfolding IsPending push_char
  push_char-IsPending k hi c p at h (low, starts) = elim (Bool-cases (is_space c)) [
    | inl space ↦
        let off : (not (is_some p.source_start) && not (is_space c)) ≡ false = grind arith in
        (
          omega (arith, low),
          rw off (
              StartsIn-later k hi (p.sql ++ c ∷ []) p.source_start (omega arith)
                (StartsIn-space k c p.sql p.source_start space starts)),
        )
    | inr visible ↦ (
      omega (arith, low),
      rw visible (StartsIn-visible k hi c p.sql p.source_start visible (at visible) low h starts),
    )
  ]

  pub push_newline-IsPending :
      (k : ℕ) (p : PendingStatement)
      → IsPending bytes lo k p
      → IsPending bytes lo k (push_char b'\n' k p)
  unfolding IsPending push_char is_space
  push_newline-IsPending k p (low, starts) =
      let off : (not (is_some p.source_start) && false) ≡ false = grind arith in
      (low, rw off (StartsIn-space k b'\n' p.sql p.source_start refl starts))

  separated-IsPending :
      (hi : ℕ) (o : Option ℕ) (p : PendingStatement)
      → IsPending bytes lo hi p
      → IsPending bytes lo hi (separated o p)
  unfolding separated IsPending is_space
  separated-IsPending hi none p h = h
  separated-IsPending hi (some c) p (low, starts) =
      elim (is_space c)
        as (λ b. IsPending bytes lo hi (if b then p else record p { sql = p.sql ++ b' ' ∷ [] })) [
          | true ↦ (low, starts)
          | false ↦ (low, StartsIn-space hi b' ' p.sql p.source_start refl starts)
        ]

  pub separator-IsPending :
      (hi : ℕ) (p : PendingStatement)
      → IsPending bytes lo hi p
      → IsPending bytes lo hi (separator p)
  unfolding separator
  separator-IsPending hi p h = separated-IsPending hi (last_char p.sql) p h

pub empty-IsPending : (bytes : List ℕ) (lo hi : ℕ) → lo ≤ hi → IsPending bytes lo hi empty_pending
unfolding IsPending
empty-IsPending bytes lo hi low = (low, refl)

pub IsPending-le :
    (bytes : List ℕ) (lo hi : ℕ) (p : PendingStatement) → IsPending bytes lo hi p → lo ≤ hi
unfolding IsPending
IsPending-le bytes lo hi p h = h.0

-- What `take` gives: nothing, or a statement that starts between the offsets.
abbrev pub Takes : List ℕ → ℕ → ℕ → Option SqlStatement → Type 0
Takes bytes lo hi none = Unit
Takes bytes lo hi (some statement) =
    IsStatement bytes statement × (lo ≤ statement.source_start) × (statement.source_start < hi)

trimmed-IsStatement :
    (bytes : List ℕ) (sql : Chars) (k c : ℕ)
    → first_visible sql ≡ some c
    → CharAt bytes k c
    → ((rest : Chars) × (trimmed sql ≡ c ∷ rest)) × EndsVisibly (trimmed sql)
    → IsStatement bytes (record { sql = trimmed sql; source_start = k })
unfolding IsStatement
trimmed-IsStatement bytes sql k c e at (first, ends) =
    (c, first_visible_space sql c e, at, first, ends)

-- The text of a statement that starts is not blank, so that `take` does not panic.
take_from :
    (bytes : List ℕ) (lo hi : ℕ) (sql : Chars) (start : Option ℕ)
    → StartsIn bytes lo hi sql start
    → Returns {E = SqlRenderError}
        (Takes bytes lo hi)
        (take (record { sql = sql; source_start = start }))
unfolding take trimmed
take_from bytes lo hi sql none blank = rw (take, Returns, trim_end-blank sql blank) tt
take_from bytes lo hi sql (some k) (c, e, at, l, u) =
    let trim = trimmed_lem sql c e in
    rw (take, Returns, trim.0) (trimmed-IsStatement bytes sql k c e at (trim.1, trim.2), l, u)

pub take_lem :
    (bytes : List ℕ) (lo hi : ℕ) (p : PendingStatement)
    → IsPending bytes lo hi p
    → Returns {E = SqlRenderError} (Takes bytes lo hi) (take p)
unfolding IsPending
take_lem bytes lo hi p (low, starts) = take_from bytes lo hi p.sql p.source_start starts

-- A character is appended, if there is one.
abbrev pub Appends : List ℕ → ℕ → Source → (Source × PendingStatement) → Type 0
Appends bytes lo s (moved, grown) =
    IsAt bytes moved
    × IsPending bytes lo moved.offset grown
    × (left moved ≤ left s)
    × (0 < length s.ahead → left moved < left s)

append_found :
    (bytes : List ℕ) (lo : ℕ) (s moved : Source) (p : PendingStatement) (found : Option ℕ)
    → IsPending bytes lo s.offset p
    → Nexts bytes s found moved
    → Returns {E = SqlRenderError} (Appends bytes lo s) (elim found [
      | none ↦ ok (moved, p)
      | some character ↦ ok (moved, push_char character s.offset p)
    ])
unfolding CharAt
append_found bytes lo s moved p none h (stays, nil) =
    (stays.0, rw stays.1 h, stays.2, λ some_ahead. absurd (omega arith))
append_found bytes lo s moved p (some c) h (at, next, less, here) = (
  at,
  push_char-IsPending bytes lo s.offset moved.offset c p (λ _. (_, here))
      (omega (arith, next, len_utf8_pos c)) h,
  omega (arith, less),
  λ _. less,
)

pub append_lem :
    (bytes : List ℕ) (lo : ℕ) (s : Source) (p : PendingStatement)
    → IsAt bytes s
    → IsPending bytes lo s.offset p
    → Returns (Appends bytes lo s) (append s p)
unfolding append
append_lem bytes lo s p at h =
    Returns->>= _ _ (next s) _ (next_lem bytes s at)
      (λ (found, moved) nexts. append_found bytes lo s moved p found h nexts)

pub append_each_lem :
    (bytes : List ℕ) (lo : ℕ) (delimiter : Chars) (s : Source) (p : PendingStatement)
    → IsAt bytes s
    → IsPending bytes lo s.offset p
    → Returns
        (λ (moved, grown).
          IsAt bytes moved
          × IsPending bytes lo moved.offset grown
          × (left moved ≤ left s)
          × (0 < length delimiter → 0 < length s.ahead → left moved < left s))
        (append_each delimiter s p)
unfolding append_each
append_each_lem bytes lo [] s p at h = (at, h, omega arith, λ some_left. absurd (omega arith))
append_each_lem bytes lo (_ ∷ more) s p at h =
    Returns->>= _ _ (append s p) _ (append_lem bytes lo s p at h)
      (λ (moved, grown) (at', h', le, lt).
        Returns-imp _ _ (append_each more moved grown)
          (λ _ (at'', h'', le', _).
            (at'', h'', omega (arith, le, le'), λ _ ahead. omega (arith, le', lt ahead)))
          (append_each_lem bytes lo more moved grown at' h'))
