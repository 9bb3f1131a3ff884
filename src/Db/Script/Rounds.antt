-- ===== src/Db/Script/Rounds.antt =====
-- db/sql_script/reader.rs: each round of `scan` keeps the scanner in order and takes a character.
use astesia.Base.{
  ℕ, ◌+◌, ◌≤◌, ◌<◌, Bool, ◌&&◌, ◌||◌, Option, none, some, List, arith, Outcome, ok, ◌>>=◌, ◌==◌,
  Returns, Returns->>=, Returns-elim, Returns-if, length,
}
use astesia.Db.Engine.{DbType}
use astesia.Db.Script.Statement.{
  Chars, SqlRenderError, SqlStatement, empty_pending, take, separator, push_char,
}
use astesia.Db.Script.Source.{Source, matches, dollar_delimiter, is_char}
use astesia.Db.Script.Scan.{
  State, normal, quoted, line_comment, block_comment, dollar_quote, Scanner, appended, skipped,
  peeked, with_state, open_comment, open_hash, appended_each, open_dollar, flushed, in_normal_rest,
  maybe_comment, in_normal, maybe_closed, in_quoted, in_line_comment, maybe_ended, in_block_comment,
  maybe_delimiter, in_dollar_quote, round, opens_quote, closing_of, escapes_in, is_my_sql,
  is_postgre_sql,
}
use astesia.Db.Script.Reading.{left}
use astesia.Db.Script.Lookahead.{dollar_delimiter_lem, matches_lem, HasText}
use astesia.Db.Script.Starts.{
  IsStatement, separator-IsPending, take_lem, Takes, empty-IsPending, IsPending-le,
  push_newline-IsPending,
}
use astesia.Db.Script.Moves.{
  IsState, IsScanner, Moves, Looks, appended_lem, skipped_lem, looked, peeked_lem, Moves->>=,
  Moves-after, Moves-le, appended_each_lem, with_state_lem,
}

module _ {ℓ} {S : Type ℓ} (bytes : List ℕ) (P : ℕ → S → Type 0)
    (emit : SqlStatement → S → Outcome SqlRenderError S)
    (emits : (statement : SqlStatement) (lo : ℕ) (s : S)
      → IsStatement bytes statement
      → lo ≤ statement.source_start
      → P lo s
      → Returns (P (statement.source_start + 1)) (emit statement s)) where
  abbrev Good : Scanner S → Type 0
  Good = IsScanner bytes P

  separated_lem : (m : Scanner S) → Good m → Good (record m { pending = separator m.pending })
  separated_lem m ((lo, at, h, p), state) =
      ((lo, at, separator-IsPending bytes lo m.source.offset m.pending h, p), state)

  open_comment_lem :
      (m : Scanner S) (state : State)
      → IsState state
      → Good m
      → Returns (Moves bytes P m) (open_comment state m)
  unfolding open_comment
  open_comment_lem m state good h =
      Moves->>= bytes P m (skipped (record m { pending = separator m.pending })) _
        (skipped_lem bytes P (record m { pending = separator m.pending }) (separated_lem m h))
        (λ a h'.
          Moves-le bytes P a _
            (with_state_lem bytes P a state (skipped a) good (skipped_lem bytes P a h')))

  open_hash_lem : (m : Scanner S) → Good m → Returns (Moves bytes P m) (open_hash m)
  unfolding open_hash
  open_hash_lem m h =
      with_state_lem bytes P m line_comment (skipped (record m { pending = separator m.pending }))
        tt (skipped_lem bytes P (record m { pending = separator m.pending }) (separated_lem m h))

  open_dollar_lem : (m : Scanner S) → Good m → Returns (Moves bytes P m) (open_dollar m)
  unfolding open_dollar
  open_dollar_lem m h =
      Returns->>= _ _ (dollar_delimiter m.source) _ (dollar_delimiter_lem bytes m.source h.0.1)
        (λ (found, moved) (stays, text). go found moved (looked bytes P m moved h stays) text)
    where
      go :
          (found : Option Chars) (moved : Source)
          → Looks bytes P m (record m { source = moved })
          → HasText found
          → Returns (Moves bytes P m) (elim found [
            | none ↦ appended (record m { source = moved })
            | some delimiter ↦ appended_each delimiter (record m { source = moved }) >>= λ grown.
                ok (with_state (dollar_quote delimiter) grown)
          ])
      go none moved looks text =
          let a : Scanner S = record m { source = moved } in
          Moves-after bytes P m a (appended a) looks (appended_lem bytes P a looks.0)
      go (some delimiter) moved looks text =
          let a : Scanner S = record m { source = moved } in
          Moves-after bytes P m a _ looks (
            with_state_lem bytes P a (dollar_quote delimiter) (appended_each delimiter a) text
              (appended_each_lem bytes P delimiter a text looks.0))

  pub flushed_lem :
      (m : Scanner S)
      → Good m
      → Returns (λ b. Good b × (left b.source ≤ left m.source)) (flushed emit m)
  unfolding flushed
  flushed_lem m ((lo, at, h, p), state) =
      Returns->>= _ _ (take m.pending) _ (take_lem bytes lo m.source.offset m.pending h)
        (λ taken takes. go taken takes)
    where
      low : lo ≤ m.source.offset
      low = IsPending-le bytes lo m.source.offset m.pending h

      go :
          (taken : Option SqlStatement)
          → Takes bytes lo m.source.offset taken
          → Returns
              (λ b. Good b × (left b.source ≤ left m.source))
              (elim taken [
                | none ↦ ok (record m { pending = empty_pending })
                | some statement ↦ emit statement m.emitted >>= λ emitted.
                    ok
                      (record m { pending = empty_pending; count = m.count + 1; emitted = emitted })
              ])
      go none takes = (((lo, at, empty-IsPending bytes lo _ low, p), state), omega arith)
      go (some statement) (good, from, to) =
          Returns->>= _ _ (emit statement m.emitted) _ (emits statement lo m.emitted good from p)
            (λ emitted p'. (
              (
                (statement.source_start + 1, at, empty-IsPending bytes _ _ (omega (arith, to)), p'),
                state,
              ),
              omega arith,
            ))

  in_normal_rest_lem :
      (db_type : DbType) (c : ℕ) (m : Scanner S)
      → Good m
      → Returns (Moves bytes P m) (in_normal_rest emit db_type c m)
  unfolding in_normal_rest
  in_normal_rest_lem db_type c m h =
      Returns-if _ (c == b'#' && is_my_sql db_type) _ _ (λ _. open_hash_lem m h)
        (λ _.
          Returns-if _ (c == b'$' && is_postgre_sql db_type) _ _ (λ _. open_dollar_lem m h)
            (λ _.
              Returns-if _ (c == b';') _ _
                (λ _.
                  Moves->>= bytes P m (skipped m) _ (skipped_lem bytes P m h)
                    (λ a h'. flushed_lem a h'))
                (λ _. appended_lem bytes P m h)))

  maybe_comment_lem :
      (second : ℕ) (state : State) (db_type : DbType) (c : ℕ) (m : Scanner S)
      → IsState state
      → Good m
      → Returns (Moves bytes P m) (maybe_comment emit second state db_type c m)
  unfolding maybe_comment
  maybe_comment_lem second state db_type c m good h =
      Returns->>= _ _ (peeked 1 m) _ (peeked_lem bytes P 1 m h) (λ (found, a) (looks, _).
        Moves-after bytes P m a _ looks (
          Returns-if _ (is_char second found) _ _ (λ _. open_comment_lem a state good looks.0)
            (λ _. in_normal_rest_lem db_type c a looks.0)))

  in_normal_lem :
      (db_type : DbType) (c : ℕ) (m : Scanner S)
      → Good m
      → Returns (Moves bytes P m) (in_normal emit db_type c m)
  unfolding in_normal
  in_normal_lem db_type c m h =
      Returns-if _ (opens_quote db_type c) _ _
        (λ _.
          appended_lem bytes P
            (with_state (quoted (closing_of c) (escapes_in db_type c m.source)) m) (h.0, tt))
        (λ _.
          Returns-if _ (c == b'-') _ _ (λ _. maybe_comment_lem b'-' line_comment db_type c m tt h)
            (λ _.
              Returns-if _ (c == b'/') _ _
                (λ _. maybe_comment_lem b'*' block_comment db_type c m tt h)
                (λ _. in_normal_rest_lem db_type c m h)))

  maybe_closed_lem :
      (closing : ℕ) (m : Scanner S)
      → Good m
      → Returns (λ b. Good b × (left b.source ≤ left m.source)) (maybe_closed closing m)
  unfolding maybe_closed
  maybe_closed_lem closing m h =
      Returns->>= _ _ (peeked 0 m) _ (peeked_lem bytes P 0 m h) (λ (found, a) (looks, _).
        Returns-if _ (is_char closing found) _ _
          (λ _.
            Moves-le bytes P m _ (Moves-after bytes P m a _ looks (appended_lem bytes P a looks.0)))
          (λ _. ((looks.0.0, tt), looks.1)))

  in_quoted_lem :
      (closing : ℕ) (escapes : Bool) (c : ℕ) (m : Scanner S)
      → Good m
      → Returns (Moves bytes P m) (in_quoted closing escapes c m)
  unfolding in_quoted
  in_quoted_lem closing escapes c m h =
      Moves->>= bytes P m (appended m) _ (appended_lem bytes P m h) (λ a h'.
        Returns-elim _ (escapes && c == b'\\') _ _
          (λ _. Moves-le bytes P a _ (appended_lem bytes P a h'))
          (λ _.
            Returns-if _ (c == closing) _ _ (λ _. maybe_closed_lem closing a h')
              (λ _. (h', omega arith))))

  in_line_comment_lem :
      (c : ℕ) (m : Scanner S) → Good m → Returns (Moves bytes P m) (in_line_comment c m)
  unfolding in_line_comment
  in_line_comment_lem c m h =
      Returns-if _ (c == b'\n' || c == b'\r') _ _
        (λ _.
          skipped_lem bytes P
            (record m { pending = push_char b'\n' m.source.offset m.pending; state = normal })
            (
              (
                h.0.0,
                h.0.1,
                push_newline-IsPending bytes h.0.0 m.source.offset m.pending h.0.2,
                h.0.3,
              ),
              tt,
            ))
        (λ _. skipped_lem bytes P m h)

  maybe_ended_lem : (m : Scanner S) → Good m → Returns (Moves bytes P m) (maybe_ended m)
  unfolding maybe_ended
  maybe_ended_lem m h =
      Returns->>= _ _ (peeked 1 m) _ (peeked_lem bytes P 1 m h) (λ (found, a) (looks, _).
        Moves-after bytes P m a _ looks (
          Moves->>= bytes P a (skipped a) _ (skipped_lem bytes P a looks.0) (λ b h'.
            Returns-if _ (is_char b'/' found) _ _
              (λ _. Moves-le bytes P b _ (skipped_lem bytes P (with_state normal b) (h'.0, tt)))
              (λ _. (h', omega arith)))))

  maybe_delimiter_lem :
      (delimiter : Chars) (m : Scanner S)
      → 0 < length delimiter
      → Good m
      → Returns (Moves bytes P m) (maybe_delimiter delimiter m)
  unfolding maybe_delimiter
  maybe_delimiter_lem delimiter m text h =
      Returns->>= _ _ (matches delimiter m.source) _ (matches_lem bytes delimiter m.source h.0.1)
        (λ (matched, source) stays.
          let a : Scanner S = record m { source = source } in
          Moves-after bytes P m a _ (looked bytes P m source h stays) (
            Returns-elim _ matched _ _
              (λ _.
                appended_each_lem bytes P delimiter (record m { source = source; state = normal })
                  text ((looked bytes P m source h stays).0.0, tt))
              (λ _. appended_lem bytes P a (looked bytes P m source h stays).0)))

  -- A round keeps the scanner in order, and takes a character if there is one.
  pub round_lem :
      (db_type : DbType) (c : ℕ) (m : Scanner S)
      → IsScanner bytes P m
      → Returns (Moves bytes P m) (round emit db_type c m)
  unfolding round in_block_comment in_dollar_quote
  round_lem db_type c m h = go m.state h.1
    where
      go :
          (state : State)
          → IsState state
          → Returns (Moves bytes P m) (elim state [
            | normal ↦ in_normal emit db_type c m
            | quoted closing escapes ↦ in_quoted closing escapes c m
            | line_comment ↦ in_line_comment c m
            | block_comment ↦ in_block_comment c m
            | dollar_quote delimiter ↦ in_dollar_quote delimiter c m
          ])
      go normal good = in_normal_lem db_type c m h
      go (quoted closing escapes) good = in_quoted_lem closing escapes c m h
      go line_comment good = in_line_comment_lem c m h
      go block_comment good =
          Returns-if _ (c == b'*') _ _ (λ _. maybe_ended_lem m h) (λ _. skipped_lem bytes P m h)
      go (dollar_quote delimiter) good =
          Returns-if _ (c == b'$') _ _ (λ _. maybe_delimiter_lem delimiter m good h)
            (λ _. appended_lem bytes P m h)
