-- ===== src/Db/Script/Scan.antt =====
-- db/sql_script/reader.rs: the loop of `scan`, with what `emit` writes as the state `S`.
use astesia.Base.{
  ℕ, zero, suc, ◌+◌, Bool, true, false, ◌&&◌, ◌||◌, Option, none, some, List, [], Outcome, ok, err,
  panic, ◌>>=◌, ◌==◌, if◌then◌else◌, length,
}
use astesia.Db.Engine.{DbType, mysql, postgresql, sql_server, clickhouse}
use astesia.Db.Script.Statement.{
  Chars, SqlRenderError, SqlStatement, PendingStatement, empty_pending, push_char, take, separator,
}
use astesia.Db.Script.Source.{
  Source, peek, next, append, append_each, dollar_delimiter, matches, is_boundary, is_char,
  unterminated,
}

pub data State : Type 0 where
  normal : State
  quoted : (closing : ℕ) (escapes : Bool) → State
  line_comment block_comment : State
  dollar_quote : Chars → State

pub is_my_sql : DbType → Bool
is_my_sql mysql = true
is_my_sql _ = false

pub is_postgre_sql : DbType → Bool
is_postgre_sql postgresql = true
is_postgre_sql _ = false

pub is_click_house : DbType → Bool
is_click_house clickhouse = true
is_click_house _ = false

pub is_sql_server : DbType → Bool
is_sql_server sql_server = true
is_sql_server _ = false

-- The variables of the loop: the count is of the statements that `emit` was given.
pub record Scanner {ℓ} (S : Type ℓ) : Type ℓ where
  pub source : Source
  pub pending : PendingStatement
  pub state : State
  pub count : ℕ
  pub emitted : S

-- The characters that open a quote.
unfoldable pub opens_quote : DbType → ℕ → Bool
unfolding is_sql_server
opens_quote db_type c = c == b'\'' || c == b'"' || c == b'`' || (c == b'[' && is_sql_server db_type)

-- The PostgreSQL prefix `E`, at the start of a word.
unfoldable pub after_escape_prefix : Source → Bool
unfolding is_boundary is_char
after_escape_prefix s =
    (is_char b'e' s.last || is_char b'E' s.last)
    && elim s.before_last [ none ↦ true | some c ↦ is_boundary c ]

unfoldable pub escapes_in : DbType → ℕ → Source → Bool
unfolding is_my_sql is_postgre_sql is_click_house after_escape_prefix
escapes_in db_type c s =
    (c == b'\''
      && ((is_my_sql db_type || is_click_house db_type)
          || (is_postgre_sql db_type && after_escape_prefix s)))
    || (c == b'`' && is_click_house db_type)

unfoldable pub closing_of : ℕ → ℕ
closing_of c = if c == b'[' then b']' else c

module _ {ℓ} {S : Type ℓ} where
  -- `source.append(&mut pending)?`
  unfoldable pub appended : Scanner S → Outcome SqlRenderError (Scanner S)
  unfolding append
  appended m = do
    (moved, grown) ← append m.source m.pending
    ok (record m { source = moved; pending = grown })

  -- `source.next()?`
  unfoldable pub skipped : Scanner S → Outcome SqlRenderError (Scanner S)
  unfolding next
  skipped m = do (_, moved) ← next m.source; ok (record m { source = moved })

  unfoldable pub peeked : ℕ → Scanner S → Outcome SqlRenderError (Option ℕ × Scanner S)
  unfolding peek
  peeked index m = do (found, moved) ← peek index m.source; ok (found, record m { source = moved })

  abbrev pub with_state : State → Scanner S → Scanner S
  with_state state m = record m { state = state }

  -- A comment of two characters opens.
  unfoldable pub open_comment : State → Scanner S → Outcome SqlRenderError (Scanner S)
  unfolding separator skipped
  open_comment state m = do
    first ← skipped (record m { pending = separator m.pending })
    second ← skipped first
    ok (with_state state second)

  unfoldable pub open_hash : Scanner S → Outcome SqlRenderError (Scanner S)
  unfolding separator skipped
  open_hash m = do
    moved ← skipped (record m { pending = separator m.pending })
    ok (with_state line_comment moved)

  unfoldable pub appended_each : Chars → Scanner S → Outcome SqlRenderError (Scanner S)
  unfolding append_each
  appended_each delimiter m = do
    (moved, grown) ← append_each delimiter m.source m.pending
    ok (record m { source = moved; pending = grown })

  unfoldable pub open_dollar : Scanner S → Outcome SqlRenderError (Scanner S)
  unfolding dollar_delimiter appended appended_each
  open_dollar m = do
    (found, moved) ← dollar_delimiter m.source
    elim found [
      | none ↦ appended (record m { source = moved })
      | some delimiter ↦ do
        grown ← appended_each delimiter (record m { source = moved })
        ok (with_state (dollar_quote delimiter) grown)
    ]

  module _ (emit : SqlStatement → S → Outcome SqlRenderError S) where
    -- `if let Some(statement) = pending.take() { emit(statement)?; count += 1; }`
    unfoldable pub flushed : Scanner S → Outcome SqlRenderError (Scanner S)
    unfolding take
    flushed m = do
      taken ← take m.pending
      elim taken [
        | none ↦ ok (record m { pending = empty_pending })
        | some statement ↦ do
          emitted ← emit statement m.emitted
          ok (record m { pending = empty_pending; count = m.count + 1; emitted = emitted })
      ]

    -- The arms of `State::Normal` from `;` on.
    unfoldable pub in_normal_rest : DbType → ℕ → Scanner S → Outcome SqlRenderError (Scanner S)
    unfolding is_my_sql is_postgre_sql open_dollar skipped appended flushed open_hash
    in_normal_rest db_type c m =
        if c == b'#' && is_my_sql db_type
        then open_hash m
        else if c == b'$' && is_postgre_sql db_type
        then open_dollar m
        else if c == b';'
        then skipped m >>= flushed
        else appended m

    -- An arm for the first character of a comment that takes two.
    unfoldable pub maybe_comment :
        ℕ → State → DbType → ℕ → Scanner S → Outcome SqlRenderError (Scanner S)
    unfolding peeked is_char open_comment in_normal_rest
    maybe_comment second state db_type c m = do
      (found, moved) ← peeked 1 m
      if is_char second found then open_comment state moved else in_normal_rest db_type c moved

    unfoldable pub in_normal : DbType → ℕ → Scanner S → Outcome SqlRenderError (Scanner S)
    unfolding opens_quote escapes_in closing_of appended maybe_comment in_normal_rest
    in_normal db_type c m =
        if opens_quote db_type c
        then appended (with_state (quoted (closing_of c) (escapes_in db_type c m.source)) m)
        else if c == b'-'
        then maybe_comment b'-' line_comment db_type c m
        else if c == b'/'
        then maybe_comment b'*' block_comment db_type c m
        else in_normal_rest db_type c m

  -- A closing character that stands twice stands for itself.
  unfoldable pub maybe_closed : ℕ → Scanner S → Outcome SqlRenderError (Scanner S)
  unfolding appended peeked is_char
  maybe_closed closing m = do
    (found, moved) ← peeked 0 m
    if is_char closing found then appended moved else ok (with_state normal moved)

  unfoldable pub in_quoted : ℕ → Bool → ℕ → Scanner S → Outcome SqlRenderError (Scanner S)
  unfolding appended maybe_closed
  in_quoted closing escapes c m = do
    grown ← appended m
    elim (escapes && c == b'\\') [
      | true ↦ appended grown
      | false ↦ if c == closing then maybe_closed closing grown else ok grown
    ]

  unfoldable pub in_line_comment : ℕ → Scanner S → Outcome SqlRenderError (Scanner S)
  unfolding push_char skipped
  in_line_comment c m =
      if c == b'\n' || c == b'\r'
      then skipped
          (record m { pending = push_char b'\n' m.source.offset m.pending; state = normal })
      else skipped m

  -- `*` in a block comment.
  unfoldable pub maybe_ended : Scanner S → Outcome SqlRenderError (Scanner S)
  unfolding peeked skipped is_char
  maybe_ended m = do
    (found, moved) ← peeked 1 m
    first ← skipped moved
    if is_char b'/' found then skipped (with_state normal first) else ok first

  unfoldable pub in_block_comment : ℕ → Scanner S → Outcome SqlRenderError (Scanner S)
  unfolding maybe_ended skipped
  in_block_comment c m = if c == b'*' then maybe_ended m else skipped m

  -- `$` in a dollar quote.
  unfoldable pub maybe_delimiter : Chars → Scanner S → Outcome SqlRenderError (Scanner S)
  unfolding matches appended appended_each
  maybe_delimiter delimiter m = do
    (matched, source) ← matches delimiter m.source
    elim matched [
      | true ↦ appended_each delimiter (record m { source = source; state = normal })
      | false ↦ appended (record m { source = source })
    ]

  unfoldable pub in_dollar_quote : Chars → ℕ → Scanner S → Outcome SqlRenderError (Scanner S)
  unfolding maybe_delimiter appended
  in_dollar_quote delimiter c m = if c == b'$' then maybe_delimiter delimiter m else appended m

  module _ (emit : SqlStatement → S → Outcome SqlRenderError S) (db_type : DbType) where
    -- The body of the loop, on the character that `peek` found.
    unfoldable pub round : ℕ → Scanner S → Outcome SqlRenderError (Scanner S)
    unfolding in_normal in_quoted in_line_comment in_block_comment in_dollar_quote
    round c m = elim m.state [
      | normal ↦ in_normal emit db_type c m
      | quoted closing escapes ↦ in_quoted closing escapes c m
      | line_comment ↦ in_line_comment c m
      | block_comment ↦ in_block_comment c m
      | dollar_quote delimiter ↦ in_dollar_quote delimiter c m
    ]

    unfoldable pub rounds : ℕ → Scanner S → Outcome SqlRenderError (Scanner S)
    unfolding round peeked
    rounds zero m = panic
    rounds (suc fuel) m = do
      (found, moved) ← peeked 0 m
      elim found [ none ↦ ok moved | some c ↦ do stepped ← round c moved; rounds fuel stepped ]

    -- What follows the loop.
    unfoldable pub finished : Scanner S → Outcome SqlRenderError (Scanner S)
    unfolding flushed
    finished m = elim m.state [
      | normal ↦ flushed emit m
      | line_comment ↦ flushed emit m
      | _ ↦ err unterminated
    ]

    abbrev pub start : List ℕ → S → Scanner S
    start bytes emitted = record {
      source = record { reader = bytes; ahead = []; offset = 0; before_last = none; last = none };
      pending = empty_pending;
      state = normal;
      count = 0;
      emitted = emitted;
    }

    -- A round takes a character off the source, which takes a byte at least.
    unfoldable pub scan : List ℕ → S → Outcome SqlRenderError (ℕ × S)
    unfolding rounds finished
    scan bytes emitted = do
      ended ← rounds (length bytes + 1) (start bytes emitted)
      done ← finished ended
      ok (done.count, done.emitted)
