-- ===== src/Db/Script/Ends.antt =====
-- db/sql_script/reader.rs: `scan` comes to an end.
use astesia.Base.{
  ℕ, zero, suc, ◌+◌, ◌≤◌, ◌<◌, ◌≡◌, sym, Option, none, some, List, arith, Outcome, ok, err, ◌>>=◌,
  Returns, Returns->>=, Returns-imp, length, get_elem?, get_elem?_lt,
}
use astesia.Db.Engine.{DbType}
use astesia.Db.Script.Statement.{SqlRenderError, SqlStatement}
use astesia.Db.Script.Source.{unterminated}
use astesia.Db.Script.Scan.{
  State, normal, quoted, line_comment, block_comment, dollar_quote, Scanner, peeked, flushed, round,
  rounds, finished, scan, start,
}
use astesia.Db.Script.Reading.{left, start-IsAt}
use astesia.Db.Script.Starts.{IsStatement, empty-IsPending}
use astesia.Db.Script.Moves.{IsScanner, Looks, peeked_lem}
use astesia.Db.Script.Rounds.{round_lem, flushed_lem}

module _ {ℓ} {S : Type ℓ} (bytes : List ℕ) (P : ℕ → S → Type 0)
    (emit : SqlStatement → S → Outcome SqlRenderError S)
    (emits : (statement : SqlStatement) (lo : ℕ) (s : S)
      → IsStatement bytes statement
      → lo ≤ statement.source_start
      → P lo s
      → Returns (P (statement.source_start + 1)) (emit statement s)) where
  -- Enough rounds bring the source to its end, or to an error.
  rounds_lem :
      (db_type : DbType) (fuel : ℕ) (m : Scanner S)
      → IsScanner bytes P m
      → left m.source < fuel
      → Returns (IsScanner bytes P) (rounds emit db_type fuel m)
  unfolding rounds
  rounds_lem db_type zero m h enough = absurd (omega arith)
  rounds_lem db_type (suc fuel) m h enough =
      Returns->>= _ _ (peeked 0 m) _ (peeked_lem bytes P 0 m h) (λ (found, a) (looks, e).
        go (λ b good less. rounds_lem db_type fuel b good less) found a looks e)
    where
      go :
          ((b : Scanner S)
            → IsScanner bytes P b
            → left b.source < fuel
            → Returns (IsScanner bytes P) (rounds emit db_type fuel b))
          → (found : Option ℕ) (a : Scanner S) → Looks bytes P m a
          → found ≡ get_elem? a.source.ahead 0
          → Returns (IsScanner bytes P) (elim found [
            | none ↦ ok a
            | some c ↦ round emit db_type c a >>= λ stepped. rounds emit db_type fuel stepped
          ])
      go ih none a looks e = looks.0
      go ih (some c) a looks e =
          Returns->>= _ _ (round emit db_type c a) _
            (round_lem bytes P emit emits db_type c a looks.0)
            (λ b (good, _, lt).
              ih b good
                (omega (arith, enough, looks.1, lt (get_elem?_lt a.source.ahead 0 (sym e)))))

  finished_lem :
      (db_type : DbType) (m : Scanner S)
      → IsScanner bytes P m
      → Returns (IsScanner bytes P) (finished emit db_type m)
  unfolding finished
  finished_lem db_type m h = go m.state
    where
      flush : Returns (IsScanner bytes P) (flushed emit m)
      flush =
          Returns-imp _ _ (flushed emit m) (λ b (good, _). good)
            (flushed_lem bytes P emit emits m h)

      go :
          (state : State)
          → Returns (IsScanner bytes P) (elim state [
            | normal ↦ flushed emit m
            | line_comment ↦ flushed emit m
            | _ ↦ err unterminated
          ])
      go normal = flush
      go line_comment = flush
      go (quoted closing escapes) = tt
      go block_comment = tt
      go (dollar_quote delimiter) = tt

  -- The scan of a source gives the statements that it holds in order to `emit`; it comes to its end
  -- or to an error, and does not panic.
  pub scan_lem :
      (db_type : DbType) (s : S)
      → P 0 s
      → Returns (λ (_, emitted). (lo : ℕ) × P lo emitted) (scan emit db_type bytes s)
  unfolding scan
  scan_lem db_type s p =
      Returns->>= _ _ (rounds emit db_type (length bytes + 1) (start emit db_type bytes s)) _
        (rounds_lem db_type (length bytes + 1) (start emit db_type bytes s)
          ((0, start-IsAt bytes, empty-IsPending bytes 0 0 (omega arith), p), tt) (omega arith))
        (λ a good.
          Returns->>= _ _ (finished emit db_type a) _ (finished_lem db_type a good)
            (λ b ((lo, _, _, p'), _). (lo, p')))
