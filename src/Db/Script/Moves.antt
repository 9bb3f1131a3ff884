-- ===== src/Db/Script/Moves.antt =====
-- db/sql_script/reader.rs: the calls of a round of `scan` on its source keep the scanner in order.
use astesia.Base.{
  ℕ, ◌≤◌, ◌<◌, ◌≡◌, Option, none, some, List, arith, Outcome, ok, ◌>>=◌, Returns, Returns->>=,
  Returns-imp, length, get_elem?,
}
use astesia.Db.Script.Statement.{Chars, SqlRenderError, PendingStatement}
use astesia.Db.Script.Source.{Source, peek, next, append, append_each}
use astesia.Db.Script.Scan.{
  State, dollar_quote, Scanner, appended, skipped, peeked, with_state, appended_each,
}
use astesia.Db.Script.Reading.{IsAt, Stays, left, peek_lem, next_lem, Nexts}
use astesia.Db.Script.Starts.{IsPending, IsPending-later, append_lem, append_each_lem}

-- The delimiter that a state waits for is not empty.
abbrev pub IsState : State → Type 0
IsState (dollar_quote delimiter) = 0 < length delimiter
IsState _ = Unit

module _ {ℓ} {S : Type ℓ} (bytes : List ℕ) (P : ℕ → S → Type 0) where
  -- All but the state of a scanner, `P lo` being what holds of what was emitted, whose statements
  -- start before `lo`.
  abbrev pub IsReading : Source → PendingStatement → S → Type 0
  IsReading source pending emitted =
      (lo : ℕ) × IsAt bytes source × IsPending bytes lo source.offset pending × P lo emitted

  abbrev pub IsScanner : Scanner S → Type 0
  IsScanner m = IsReading m.source m.pending m.emitted × IsState m.state

  -- What a call makes of a scanner: one that is in order and has no more left, and less if a
  -- character was ahead.
  abbrev pub Moves : Scanner S → Scanner S → Type 0
  Moves m moved =
      IsScanner moved
      × (left moved.source ≤ left m.source)
      × (0 < length m.source.ahead → left moved.source < left m.source)

  pub appended_lem : (m : Scanner S) → IsScanner m → Returns (Moves m) (appended m)
  unfolding appended
  appended_lem m ((lo, at, h, p), state) =
      Returns->>= _ _ (append m.source m.pending) _ (append_lem bytes lo m.source m.pending at h)
        (λ (moved, grown) (at', h', le, lt). (((lo, at', h', p), state), le, lt))

  pub skipped_lem : (m : Scanner S) → IsScanner m → Returns (Moves m) (skipped m)
  unfolding skipped
  skipped_lem m ((lo, at, h, p), state) =
      Returns->>= _ _ (next m.source) _ (next_lem bytes m.source at)
        (λ (found, moved) nexts. go found moved nexts)
    where
      go :
          (found : Option ℕ) (moved : Source)
          → Nexts bytes m.source found moved
          → Moves m (record m { source = moved })
      go none moved (stays, nil) =
          (((lo, stays.0, rw (stays.1) h, p), state), stays.2, λ ahead. absurd (omega arith))
      go (some c) moved (at', forward, less, _) = (
        (
          (
            lo,
            at',
            IsPending-later bytes lo m.source.offset moved.offset m.pending (omega arith) h,
            p,
          ),
          state,
        ),
        omega (arith, less),
        λ _. less,
      )

  -- A scanner that only reads ahead.
  abbrev pub Looks : Scanner S → Scanner S → Type 0
  Looks m moved =
      IsScanner moved
      × (left moved.source ≤ left m.source)
      × (length m.source.ahead ≤ length moved.source.ahead)

  pub looked :
      (m : Scanner S) (source : Source)
      → IsScanner m
      → Stays bytes m.source source
      → Looks m (record m { source = source })
  looked m source ((lo, at, h, p), state) (at', same, le, longer) =
      (((lo, at', rw same h, p), state), le, longer)

  pub peeked_lem :
      (index : ℕ) (m : Scanner S)
      → IsScanner m
      → Returns
          (λ (found, moved). Looks m moved × (found ≡ get_elem? moved.source.ahead index))
          (peeked index m)
  unfolding peeked
  peeked_lem index m h =
      Returns->>= _ _ (peek index m.source) _ (peek_lem bytes index m.source h.0.1)
        (λ (_, moved) (stays, e). (looked m moved h stays, e))

  -- Two calls, one after the other.
  pub Moves->>= :
      (m : Scanner S) (first : Outcome SqlRenderError (Scanner S))
      (next : Scanner S → Outcome SqlRenderError (Scanner S))
      → Returns (Moves m) first
      → ((a : Scanner S)
          → IsScanner a
          → Returns (λ b. IsScanner b × (left b.source ≤ left a.source)) (next a))
      → Returns (Moves m) (first >>= next)
  Moves->>= m first next h k = Returns->>= _ _ first next h (λ a (good, le, lt).
      Returns-imp _ _ (next a)
        (λ b (good', le'). (good', omega arith, λ ahead. omega (arith, lt ahead))) (k a good))

  pub Moves-after :
      (m a : Scanner S) (call : Outcome SqlRenderError (Scanner S))
      → Looks m a
      → Returns (Moves a) call
      → Returns (Moves m) call
  Moves-after m a call (_, le, longer) h =
      Returns-imp _ _ call
        (λ b (good, le', lt). (good, omega arith, λ ahead. omega (arith, lt (omega arith)))) h

  pub Moves-le :
      (m : Scanner S) (call : Outcome SqlRenderError (Scanner S))
      → Returns (Moves m) call
      → Returns (λ b. IsScanner b × (left b.source ≤ left m.source)) call
  Moves-le m call h = Returns-imp _ _ call (λ b (good, le, _). (good, le)) h

  pub appended_each_lem :
      (delimiter : Chars) (m : Scanner S)
      → 0 < length delimiter
      → IsScanner m
      → Returns (Moves m) (appended_each delimiter m)
  unfolding appended_each
  appended_each_lem delimiter m some_text ((lo, at, h, p), state) =
      Returns->>= _ _ (append_each delimiter m.source m.pending) _
        (append_each_lem bytes lo delimiter m.source m.pending at h)
        (λ (moved, grown) (at', h', le, lt). (((lo, at', h', p), state), le, lt some_text))

  pub with_state_lem :
      (m : Scanner S) (state : State) (call : Outcome SqlRenderError (Scanner S))
      → IsState state
      → Returns (Moves m) call
      → Returns (Moves m) (call >>= λ a. ok (with_state state a))
  with_state_lem m state call good h =
      Returns->>= _ _ call _ h (λ a ((reading, _), le, lt). ((reading, good), le, lt))
