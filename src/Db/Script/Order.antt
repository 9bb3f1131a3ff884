-- ===== src/Db/Script/Order.antt =====
-- db/sql_script.rs: the statements of a parsed script, and the one at a cursor.
use astesia.Base.{
  ℕ, ◌+◌, ◌≤◌, ◌<◌, ◌≡◌, refl, ◌∙◌, ◌⊎◌, inl, inr, ap, subst, none, some, List, [], ◌∷◌, ◌++◌,
  arith, Outcome, ok, Returns, Returns->>=,
}
use native.Mathlib.Decide.{dec_lt}
use astesia.Db.Engine.{DbType}
use astesia.Db.Script.{SqlScript, collect, parse, last_before, first_statement, statement_at}
use astesia.Db.Script.Statement.{SqlRenderError, SqlStatement}
use astesia.Db.Script.Scan.{scan}
use astesia.Db.Script.Starts.{IsStatement}
use astesia.Db.Script.Ends.{scan_lem}

-- Statements that start one after another, from an offset on and before another.
unfoldable pub Ascends : List ℕ → ℕ → List SqlStatement → ℕ → Type 0
unfolding IsStatement
Ascends bytes from [] to = from ≤ to
Ascends bytes from (statement ∷ more) to =
    (from ≤ statement.source_start)
    × IsStatement bytes statement
    × Ascends bytes (statement.source_start + 1) more to

Ascends-snoc :
    (bytes : List ℕ) (from lo : ℕ) (statements : List SqlStatement) (statement : SqlStatement)
    → IsStatement bytes statement
    → lo ≤ statement.source_start
    → Ascends bytes from statements lo
    → Ascends bytes from (statements ++ statement ∷ []) (statement.source_start + 1)
unfolding Ascends
Ascends-snoc bytes from lo [] statement good le h = (omega arith, good, omega arith)
Ascends-snoc bytes from lo (first ∷ more) statement good le (low, good', h) =
    (low, good', Ascends-snoc bytes (first.source_start + 1) lo more statement good le h)

-- A parse of any bytes comes to an error or to a script, without a panic. Each statement of the
-- script is trimmed and not blank, its first character stands in the bytes at its start, and the
-- starts ascend.
pub parse_lem :
    (db_type : DbType) (bytes : List ℕ)
    → Returns (λ script. (to : ℕ) × Ascends bytes 0 script.statements to) (parse db_type bytes)
unfolding parse Ascends
parse_lem db_type bytes =
    Returns->>= _ _ (scan collect db_type bytes []) _
      (scan_lem bytes (λ lo statements. Ascends bytes 0 statements lo) collect
        (λ statement lo statements good le h.
          Ascends-snoc bytes 0 lo statements statement good le h)
        db_type [] (omega arith))
      (λ _ h. h)

-- The first of the statements, if there is one, starts after the cursor.
abbrev pub StartsAfter : ℕ → List SqlStatement → Type 0
StartsAfter cursor [] = Unit
StartsAfter cursor (statement ∷ _) = cursor < statement.source_start

module _ (cursor : ℕ) (first : SqlStatement) (more : List SqlStatement) where
  last_before-skip :
      last_before cursor more ≡ none
      → cursor < first.source_start
      → last_before cursor (first ∷ more) ≡ none
  unfolding last_before
  last_before-skip e h = rw e (ground arith)

  last_before-found :
      last_before cursor more ≡ none
      → first.source_start ≤ cursor
      → last_before cursor (first ∷ more) ≡ some first
  unfolding last_before
  last_before-found e h = rw e (ground arith)

last_before-after :
    (bytes : List ℕ) (cursor from to : ℕ) (statements : List SqlStatement)
    → Ascends bytes from statements to
    → cursor < from
    → last_before cursor statements ≡ none
unfolding last_before Ascends
last_before-after bytes cursor from to [] h after = refl
last_before-after bytes cursor from to (first ∷ more) (low, good, h) after =
    last_before-skip cursor first more
      (last_before-after bytes cursor (first.source_start + 1) to more h (omega (arith, low)))
      (omega (arith, low))

last_before_next :
    (bytes : List ℕ) (cursor from to : ℕ) (statements : List SqlStatement)
    → Ascends bytes from statements to
    → StartsAfter cursor statements
    → last_before cursor statements ≡ none
unfolding last_before Ascends
last_before_next bytes cursor from to [] h after = refl
last_before_next bytes cursor from to (first ∷ more) (low, good, h) after =
    last_before-skip cursor first more
      (last_before-after bytes cursor (first.source_start + 1) to more h (omega arith)) after

last_before-split :
    (bytes : List ℕ) (cursor from to : ℕ) (before : List SqlStatement) (statement : SqlStatement)
    (after : List SqlStatement)
    → Ascends bytes from (before ++ statement ∷ after) to
    → statement.source_start ≤ cursor
    → StartsAfter cursor after
    → last_before cursor (before ++ statement ∷ after) ≡ some statement
unfolding last_before Ascends
last_before-split bytes cursor from to [] statement after (_, _, h) le next =
    last_before-found cursor statement after
      (last_before_next bytes cursor (statement.source_start + 1) to after h next) le
last_before-split bytes cursor from to (first ∷ before) statement after (_, _, h) le next =
    rw (last_before-split bytes cursor (first.source_start + 1) to before statement after h le next)
      refl

Returns-ok :
    (P : SqlScript → Type 0) (call : Outcome SqlRenderError SqlScript) (script : SqlScript)
    → Returns P call
    → call ≡ ok script
    → P script
Returns-ok P call script h e = subst (Returns P) e h

statement_at-found :
    (cursor : ℕ) (script : SqlScript) (statement : SqlStatement)
    → last_before cursor script.statements ≡ some statement
    → statement_at cursor script ≡ some statement.sql
unfolding statement_at
statement_at-found cursor script statement e = rw (statement_at, e) refl

statement_at_first :
    (cursor : ℕ) (script : SqlScript) (statement : SqlStatement) (after : List SqlStatement)
    → last_before cursor script.statements ≡ none
    → script.statements ≡ statement ∷ after
    → statement_at cursor script ≡ some statement.sql
unfolding statement_at first_statement
statement_at_first cursor script statement after e split =
    let first : first_statement script.statements ≡ some statement = ap first_statement split in
    rw (statement_at, e, first) refl

-- Of a script that was parsed, the statement at a cursor is the last one that starts at the cursor
-- or before it, and the first one for a cursor before all of them.
pub statement_at-parse :
    (db_type : DbType) (bytes : List ℕ) (script : SqlScript) (cursor : ℕ)
    (before : List SqlStatement) (statement : SqlStatement) (after : List SqlStatement)
    → parse db_type bytes ≡ ok script
    → script.statements ≡ before ++ statement ∷ after
    → (before ≡ []) ⊎ (statement.source_start ≤ cursor)
    → StartsAfter cursor after
    → statement_at cursor script ≡ some statement.sql
unfolding statement_at
statement_at-parse db_type bytes script cursor before statement after e split from next =
    elim from [
      | inr le ↦ here le
      | inl nil ↦ elim (dec_lt cursor statement.source_start) [
        | yes low ↦
            statement_at_first cursor script statement after
              (rw (alone nil) (
                last_before_next bytes cursor 0 ordered.0 (statement ∷ after)
                  (subst (λ l. Ascends bytes 0 l ordered.0) (alone nil) ordered.1) low))
              (alone nil)
        | no high ↦ here (omega (arith, high))
      ]
    ]
  where
    ordered : (to : ℕ) × Ascends bytes 0 script.statements to
    ordered = Returns-ok _ (parse db_type bytes) script (parse_lem db_type bytes) e

    here : statement.source_start ≤ cursor → statement_at cursor script ≡ some statement.sql
    here le = statement_at-found cursor script statement (
        rw split (
          last_before-split bytes cursor 0 ordered.0 before statement after
            (subst (λ l. Ascends bytes 0 l ordered.0) split ordered.1) le next))

    alone : before ≡ [] → script.statements ≡ statement ∷ after
    alone nil = split ∙ ap (λ l. l ++ statement ∷ after) nil
