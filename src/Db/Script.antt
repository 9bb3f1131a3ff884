-- ===== src/Db/Script.antt =====
-- db/sql_script.rs: a script as its statements.
pub mod Statement
pub mod Source
pub mod Scan
pub mod Reading
pub mod Trim
pub mod Lookahead
pub mod Starts
pub mod Moves
pub mod Rounds
pub mod Ends
pub mod Order
mod Tests
use astesia.Base.{
  ℕ, true, false, Option, none, some, List, [], ◌∷◌, ◌++◌, map, Outcome, ok, ◌>>=◌, leb,
}
use astesia.Db.Engine.{DbType}
use astesia.Db.Script.Statement.{Chars, SqlRenderError, SqlStatement}
use astesia.Db.Script.Scan.{scan}

pub record SqlScript : Type 0 where
  pub statements : List SqlStatement

-- `statements.push(statement)`
abbrev pub collect {ℓ} :
    {E : Type ℓ} → SqlStatement → List SqlStatement → Outcome E (List SqlStatement)
collect statement statements = ok (statements ++ statement ∷ [])

unfoldable pub parse : DbType → List ℕ → Outcome SqlRenderError SqlScript
unfolding scan
parse db_type source = do
  (_, statements) ← scan collect db_type source []
  ok (record { statements = statements })

unfoldable pub for_each_statement {ℓ} :
    {S : Type ℓ}
    → DbType
    → List ℕ
    → (Chars → S → Outcome SqlRenderError S)
    → S
    → Outcome SqlRenderError (ℕ × S)
unfolding scan
for_each_statement db_type source emit = scan (λ statement. emit statement.sql) db_type source

unfoldable pub into_statements : SqlScript → List Chars
into_statements script = map (λ statement. statement.sql) script.statements

-- `iter().rev().find(..)`: the last statement that starts at the offset or before it.
unfoldable pub last_before : ℕ → List SqlStatement → Option SqlStatement
last_before offset [] = none
last_before offset (statement ∷ more) = elim (last_before offset more) [
  | some found ↦ some found
  | none ↦ elim (leb statement.source_start offset) [ true ↦ some statement | false ↦ none ]
]

unfoldable pub first_statement : List SqlStatement → Option SqlStatement
first_statement [] = none
first_statement (statement ∷ _) = some statement

unfoldable pub statement_at : ℕ → SqlScript → Option Chars
unfolding last_before first_statement
statement_at cursor_offset script = elim (last_before cursor_offset script.statements) [
  | some statement ↦ some statement.sql
  | none ↦ elim (first_statement script.statements) [
    | none ↦ none
    | some statement ↦ some statement.sql
  ]
]
