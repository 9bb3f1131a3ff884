-- ===== src/Db/Script/Statement.antt =====
-- db/sql_script.rs: the statement that is being collected, a text as its list of code points.
use astesia.Base.{
  ℕ, Bool, true, false, not, ◌&&◌, Option, none, some, List, [], ◌∷◌, ◌++◌, Outcome, ok, ◌>>=◌, ◌-◌,
  zero, suc, length, if◌then◌else◌, expect, is_some, String,
}
use astesia.Base.Text.{is_space}

abbrev pub Chars : Type 0
Chars = List ℕ

-- db/sql_render.rs. An operation's name and a message are texts that nothing reads back.
pub data SqlRenderError : Type 0 where
  unsupported : String → SqlRenderError
  invalid_identifier invalid_input invalid_create_sql invalid_script : String → SqlRenderError

pub record SqlStatement : Type 0 where
  pub sql : Chars
  pub source_start : ℕ

pub record PendingStatement : Type 0 where
  pub sql : Chars
  pub source_start : Option ℕ

abbrev pub empty_pending : PendingStatement
empty_pending = record { sql = []; source_start = none }

-- `str::is_empty`, `str::trim_start` and `str::trim_end`
abbrev pub is_nil : Chars → Bool
is_nil [] = true
is_nil (_ ∷ _) = false

unfoldable pub trim_start : Chars → Chars
unfolding is_space
trim_start [] = []
trim_start (c ∷ s) = elim (is_space c) [ true ↦ trim_start s | false ↦ c ∷ s ]

unfoldable pub trim_end : Chars → Chars
unfolding is_space
trim_end [] = []
trim_end (c ∷ s) = let rest = trim_end s in if is_space c && is_nil rest then [] else c ∷ rest

unfoldable pub last_char : Chars → Option ℕ
last_char [] = none
last_char (c ∷ []) = some c
last_char (c ∷ d ∷ s) = last_char (d ∷ s)

unfoldable pub push_char : ℕ → ℕ → PendingStatement → PendingStatement
unfolding is_space
push_char character source_offset p = record p {
  sql = p.sql ++ character ∷ [];
  source_start =
      if not (is_some p.source_start) && not (is_space character)
      then some source_offset
      else p.source_start;
}

-- `String::drain(..n)`, and `String::truncate` at the length of `trim_end` is `trim_end`.
unfoldable pub drop : ℕ → Chars → Chars
drop zero s = s
drop (suc n) [] = []
drop (suc n) (_ ∷ s) = drop n s

-- What `take` gives; the statement is left empty.
unfoldable pub take {ℓ} : {E : Type ℓ} → PendingStatement → Outcome E (Option SqlStatement)
unfolding trim_start trim_end drop
take p =
    let start = length p.sql - length (trim_start p.sql) in
    let sql = trim_end p.sql in
    elim (is_nil sql) [
      | true ↦ ok none
      | false ↦ do
        source_start ← expect p.source_start
        ok (some (record { sql = drop start sql; source_start = source_start }))
    ]

unfoldable pub separated : Option ℕ → PendingStatement → PendingStatement
unfolding is_space
separated none p = p
separated (some c) p = if is_space c then p else record p { sql = p.sql ++ b' ' ∷ [] }

unfoldable pub separator : PendingStatement → PendingStatement
unfolding last_char separated
separator p = separated (last_char p.sql) p
