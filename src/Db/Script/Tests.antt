-- ===== src/Db/Script/Tests.antt =====
-- db/sql_script.rs: the scripts of its tests.
use Prim.Native.Char.{code}
use astesia.Base.{ℕ, ◌≡◌, refl, List, [], ◌∷◌, ok, err, String}
use astesia.Base.{some, Returns, inr, arith}
use astesia.Db.Script.{SqlScript, statement_at}
use astesia.Db.Script.Order.{Ascends, parse_lem, statement_at-parse}
use astesia.Db.Engine.{postgresql}
use astesia.Db.Script.{parse}
use astesia.Db.Script.Source.{unterminated}

abbrev codes : String → List ℕ
codes String.[] = []
codes (String.◌∷◌ c s) = code c ∷ codes s

abbrev dump : List ℕ
dump =
    codes
      "-- backup header\nCREATE TABLE \"events\" (\"message\" text);\nINSERT INTO \"events\" VALUES (E'one;two\\\\three');\nDO $$ BEGIN PERFORM 1; PERFORM 2; END $$; -- done"

three_statements :
    parse postgresql dump
    ≡ ok (record {
      statements =
          record { sql = codes "CREATE TABLE \"events\" (\"message\" text)"; source_start = 17 }
          ∷ record {
            sql = codes "INSERT INTO \"events\" VALUES (E'one;two\\\\three')";
            source_start = 57;
          }
          ∷ record { sql = codes "DO $$ BEGIN PERFORM 1; PERFORM 2; END $$"; source_start = 106 }
          ∷ [];
    })
unfolding parse
three_statements = refl

unterminated_quote : parse postgresql (codes "SELECT 'unterminated") ≡ err unterminated
unfolding parse
unterminated_quote = refl

abbrev two_statements : SqlScript
two_statements = record {
  statements =
      record { sql = codes "SELECT 1"; source_start = 10 }
      ∷ record { sql = codes "SELECT 2"; source_start = 31 }
      ∷ [];
}

parse_lem_example :
    Returns
      (λ script.
        (to : ℕ) × Ascends
          (codes "-- header\nSELECT 1;\n\n/* gap */\nSELECT 2;")
          0
          script.statements
          to)
      (parse postgresql (codes "-- header\nSELECT 1;\n\n/* gap */\nSELECT 2;"))
parse_lem_example = parse_lem postgresql (codes "-- header\nSELECT 1;\n\n/* gap */\nSELECT 2;")

statement_at-parse_example : statement_at 25 two_statements ≡ some (codes "SELECT 1")
unfolding parse
statement_at-parse_example =
    statement_at-parse postgresql (codes "-- header\nSELECT 1;\n\n/* gap */\nSELECT 2;")
      two_statements 25 [] (record { sql = codes "SELECT 1"; source_start = 10 })
      (record { sql = codes "SELECT 2"; source_start = 31 } ∷ []) refl refl (inr (omega arith))
      (omega arith)
