-- ===== src/Db/Engine.antt =====
-- db/engine.rs: what each of the seven engines can do, and the defaults of a new profile.
use astesia.Base.{ℕ, String, Bool, true, false, Option, List, [], ◌∷◌}

pub data DbType : Type 0 where
  mysql postgresql sqlite sql_server mongodb redis clickhouse : DbType

pub data EngineProfileSpec : Type 0 where
  file : String → EngineProfileSpec
  network : String → ℕ → String → Option String → EngineProfileSpec

unfoldable pub default_endpoint : EngineProfileSpec → String
default_endpoint (file default_path) = default_path
default_endpoint (network default_host _ _ _) = default_host

unfoldable pub default_port : EngineProfileSpec → ℕ
default_port (file _) = 0
default_port (network _ port _ _) = port

unfoldable pub default_username : EngineProfileSpec → String
default_username (file _) = ""
default_username (network _ _ username _) = username

unfoldable pub default_database : EngineProfileSpec → Option String
default_database (file _) = Option.none
default_database (network _ _ _ database) = database

unfoldable pub is_file : EngineProfileSpec → Bool
is_file (file _) = true
is_file (network _ _ _ _) = false

pub data IndexMode : Type 0 where
  none sql_catalog mongo_catalog primary_key_only : IndexMode

pub data EnumMode : Type 0 where
  none catalog inline_type : EnumMode

pub data RowMutationMode : Type 0 where
  none structured_sql redis_key_value : RowMutationMode

pub data TableCopyMode : Type 0 where
  none same_engine : TableCopyMode

pub data ExplainMode : Type 0 where
  none standard sqlite_query_plan sql_server_showplan_all : ExplainMode

pub data PerformanceMode : Type 0 where
  native unavailable : PerformanceMode

pub record EngineCapabilities : Type 0 where
  pub sql : Bool
  pub schemas : Bool
  pub schema_management : Bool
  pub database_management : Bool
  pub indexes : IndexMode
  pub constraints : Bool
  pub enum_values : EnumMode
  pub views : Bool
  pub functions : Bool
  pub procedures : Bool
  pub triggers : Bool
  pub foreign_keys : Bool
  pub users : Bool
  pub row_mutation : RowMutationMode
  pub data_browser_read_only : Bool
  pub backup : Bool
  pub restore : Bool
  pub table_copy : TableCopyMode
  pub explain : ExplainMode
  pub performance : PerformanceMode

unfoldable pub for_engine : DbType → EngineCapabilities
for_engine mysql = record {
  sql = true;
  schemas = false;
  schema_management = true;
  database_management = true;
  indexes = IndexMode.sql_catalog;
  constraints = true;
  enum_values = EnumMode.none;
  views = true;
  functions = true;
  procedures = true;
  triggers = true;
  foreign_keys = true;
  users = true;
  row_mutation = RowMutationMode.structured_sql;
  data_browser_read_only = false;
  backup = true;
  restore = true;
  table_copy = TableCopyMode.same_engine;
  explain = ExplainMode.standard;
  performance = PerformanceMode.native;
}
for_engine postgresql = record {
  sql = true;
  schemas = true;
  schema_management = true;
  database_management = true;
  indexes = IndexMode.sql_catalog;
  constraints = true;
  enum_values = EnumMode.catalog;
  views = true;
  functions = true;
  procedures = true;
  triggers = true;
  foreign_keys = true;
  users = true;
  row_mutation = RowMutationMode.structured_sql;
  data_browser_read_only = false;
  backup = true;
  restore = true;
  table_copy = TableCopyMode.same_engine;
  explain = ExplainMode.standard;
  performance = PerformanceMode.native;
}
for_engine sqlite = record {
  sql = true;
  schemas = false;
  schema_management = false;
  database_management = false;
  indexes = IndexMode.sql_catalog;
  constraints = true;
  enum_values = EnumMode.none;
  views = true;
  functions = false;
  procedures = false;
  triggers = true;
  foreign_keys = true;
  users = false;
  row_mutation = RowMutationMode.structured_sql;
  data_browser_read_only = false;
  backup = true;
  restore = true;
  table_copy = TableCopyMode.same_engine;
  explain = ExplainMode.sqlite_query_plan;
  performance = PerformanceMode.native;
}
for_engine sql_server = record {
  sql = true;
  schemas = true;
  schema_management = true;
  database_management = true;
  indexes = IndexMode.sql_catalog;
  constraints = true;
  enum_values = EnumMode.none;
  views = true;
  functions = true;
  procedures = true;
  triggers = true;
  foreign_keys = true;
  users = true;
  row_mutation = RowMutationMode.structured_sql;
  data_browser_read_only = false;
  backup = true;
  restore = true;
  table_copy = TableCopyMode.same_engine;
  explain = ExplainMode.sql_server_showplan_all;
  performance = PerformanceMode.native;
}
for_engine mongodb = record {
  sql = false;
  schemas = false;
  schema_management = false;
  database_management = false;
  indexes = IndexMode.mongo_catalog;
  constraints = false;
  enum_values = EnumMode.none;
  views = false;
  functions = false;
  procedures = false;
  triggers = false;
  foreign_keys = false;
  users = false;
  row_mutation = RowMutationMode.none;
  data_browser_read_only = true;
  backup = false;
  restore = false;
  table_copy = TableCopyMode.none;
  explain = ExplainMode.none;
  performance = PerformanceMode.native;
}
for_engine redis = record {
  sql = false;
  schemas = false;
  schema_management = false;
  database_management = false;
  indexes = IndexMode.none;
  constraints = false;
  enum_values = EnumMode.none;
  views = false;
  functions = false;
  procedures = false;
  triggers = false;
  foreign_keys = false;
  users = false;
  row_mutation = RowMutationMode.redis_key_value;
  data_browser_read_only = false;
  backup = false;
  restore = false;
  table_copy = TableCopyMode.none;
  explain = ExplainMode.none;
  performance = PerformanceMode.native;
}
for_engine clickhouse = record {
  sql = true;
  schemas = false;
  schema_management = false;
  database_management = true;
  indexes = IndexMode.primary_key_only;
  constraints = false;
  enum_values = EnumMode.inline_type;
  views = true;
  functions = true;
  procedures = false;
  triggers = false;
  foreign_keys = false;
  users = true;
  row_mutation = RowMutationMode.structured_sql;
  data_browser_read_only = true;
  backup = true;
  restore = true;
  table_copy = TableCopyMode.same_engine;
  explain = ExplainMode.standard;
  performance = PerformanceMode.native;
}

unfoldable pub capabilities : DbType → EngineCapabilities
unfolding for_engine
capabilities engine = for_engine engine

unfoldable pub supports_query_schema : DbType → Bool
supports_query_schema postgresql = true
supports_query_schema _ = false

abbrev pub all : List DbType
all = mysql ∷ postgresql ∷ sqlite ∷ sql_server ∷ mongodb ∷ redis ∷ clickhouse ∷ []

unfoldable pub profile_spec : DbType → EngineProfileSpec
profile_spec mysql = network "localhost" 3306 "root" Option.none
profile_spec postgresql = network "localhost" 5432 "postgres" Option.none
profile_spec sqlite = file ""
profile_spec sql_server = network "localhost" 1433 "" Option.none
profile_spec mongodb = network "localhost" 27017 "" Option.none
profile_spec redis = network "localhost" 6379 "" Option.none
profile_spec clickhouse = network "localhost" 8123 "default" (Option.some "default")
