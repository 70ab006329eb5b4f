-- ===== src/Driver.antt =====
-- The kinds of databases: web/src/api/driver.ts. `DriverId | ''` is an option.
use dbtabase_workbench.Common.{ℕ, Bool, true, false, Option, none, some, Text, text}
use dbtabase_workbench.Sql.Ident.{SqlDriver, mysql, postgres}

pub data DriverId : Type 0 where
  sql : SqlDriver → DriverId
  mongodb redis : DriverId

pub data QueryLanguage : Type 0 where
  sql_language mongo_language redis_language : QueryLanguage

pub record ConnectionCapabilities : Type 0 where
  pub query_language : QueryLanguage
  pub document_browse : Option Bool
  pub aggregate_query : Option Bool
  pub index_edit : Option Bool
  pub schema_edit : Option Bool
  pub key_browse : Option Bool
  pub command_console : Option Bool
  pub row_edit : Option Bool
  pub supports_transactions : Option Bool
  pub supports_sql_workbench : Option Bool

abbrev pub is_sql_driver : Option DriverId → Bool
is_sql_driver (some (sql d)) = true
is_sql_driver _ = false

abbrev pub is_mongo_driver : Option DriverId → Bool
is_mongo_driver (some mongodb) = true
is_mongo_driver _ = false

abbrev pub is_redis_driver : Option DriverId → Bool
is_redis_driver (some redis) = true
is_redis_driver _ = false

abbrev pub default_port : DriverId → ℕ
default_port (sql mysql) = 3306
default_port (sql postgres) = 5432
default_port mongodb = 27017
default_port redis = 6379

abbrev pub sql_driver_or_default : Option DriverId → SqlDriver
sql_driver_or_default (some (sql mysql)) = mysql
sql_driver_or_default _ = postgres

abbrev pub driver_label : Option DriverId → Text
driver_label (some (sql mysql)) = text "MySQL"
driver_label (some (sql postgres)) = text "PostgreSQL"
driver_label (some mongodb) = text "MongoDB"
driver_label (some redis) = text "Redis"
driver_label none = text "数据库"
