-- ===== src/Connection/Fields.antt =====
-- The fields of an unsaved connection: web/src/features/connections/connectionFields.ts.
pub mod Ready
use dbtabase_workbench.Common.{
  ℕ, Bool, true, false, not, ◌&&◌, ◌||◌, Option, none, some, List, [], ◌∷◌, ◌++◌, Text, text,
  truthy, trim, leb, ltb, ◌==◌, if◌then◌else◌,
}
use dbtabase_workbench.Sql.Ident.{mysql, postgres}
use dbtabase_workbench.Driver.{DriverId, sql, mongodb, redis, default_port}

pub record ConnectionInput : Type 0 where
  pub driver : DriverId
  pub host : Text
  pub port : ℕ
  pub database : Text
  pub user : Text
  pub password : Text
  pub tls_mode : Text

pub record FieldSpec : Type 0 where
  pub label : Text
  pub placeholder : Text
  pub required : Bool
  pub visible : Bool

-- `tlsOptions` as pairs of a value and its label.
pub record DriverFormSpec : Type 0 where
  pub database : FieldSpec
  pub user : FieldSpec
  pub password : FieldSpec
  pub tls_options : List (Text × Text)

abbrev pub tls_mysql : List (Text × Text)
tls_mysql =
    (text "disabled", text "关闭") ∷ (text "preferred", text "优先") ∷ (text "required", text "必须") ∷ []

abbrev pub tls_pg_mongo : List (Text × Text)
tls_pg_mongo =
    (text "disable", text "关闭")
    ∷ (text "prefer", text "优先")
    ∷ (text "require", text "必须")
    ∷ (text "verify-full", text "完整验证")
    ∷ []

abbrev pub tls_redis : List (Text × Text)
tls_redis = (text "disabled", text "关闭") ∷ (text "required", text "必须") ∷ []

abbrev pub field : Text → Text → Bool → FieldSpec
field label placeholder required = record {
  label = label;
  placeholder = placeholder;
  required = required;
  visible = true;
}

unfoldable pub driver_form_spec : DriverId → DriverFormSpec
driver_form_spec (sql mysql) = record {
  database = field (text "数据库") (text "数据库名") true;
  user = field (text "用户名") [] true;
  password = field (text "数据库密码") [] true;
  tls_options = tls_mysql;
}
driver_form_spec (sql postgres) = record {
  database = field (text "数据库") (text "留空默认 postgres，连接后可切换") false;
  user = field (text "用户名") [] true;
  password = field (text "数据库密码") [] true;
  tls_options = tls_pg_mongo;
}
driver_form_spec mongodb = record {
  database = field (text "默认库") (text "留空默认 admin，连接后可切换") false;
  user = field (text "用户名") (text "无认证可留空") false;
  password = field (text "数据库密码") (text "无认证可留空") false;
  tls_options = tls_pg_mongo;
}
driver_form_spec redis = record {
  database = field (text "DB 索引") (text "0–15，默认 0") false;
  user = field (text "用户名") (text "可选（Redis ACL）") false;
  password = field (text "密码") (text "可选") false;
  tls_options = tls_redis;
}

unfoldable pub default_tls_mode : DriverId → Text
default_tls_mode (sql mysql) = text "disabled"
default_tls_mode redis = text "disabled"
default_tls_mode (sql postgres) = text "prefer"
default_tls_mode mongodb = text "prefer"

-- The database of a driver, where the form names none.
abbrev pub default_database : DriverId → Text
default_database (sql mysql) = []
default_database (sql postgres) = text "postgres"
default_database mongodb = text "admin"
default_database redis = text "0"

unfoldable pub normalize_connection_input : ConnectionInput → ConnectionInput
normalize_connection_input input = record input {
  host = trim input.host;
  database =
      if truthy (trim input.database) then trim input.database else default_database input.driver;
  user = trim input.user;
}

abbrev pub is_redis : DriverId → Bool
is_redis redis = true
is_redis _ = false

abbrev pub is_mongodb : DriverId → Bool
is_mongodb mongodb = true
is_mongodb _ = false

-- `!Number.isInteger(index) || index < 0 || index > 15`, at the number that is read.
abbrev pub is_bad_index : Option ℕ → Bool
is_bad_index none = true
is_bad_index (some n) = ltb 15 n

-- The first error. `number` reads a number: `none` is no integer or a negative one.
unfoldable pub validate_connection_input : (Text → Option ℕ) → ConnectionInput → Option Text
validate_connection_input number input =
    let spec = driver_form_spec input.driver in
    if not (truthy (trim input.host))
    then some (text "请输入主机地址")
    else if input.port == 0 || ltb input.port 1 || ltb 65535 input.port
    then some (text "请输入有效端口")
    else if spec.database.required && not (truthy (trim input.database))
    then some (text "请输入" ++ spec.database.label)
    else if is_redis input.driver
        && truthy (trim input.database)
        && is_bad_index (number (trim input.database))
    then some (text "Redis DB 索引必须是 0–15 的整数")
    else if spec.user.required && not (truthy (trim input.user))
    then some (text "请输入用户名")
    else if spec.password.required && not (truthy input.password)
    then some (text "请输入数据库密码")
    else if is_mongodb input.driver && truthy (trim input.user) && not (truthy input.password)
    then some (text "填写 MongoDB 用户名时必须提供密码")
    else none

unfoldable pub connection_needs_stored_password : DriverId → Bool
connection_needs_stored_password (sql d) = true
connection_needs_stored_password _ = false

-- The driver, the port and the TLS mode.
unfoldable pub driver_defaults : DriverId → DriverId × ℕ × Text
driver_defaults driver = (driver, default_port driver, default_tls_mode driver)
