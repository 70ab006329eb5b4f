-- ===== src/Workspace.antt =====
-- The tabs of the workspace: web/src/features/workspace/types.ts.
pub mod Reload
use dbtabase_workbench.Common.{
  ℕ, ◌+◌, Bool, true, false, Option, none, some, List, [], ◌∷◌, ◌++◌, Text, text, ◌===◌,
}
use dbtabase_workbench.Decimal.{decimal}
use dbtabase_workbench.Driver.{DriverId, sql, mongodb, redis}
use dbtabase_workbench.Sql.Ident.{SqlDriver, mysql, postgres}
use dbtabase_workbench.Table.{DatabaseObject, TableFilterRule, TableSort}
use dbtabase_workbench.Table.Columns.{QueryResult, or_empty}
use dbtabase_workbench.Table.Query.{TableQueryOptions, qualified_table_name, build_table_select_sql}
use dbtabase_workbench.Table.Draft.{TableDraft}

pub data TabStatus : Type 0 where
  idle running error : TabStatus

pub record TableTab : Type 0 where
  pub id : Text
  pub title : Text
  pub table_object : DatabaseObject
  pub result : Option QueryResult
  pub query_id : Text
  pub status : TabStatus
  pub message : Text
  pub statement : Text
  pub page : ℕ
  pub page_size : ℕ
  pub filter_rules : List TableFilterRule
  pub sort : Option TableSort
  pub show_filter : Bool
  pub selected_row : Option ℕ
  pub draft : Option TableDraft

pub data ResultTab : Type 0 where
  result_tab history_tab : ResultTab

pub record QueryTab : Type 0 where
  pub id : Text
  pub title : Text
  pub statement : Text
  pub result : Option QueryResult
  pub query_id : Text
  pub status : TabStatus
  pub message : Text
  pub shown : ResultTab

pub data MongoSection : Type 0 where
  documents_section query_section schema_section : MongoSection

pub record MongoDocumentTab : Type 0 where
  pub id : Text
  pub title : Text
  pub collection : DatabaseObject
  pub section : MongoSection

pub record RedisKeyTab : Type 0 where
  pub id : Text
  pub title : Text
  pub key : Text

pub record RedisConsoleTab : Type 0 where
  pub id : Text
  pub title : Text

-- `'mongodb' | 'redis'`.
pub data HomeDriver : Type 0 where
  mongodb_home redis_home : HomeDriver

pub record DriverHomeTab : Type 0 where
  pub id : Text
  pub title : Text
  pub driver : HomeDriver

-- The `kind` of a tab is its constructor.
pub data WorkspaceTab : Type 0 where
  table_tab : TableTab → WorkspaceTab
  query_tab : QueryTab → WorkspaceTab
  mongo_document_tab : MongoDocumentTab → WorkspaceTab
  redis_key_tab : RedisKeyTab → WorkspaceTab
  redis_console_tab : RedisConsoleTab → WorkspaceTab
  driver_home_tab : DriverHomeTab → WorkspaceTab

-- `tab.id`.
abbrev pub tab_id : WorkspaceTab → Text
tab_id (table_tab t) = t.id
tab_id (query_tab t) = t.id
tab_id (mongo_document_tab t) = t.id
tab_id (redis_key_tab t) = t.id
tab_id (redis_console_tab t) = t.id
tab_id (driver_home_tab t) = t.id

unfoldable pub table_key : DatabaseObject → Text
table_key object =
    or_empty object.catalog ++ text "/" ++ or_empty object.schema ++ text "/" ++ object.name

unfoldable pub table_tab_id : DatabaseObject → Text
unfolding table_key
table_tab_id object = text "table:" ++ table_key object

unfoldable pub default_select_sql : DatabaseObject → SqlDriver → Text
default_select_sql object driver =
    build_table_select_sql object driver
      (record { filter_rules = []; sort = none; page = some 1; page_size = some 200 })

abbrev pub home_name : HomeDriver → Text
home_name mongodb_home = text "mongodb"
home_name redis_home = text "redis"

abbrev pub home_title : HomeDriver → Text
home_title mongodb_home = text "MongoDB 工作区"
home_title redis_home = text "Redis 工作区"

unfoldable pub create_driver_home_tab : HomeDriver → DriverHomeTab
create_driver_home_tab driver = record {
  id = text "home:" ++ home_name driver;
  title = home_title driver;
  driver = driver;
}

-- `fresh` is the result of `createId()`, and a missing title is `none`.
unfoldable pub create_query_tab : Text → Text → Option Text → QueryTab
create_query_tab fresh statement title = record {
  id = text "query:" ++ fresh;
  title = elim title [ none ↦ text "query_01" | some t ↦ t ];
  statement = statement;
  result = none;
  query_id = [];
  status = idle;
  message = text "尚未执行查询";
  shown = result_tab;
}

unfoldable pub create_mongo_document_tab : DatabaseObject → MongoDocumentTab
create_mongo_document_tab collection = record {
  id = text "mongo:" ++ or_empty collection.schema ++ text "/" ++ collection.name;
  title = collection.name ++ text " · 文档";
  collection = collection;
  section = documents_section;
}

unfoldable pub create_redis_key_tab : Text → RedisKeyTab
create_redis_key_tab key = record { id = text "redis-key:" ++ key; title = key; key = key }

unfoldable pub create_redis_console_tab : ℕ → RedisConsoleTab
create_redis_console_tab counter = record {
  id = text "redis-console:" ++ decimal counter;
  title = text "命令台 #" ++ decimal counter;
}

-- The tab and `nextRedisConsoleCounter`.
unfoldable pub create_default_workspace_tab : Text → Option DriverId → Text → ℕ → WorkspaceTab × ℕ
create_default_workspace_tab fresh driver initial_sql counter = elim driver [
  | none ↦ (query_tab (create_query_tab fresh initial_sql none), counter)
  | some d ↦ elim d [
    | sql s ↦ (query_tab (create_query_tab fresh initial_sql none), counter)
    | mongodb ↦ (driver_home_tab (create_driver_home_tab mongodb_home), counter)
    | redis ↦ (redis_console_tab (create_redis_console_tab counter), counter + 1)
  ]
]

unfoldable pub create_table_tab : DatabaseObject → SqlDriver → TableTab
create_table_tab object driver = record {
  id = table_tab_id object;
  title = qualified_table_name object;
  table_object = object;
  result = none;
  query_id = [];
  status = idle;
  message = text "正在加载…";
  statement = default_select_sql object driver;
  page = 1;
  page_size = 200;
  filter_rules = [];
  sort = none;
  show_filter = false;
  selected_row = none;
  draft = none;
}
