-- ===== src/Workbench/Steps.antt =====
-- The steps of the workbench, one for each piece of a handler of web/src/app/DatabaseWorkbench.tsx
-- that runs without a pause. Pieces of several handlers may follow each other in any order.
pub mod Names
pub mod Patches
pub mod Loading
pub mod Invariant
use dbtabase_workbench.Common.{
  ℕ, ◌<◌, ◌≡◌, Bool, Option, none, some, List, [], ◌∷◌, ◌++◌, Text, text,
}
use dbtabase_workbench.Decimal.{decimal}
use dbtabase_workbench.Driver.{DriverId}
use dbtabase_workbench.Table.{DatabaseObject}
use dbtabase_workbench.Table.Columns.{QueryResult}
use dbtabase_workbench.Workspace.{
  TableTab, QueryTab, WorkspaceTab, table_tab, query_tab, mongo_document_tab, redis_key_tab,
  redis_console_tab, driver_home_tab, MongoSection,
}
use dbtabase_workbench.Workspace.Reload.{TableReloadOptions}
use dbtabase_workbench.Workspace.Reload.Tabs.{IsAsked}
use dbtabase_workbench.Workbench.{
  Workbench, Tone, update_tab, with_section, report_connection_feedback,
}
use dbtabase_workbench.Workbench.Tabs.{
  open_query_tab, open_query_for_table, open_table_structure, open_redis_key, open_redis_console,
  reset_workspace, close_tab, forget_table,
}
use dbtabase_workbench.Workbench.Tabs.Closing.{count}
use dbtabase_workbench.Workbench.Keys.{TabKey, press_key}
use dbtabase_workbench.Workbench.Runs.{
  begin_load, query_started, end_load, fail_load, load_table_data, begin_run, Stamp, end_run,
  fail_run,
}
use dbtabase_workbench.Workbench.Risk.{execute}

-- The handlers that the sidebar has been given read the counter of the consoles as it was when they
-- were given, so `number` is any number in a step that opens a console or resets the workspace.
-- A step that opens a query has a fresh text from `createId()`, which no tab has in its id.
pub data Step (w : Workbench) : Workbench → Type 0 where
  queried :
      (fresh statement : Text) (title : Option Text)
      → count (text "query:" ++ fresh) w.tabs ≡ 0
      → Step w (open_query_tab fresh statement title w)
  queried_table :
      (fresh : Text) (table : DatabaseObject)
      → count (text "query:" ++ fresh) w.tabs ≡ 0
      → Step w (open_query_for_table fresh table w)
  structured : (table : DatabaseObject) → Step w (open_table_structure table w)
  loaded : (table : DatabaseObject) → Step w (load_table_data table w).0
  reloaded :
      (id : Text) (options : TableReloadOptions)
      → IsAsked id options.object
      → Step w (begin_load id options w).0
  started : (id query : Text) → Step w (query_started id query w)
  load_ended :
      (id : Text) (snapshot : TableTab) (page : QueryResult) → Step w (end_load id snapshot page w)
  load_failed : (id : Text) (message : Option Text) → Step w (fail_load id message w)
  executed : Step w (execute w).0
  run_begun : Step w (begin_run w).0
  run_ended :
      (stamp : Stamp) (t : QueryTab) (connection : Text) (page : QueryResult)
      → Step w (end_run stamp t connection page w)
  run_failed :
      (stamp : Stamp) (t : QueryTab) (connection : Text) (message : Option Text)
      → Step w (fail_run stamp t connection message w)
  key_opened : (key : Text) → Step w (open_redis_key key w)
  console_opened : (number : ℕ) → Step w (open_redis_console number w)
  sectioned : (id : Text) (section : MongoSection) → Step w (update_tab id (with_section section) w)
  reported : (message : Text) (tone : Tone) → Step w (report_connection_feedback message tone w)
  pressed : (key : TabKey) (id : Text) → Step w (press_key key id w)
  closed : (id : Text) (discard : Bool) → Step w (close_tab id discard w)
  forgotten : (table : DatabaseObject) → Step w (forget_table table w)
  reset :
      (number : ℕ) (fresh initial_sql : Text) (driver : Option DriverId)
      → Step w
          (reset_workspace fresh initial_sql driver (record w { redis_console_counter = number }))

pub data Reaches (w : Workbench) : Workbench → Type 0 where
  here : Reaches w w
  next : (v u : Workbench) → Reaches w v → Step v u → Reaches w u

-- A tab has the id of its kind.
abbrev pub IsNamed : WorkspaceTab → Type 0
IsNamed (table_tab t) = (s : Text) × (t.id ≡ text "table:" ++ s)
IsNamed (query_tab t) = (s : Text) × (t.id ≡ text "query:" ++ s)
IsNamed (mongo_document_tab t) = (s : Text) × (t.id ≡ text "mongo:" ++ s)
IsNamed (redis_key_tab t) = (s : Text) × (t.id ≡ text "redis-key:" ++ s)
IsNamed (redis_console_tab t) = (k : ℕ) × (t.id ≡ text "redis-console:" ++ decimal k)
IsNamed (driver_home_tab t) = (s : Text) × (t.id ≡ text "home:" ++ s)
