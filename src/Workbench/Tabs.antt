-- ===== src/Workbench/Tabs.antt =====
-- Opening, showing and closing tabs: the handlers of web/src/app/DatabaseWorkbench.tsx.
pub mod Closing
use dbtabase_workbench.Common.{
  ℕ, ◌+◌, ◌-◌, Bool, true, false, not, ◌&&◌, ◌||◌, Option, none, some, List, [], ◌∷◌, ◌++◌, Text,
  text, ◌===◌, ◌==◌, any, filter, get_elem?, length, ltb, if◌then◌else◌,
}
use dbtabase_workbench.Decimal.{decimal}
use dbtabase_workbench.Driver.{DriverId, is_mongo_driver, sql_driver_or_default}
use dbtabase_workbench.Sql.Ident.{SqlDriver}
use dbtabase_workbench.Table.{DatabaseObject}
use dbtabase_workbench.Table.Columns.{or_empty}
use dbtabase_workbench.Table.Query.{qualified_table_name}
use dbtabase_workbench.Workspace.{
  WorkspaceTab, table_tab, query_tab, mongo_document_tab, redis_key_tab, redis_console_tab, tab_id,
  MongoSection, query_section, schema_section, create_query_tab, create_mongo_document_tab,
  create_redis_key_tab, create_redis_console_tab, create_default_workspace_tab, create_table_tab,
  default_select_sql, table_tab_id,
}
use dbtabase_workbench.Workspace.Reload.{given}
use dbtabase_workbench.Workbench.{
  Workbench, active_driver, patch_tab, with_section, has_mongo_tab, first_tab,
}

-- `[...current, tab]`, unless some tab has the id.
unfoldable pub is_open : Text → List WorkspaceTab → Bool
is_open id = any (λ t. tab_id t === id)

unfoldable pub open_tab : WorkspaceTab → List WorkspaceTab → List WorkspaceTab
open_tab tab current = if is_open (tab_id tab) current then current else current ++ (tab ∷ [])

-- `String(n).padStart(2, '0')`.
abbrev pub padded : ℕ → Text
padded n = if ltb n 10 then text "0" ++ decimal n else decimal n

-- `fresh` is the result of `createId()`.
unfoldable pub open_query_tab : Text → Text → Option Text → Workbench → Workbench
open_query_tab fresh statement title w =
    let named = given title (text "query_" ++ padded w.query_tab_counter) in
    let tab = create_query_tab fresh statement (some named) in
    record w {
      query_tab_counter = w.query_tab_counter + 1;
      tabs = w.tabs ++ (query_tab tab ∷ []);
      active_tab_id = tab.id;
    }

abbrev pub mongo_id : DatabaseObject → Text
mongo_id table = text "mongo:" ++ or_empty table.schema ++ text "/" ++ table.name

-- The tabs with the collection open at a section.
unfoldable pub at_section : DatabaseObject → MongoSection → List WorkspaceTab → List WorkspaceTab
at_section table section current =
    if has_mongo_tab (mongo_id table) current
    then patch_tab (mongo_id table) (with_section section) current
    else current
      ++ (with_section section (mongo_document_tab (create_mongo_document_tab table)) ∷ [])

abbrev pub show_section : DatabaseObject → MongoSection → Workbench → Workbench
show_section table section w = record w {
  tabs = at_section table section w.tabs;
  active_tab_id = mongo_id table;
}

unfoldable pub open_query_for_table : Text → DatabaseObject → Workbench → Workbench
open_query_for_table fresh table w =
    if is_mongo_driver (active_driver w)
    then show_section table query_section w
    else open_query_tab fresh (default_select_sql table (sql_driver_or_default (active_driver w)))
        none
        (record w {
          query_schema = or_empty table.schema;
          query_table = qualified_table_name table;
        })

unfoldable pub open_table_structure : DatabaseObject → Workbench → Workbench
open_table_structure table w =
    if is_mongo_driver (active_driver w) then show_section table schema_section w else record w {
      tabs =
          open_tab (table_tab (create_table_tab table (sql_driver_or_default (active_driver w))))
            w.tabs;
      active_tab_id = table_tab_id table;
      structure_tab_id = table_tab_id table;
    }

-- The branch of `loadTableData` for a collection, which is called without a tab's id.
unfoldable pub open_collection : DatabaseObject → Workbench → Workbench
open_collection table w = record w {
  tabs = open_tab (mongo_document_tab (create_mongo_document_tab table)) w.tabs;
  active_tab_id = mongo_id table;
}

unfoldable pub open_redis_key : Text → Workbench → Workbench
open_redis_key key w =
    let tab = redis_key_tab (create_redis_key_tab key) in
    record w { selected_redis_key = key; tabs = open_tab tab w.tabs; active_tab_id = tab_id tab }

-- `number` is the counter that the closure of the button has. The dependencies of the sidebar leave
-- the counter out, so it may be an older one.
unfoldable pub open_redis_console : ℕ → Workbench → Workbench
open_redis_console number w =
    let tab = redis_console_tab (create_redis_console_tab number) in
    record w {
      redis_console_counter = w.redis_console_counter + 1;
      tabs = w.tabs ++ (tab ∷ []);
      active_tab_id = tab_id tab;
    }

unfoldable pub reset_workspace : Text → Text → Option DriverId → Workbench → Workbench
reset_workspace fresh initial_sql driver w =
    let opened = create_default_workspace_tab fresh driver initial_sql w.redis_console_counter in
    record w {
      objects = [];
      tabs = opened.0 ∷ [];
      active_tab_id = tab_id opened.0;
      query_tab_counter = 2;
      structure_tab_id = [];
      selected_redis_key = [];
      redis_console_counter = opened.1;
      transaction_id = [];
    }

abbrev pub keeps : Text → WorkspaceTab → Bool
keeps id t = not (tab_id t === id)

-- `current.findIndex((tab) => tab.id === tabId)`, of an id that is there.
unfoldable pub index_of : Text → List WorkspaceTab → ℕ
index_of id [] = 0
index_of id (t ∷ ts) = let rest = index_of id ts in if tab_id t === id then 0 else rest + 1

-- The tab that is shown after the one at the index: `next[Math.max(0, index - 1)] ?? next[0]`.
unfoldable pub fallback_tab : ℕ → List WorkspaceTab → Option WorkspaceTab
fallback_tab index next = elim (get_elem? next (index - 1)) [
  | some t ↦ some t
  | none ↦ first_tab next
]

abbrev pub id_or : Text → Option WorkspaceTab → Text
id_or id none = id
id_or id (some t) = tab_id t

-- `discard` is the answer of the dialog that asks whether the changes of the structure are lost.
unfoldable pub close_tab : Text → Bool → Workbench → Workbench
close_tab id discard w =
    if any (λ k. k === id) w.dirty_schema_tabs && not discard
    then w
    else if length w.tabs == 1
    then w
    else let next = filter (keeps id) w.tabs in
      record w {
        tabs = next;
        active_tab_id =
            if w.active_tab_id === id
            then id_or w.active_tab_id (fallback_tab (index_of id w.tabs) next)
            else w.active_tab_id;
      }

-- The tab of a table that was dropped is closed by `handleDeleteTable`.
unfoldable pub forget_table : DatabaseObject → Workbench → Workbench
forget_table table w =
    let id = table_tab_id table in
    let remaining = filter (keeps id) w.tabs in
    record w {
      tabs = remaining;
      active_tab_id =
          if w.active_tab_id === id
          then id_or w.active_tab_id (first_tab remaining)
          else w.active_tab_id;
      structure_tab_id = if w.structure_tab_id === id then [] else w.structure_tab_id;
    }
