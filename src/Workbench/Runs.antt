-- ===== src/Workbench/Runs.antt =====
-- Running a query and loading a table: `run`, `execute`, `reloadTableTab` and `loadTableData` of
-- web/src/app/DatabaseWorkbench.tsx. A handler that waits for the server is cut at its `await`s: each
-- piece runs without a pause, and pieces of other handlers may come between two of them.
pub mod Answers
use dbtabase_workbench.Common.{
  ℕ, Bool, true, false, not, ◌&&◌, ◌||◌, Option, none, some, List, [], ◌∷◌, ◌++◌, Text, text,
  truthy, trim, length, find, ◌===◌, if◌then◌else◌,
}
use dbtabase_workbench.Decimal.{decimal}
use dbtabase_workbench.Driver.{is_mongo_driver, sql_driver_or_default}
use dbtabase_workbench.Table.{DatabaseObject}
use dbtabase_workbench.Table.Columns.{QueryResult, list_or_nil, preserve_result_columns}
use dbtabase_workbench.History.{
  HistoryEntry, QueryStatus, success, failure, list_history, add_history,
}
use dbtabase_workbench.Workspace.{
  TableTab, QueryTab, WorkspaceTab, query_tab, idle, running, error, result_tab, table_tab_id,
}
use dbtabase_workbench.Workspace.Reload.{
  TableReloadOptions, Overrides, find_table_tab, prepare_table_tab_reload, given,
}
use dbtabase_workbench.Workbench.{
  Workbench, QueryRisk, safe, active_connection, active_driver, active_query_tab, update_tab,
  with_status, with_query_id, with_result,
}
use dbtabase_workbench.Workbench.Tabs.{open_collection}

-- `reloadTableTab` up to the call of `startQuery`, with the loaded tab where the call is made.
unfoldable pub begin_load : Text → TableReloadOptions → Workbench → Workbench × Option TableTab
begin_load id options w =
    if not (truthy w.connection_id)
    then (w, none)
    else elim (prepare_table_tab_reload w.tabs id (sql_driver_or_default (active_driver w))
        options) [
          | none ↦ (update_tab id (with_status error (text "无法打开表标签，请重试")) w, none)
          | some r ↦ (record w { tabs = r.0 }, some r.1)
        ]

-- `updateTab(id, {queryId: query})`.
unfoldable pub query_started : Text → Text → Workbench → Workbench
query_started id query w = update_tab id (with_query_id query) w

unfoldable pub row_count : QueryResult → ℕ
row_count page = length (list_or_nil page.rows)

unfoldable pub loaded_message : TableTab → QueryResult → Text
unfolding row_count
loaded_message snapshot page =
    text "表 "
    ++ snapshot.title
    ++ text " · "
    ++ decimal (row_count page)
    ++ text " 行 · 第 "
    ++ decimal snapshot.page
    ++ text " 页"

unfoldable pub result_of : Option TableTab → Option QueryResult
result_of none = none
result_of (some t) = t.result

-- The page has come.
unfoldable pub end_load : Text → TableTab → QueryResult → Workbench → Workbench
end_load id snapshot page w =
    let merged = preserve_result_columns (result_of (find_table_tab id w.tabs)) page in
    update_tab id
      (λ t. with_result (some merged) (with_status idle (loaded_message snapshot merged) t)) w

-- The request has failed; `none` is an error without a message.
unfoldable pub fail_load : Text → Option Text → Workbench → Workbench
fail_load id message w = update_tab id (with_status error (given message (text "加载表数据失败"))) w

abbrev pub nothing_overridden : Overrides
nothing_overridden = record {
  page = none;
  page_size = none;
  filter_rules = none;
  sort = none;
  show_filter = none;
  selected_row = none;
  draft = none;
}

abbrev pub load_options : DatabaseObject → Bool → TableReloadOptions
load_options table reset = record {
  object = some table;
  overrides = nothing_overridden;
  reset_draft = reset;
}

-- `loadTableData`, called without a tab's id, up to the call of `startQuery`.
unfoldable pub load_table_data : DatabaseObject → Workbench → Workbench × Option TableTab
load_table_data table w =
    if not (truthy w.connection_id)
    then (w, none)
    else if is_mongo_driver (active_driver w)
    then (open_collection table w, none)
    else let id = table_tab_id table in
      begin_load id (load_options table true) (record w { active_tab_id = id })

-- The patch of a query's tab, `result`, `resultTab`, `status` and `message`.
unfoldable pub with_page : QueryResult → Text → WorkspaceTab → WorkspaceTab
with_page page msg (query_tab t) =
    query_tab (record t { result = some page; status = idle; shown = result_tab; message = msg })
with_page page msg t = with_result (some page) (with_status idle msg t)

-- `run` up to the call of `startQuery`, with the tab whose statement is sent.
unfoldable pub begin_run : Workbench → Workbench × Option QueryTab
begin_run w = elim (active_query_tab w) [
  | none ↦ (w, none)
  | some t ↦
      if not (truthy w.connection_id) || not (truthy (trim t.statement)) then (w, none) else (
        update_tab t.id
            (λ u. with_query_id [] (with_result none (with_status running (text "正在执行…") u)))
            (record w { risk = none }),
        some t,
      )
]

unfoldable pub connection_name : Workbench → Text
connection_name w = elim (active_connection w) [ none ↦ text "当前连接" | some c ↦ c.name ]

-- The id and the time that an entry of the history is given.
pub record Stamp : Type 0 where
  pub id : Text
  pub timestamp : ℕ

unfoldable pub run_entry : Stamp → Text → Text → Option ℕ → QueryStatus → Option ℕ → HistoryEntry
run_entry stamp statement connection duration status affected = record {
  id = stamp.id;
  sql = statement;
  connection_name = connection;
  database = none;
  timestamp = stamp.timestamp;
  duration_ms = duration;
  status = status;
  affected_rows = affected;
  favorite = none;
}

-- `addHistory(entry); setHistory(listHistory())`.
unfoldable pub remember : HistoryEntry → Workbench → Workbench
remember entry w =
    let stored = add_history entry w.stored_history in
    record w { stored_history = stored; history = list_history stored }

unfoldable pub run_message : QueryResult → Text
unfolding row_count
run_message page =
    text "完成 · "
    ++ decimal (row_count page)
    ++ text " 行 · "
    ++ decimal page.duration_ms
    ++ text " ms"

-- The tab and the connection's name are those of the beginning of the run.
unfoldable pub end_run : Stamp → QueryTab → Text → QueryResult → Workbench → Workbench
end_run stamp t connection page w =
    remember
      (run_entry stamp t.statement connection (some page.duration_ms) success page.affected_rows)
      (update_tab t.id (with_page page (run_message page)) w)

unfoldable pub fail_run : Stamp → QueryTab → Text → Option Text → Workbench → Workbench
fail_run stamp t connection message w =
    remember (run_entry stamp t.statement connection none failure none)
      (update_tab t.id (with_status error (given message (text "查询执行失败"))) w)
