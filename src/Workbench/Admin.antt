-- ===== src/Workbench/Admin.antt =====
-- The handlers of web/src/app/DatabaseWorkbench.tsx that administer a server: they switch, create and
-- drop databases and tables, and open a connection. A dialog's answer is an argument of the handler.
pub mod Switching
pub mod Refused
use dbtabase_workbench.Common.{
  ℕ, zero, suc, ◌+◌, Bool, true, false, not, ◌&&◌, ◌||◌, Option, none, some, List, [], ◌∷◌, ◌++◌,
  Text, text, truthy, trim, find, ◌===◌, if◌then◌else◌, CaseMapping,
}
use dbtabase_workbench.Driver.{DriverId, sql, sql_driver_or_default}
use dbtabase_workbench.Sql.Ident.{SqlDriver, mysql, postgres, is_valid_sql_ident}
use dbtabase_workbench.Sql.Build.{
  CreateTableColumn, build_create_database_sql, build_create_table_sql, build_drop_database_sql,
  build_drop_table_sql, is_mysql,
}
use dbtabase_workbench.Sql.Drop.{extract_drop_confirmation_target}
use dbtabase_workbench.Table.{DatabaseObject}
use dbtabase_workbench.Table.Columns.{QueryResult, or_empty}
use dbtabase_workbench.Table.Query.{qualified_table_name}
use dbtabase_workbench.Workspace.{WorkspaceTab, TabStatus, idle, error}
use dbtabase_workbench.Workspace.Reload.{given}
use dbtabase_workbench.Connection.{WorkbenchTarget}
use dbtabase_workbench.Workbench.{
  Workbench, SessionState, ready, loading, failed, Notice, info_tone, error_tone, active_driver,
  update_tab, with_status, with_message, find_query_tab, report_connection_feedback,
}
use dbtabase_workbench.Workbench.Tabs.{reset_workspace, forget_table}
use dbtabase_workbench.Act.{
  Called, returned, raised, Act, only_if, ◌>>=◌, ◌>>◌, give, now, edit, call, raise, attempt,
}

-- `activeConnection?.driver ?? 'mysql'`.
abbrev pub or_mysql : Option DriverId → Option DriverId
or_mysql none = some (sql mysql)
or_mysql (some d) = some d

-- The tab of a query that is there gets a status and a message.
unfoldable pub tell_query : TabStatus → Text → Workbench → Workbench
tell_query status message w = elim (find_query_tab w.tabs) [
  | none ↦ w
  | some t ↦ update_tab t.id (with_status status message) w
]

abbrev pub with_databases : List Text × Text → Workbench → Workbench
with_databases page w = record w { databases = page.0; active_database = page.1 }

-- The schema of a table that is dropped.
unfoldable pub schema_of : SqlDriver → Text → DatabaseObject → Text
schema_of driver database table =
    if truthy (or_empty table.schema)
    then or_empty table.schema
    else if is_mysql driver
    then database
    else text "public"

-- The database that is opened before the current one is dropped; the empty text stands for none.
unfoldable pub fallback_database : SqlDriver → Text → List Text → Text
fallback_database driver database databases =
    elim (find (λ name. not (name === database)) databases) [
      | some name ↦ name
      | none ↦ if is_mysql driver then [] else text "postgres"
    ]

abbrev pub is_ready : SessionState → Bool
is_ready ready = true
is_ready loading = false
is_ready failed = false

abbrev pub tell_switch_failed : {S : Type 0} → Text → Option Text → Act Workbench S (Unit {0})
tell_switch_failed tab e = edit (update_tab tab (with_status error (given e (text "切换数据库失败"))))

abbrev pub tell_connection_failed : {S : Type 0} → Option Text → Act Workbench S (Unit {0})
tell_connection_failed e = edit (λ v.
    report_connection_feedback (given e (text "连接失败")) error_tone (record v { connection_id = [] }))

-- The calls of the API client that the handlers make. `start_query` has the target of a confirmed
-- statement, where there is one.
pub record WorkbenchApi (S : Type 0) : Type 0 where
  pub list_databases : Text → S → Called (List Text × Text) × S
  pub switch_database : Text → Text → S → Called Text × S
  pub metadata : Text → S → Called (List DatabaseObject) × S
  pub start_query : Text → Text → Option Text → S → Called Text × S
  pub query_result : Text → Text → S → Called QueryResult × S
  pub disconnect : Text → S → Called (Unit {0}) × S
  pub connect_saved : Text → S → Called (Text × Text) × S

module _ {S : Type 0} (api : WorkbenchApi S) where
  -- The rounds are those that the deadline leaves: each but the last waits for 150 ms.
  unfoldable pub poll_query : ℕ → Text → Text → Act Workbench S QueryResult
  poll_query zero connection id = raise (some (text "查询超时，请点击停止后重试"))
  poll_query (suc rounds) connection id =
      let again = poll_query rounds connection id in
      do page ← call (api.query_result connection id); (if page.running then again else give page)

  unfoldable pub refresh_databases : Text → Act Workbench S (Unit {0})
  refresh_databases id = do page ← call (api.list_databases id); edit (with_databases page)

  unfoldable pub refresh_metadata : Act Workbench S (Unit {0})
  refresh_metadata = do
    w ← now
    only_if (truthy w.connection_id) (do
      objects ← call (api.metadata w.connection_id)
      edit (λ v. record v { objects = objects }))

  -- The rest of the `try` block of `switchDatabase` after its first call, with the id of the tab that
  -- was opened before.
  unfoldable pub show_database : Text → Text → Text → Act Workbench S (Unit {0})
  show_database connection tab name = do
    edit (λ v. record v { active_database = name })
    objects ← call (api.metadata connection)
    edit (λ v. record v { objects = objects })
    refresh_databases connection
    edit (update_tab tab (with_message (text "已切换到数据库 " ++ name)))

  unfoldable pub open_database : Text → Text → Text → Act Workbench S (Unit {0})
  open_database connection database tab =
      call (api.switch_database connection database) >>= show_database connection tab

  -- `fresh` is the result of `createId()` in `resetWorkspace`.
  unfoldable pub switch_database : Text → Text → Text → Act Workbench S (Unit {0})
  switch_database fresh initial_sql database = do
    w ← now
    (if not (truthy w.connection_id) || database === w.active_database then give tt else do
      edit (λ v.
          reset_workspace fresh initial_sql (or_mysql (active_driver w))
            (record v { switching_database = true }))
      opened ← now
      attempt (open_database w.connection_id database opened.active_tab_id)
          (tell_switch_failed opened.active_tab_id)
      edit (λ v. record v { switching_database = false }))

  -- The `try` block of `selectWorkbenchConnection`.
  unfoldable pub open_connection : Text → Text → WorkbenchTarget → Text → Act Workbench S (Unit {0})
  open_connection fresh initial_sql target before = do
    only_if (truthy before) (call (api.disconnect before))
    result ← call (api.connect_saved target.id)
    edit (reset_workspace fresh initial_sql (some target.driver))
    opened ← now
    edit (λ v. record v { connection_id = result.0; active_database = result.1 })
    refresh_databases result.0
    objects ← call (api.metadata result.0)
    edit (λ v. record v { objects = objects })
    let message = text "已连接到 " ++ target.name ++ text " / " ++ result.1
    edit (λ v. record v { notice = some (record { tone = info_tone; message = message }) })
    edit (update_tab opened.active_tab_id (with_message message))

  unfoldable pub select_connection : Text → Text → WorkbenchTarget → Act Workbench S (Unit {0})
  select_connection fresh initial_sql target = do
    w ← now
    (if target.id === w.active_saved_id && truthy w.connection_id
        then edit (report_connection_feedback (text "已连接 " ++ target.name) info_tone)
        else if not (is_ready w.session_state)
        then give tt
        else do
          edit (λ v. record v { connecting_id = target.id; active_saved_id = target.id })
          attempt (open_connection fresh initial_sql target w.connection_id) tell_connection_failed
          edit (λ v. record v { connecting_id = [] }))

module _ {S : Type 0} (api : WorkbenchApi S) (letters : CaseMapping) (rounds : ℕ) where
  -- What follows the start of the query.
  abbrev pub await_admin_sql : Text → Text → Text → Act Workbench S Bool
  await_admin_sql connection success_message id = do
    page ← poll_query api rounds connection id
    edit (tell_query idle success_message)
    give true

  abbrev pub tell_admin_failed : Option Text → Act Workbench S Bool
  tell_admin_failed e = do edit (tell_query error (given e (text "SQL 执行失败"))); give false

  abbrev pub send_admin_sql : Text → Text → Text → Act Workbench S Bool
  send_admin_sql connection statement success_message =
      let target = extract_drop_confirmation_target letters statement in
      attempt
        (call (api.start_query connection statement target)
          >>= await_admin_sql connection success_message)
        tell_admin_failed

  unfoldable pub execute_admin_sql : Text → Text → Act Workbench S Bool
  execute_admin_sql statement success_message = do
    w ← now
    (if not (truthy w.connection_id)
        then give false
        else send_admin_sql w.connection_id statement success_message)

  -- `name` is what the user has typed, where the dialog was not cancelled.
  unfoldable pub handle_create_database : Option Text → Act Workbench S (Unit {0})
  handle_create_database name = do
    w ← now
    let db_name = trim (or_empty name)
    (if not (truthy w.connection_id) || not (truthy db_name)
        then give tt
        else if not (is_valid_sql_ident db_name)
        then edit (update_tab w.active_tab_id (with_status error (text "名称仅支持字母、数字和下划线，且不能以数字开头")))
        else do
          ok ←
              execute_admin_sql
                (build_create_database_sql (sql_driver_or_default (active_driver w)) db_name)
                (text "已创建数据库 " ++ db_name)
          only_if ok (refresh_databases api w.connection_id))

  unfoldable pub handle_create_table_submit :
      Text → Text → Text → Text → List CreateTableColumn → Act Workbench S (Unit {0})
  handle_create_table_submit fresh initial_sql database table_name columns = do
    w ← now
    (if not (truthy w.connection_id) then give tt else do
      let driver = sql_driver_or_default (active_driver w)
      edit (λ v. record v { create_table_dialog = none })
      only_if (not (database === w.active_database))
          (switch_database api fresh initial_sql database)
      ok ←
          execute_admin_sql
            (build_create_table_sql driver (if is_mysql driver then database else text "public")
              table_name columns)
            (text "已在 " ++ database ++ text " 创建表 " ++ table_name)
      only_if ok (refresh_metadata api))

  -- `agreed` is the answer to the question whether the database is to be dropped.
  unfoldable pub handle_delete_database : Text → Text → Text → Bool → Act Workbench S (Unit {0})
  handle_delete_database fresh initial_sql database agreed = do
    w ← now
    let driver = sql_driver_or_default (active_driver w)
    let current = database === w.active_database
    let fallback = fallback_database driver database w.databases
    (if not (truthy w.connection_id) || not agreed
        then give tt
        else if current && not (truthy fallback)
        then edit (update_tab w.active_tab_id (with_status error (text "无法删除当前唯一的数据库")))
        else do
          only_if current (switch_database api fresh initial_sql fallback)
          ok ←
              execute_admin_sql (build_drop_database_sql driver database)
                (text "已删除数据库 " ++ database)
          only_if ok (refresh_databases api w.connection_id))

  unfoldable pub handle_delete_table : DatabaseObject → Bool → Act Workbench S (Unit {0})
  handle_delete_table table agreed = do
    w ← now
    let driver = sql_driver_or_default (active_driver w)
    (if not (truthy w.connection_id) || not agreed then give tt else do
      ok ←
          execute_admin_sql
            (build_drop_table_sql driver (schema_of driver w.active_database table) table.name)
            (text "已删除表 " ++ qualified_table_name table)
      only_if ok (do edit (forget_table table); refresh_metadata api))
