-- ===== src/Examples/Loads.antt =====
-- Loading a table into a tab.
use dbtabase_workbench.Common.{◌≡◌, refl, true, false, none, some, List, [], ◌∷◌, Text, text, ◌===◌}
use dbtabase_workbench.Sql.Ident.{mysql}
use dbtabase_workbench.Workspace.{
  WorkspaceTab, redis_console_tab, table_tab, create_redis_console_tab, create_table_tab,
  table_tab_id, table_key,
}
use dbtabase_workbench.Workspace.Reload.{
  Overrides, TableReloadOptions, find_table_tab, reload_snapshot, prepare_table_tab_reload,
  table_of_name, replace_tab,
}
use dbtabase_workbench.Workspace.Reload.Tabs.{tab_of, prepare_table_tab_reload-shown}

abbrev as_it_is : Overrides
as_it_is = record {
  page = none;
  page_size = none;
  filter_rules = none;
  sort = none;
  show_filter = none;
  selected_row = none;
  draft = none;
}

abbrev open_users : TableReloadOptions
open_users = record {
  object = some (table_of_name none (text "users"));
  overrides = as_it_is;
  reset_draft = true;
}

abbrev nothing_given : TableReloadOptions
nothing_given = record { object = none; overrides = as_it_is; reset_draft = false }

abbrev console : List WorkspaceTab
console = redis_console_tab (create_redis_console_tab 1) ∷ []

abbrev users_id : Text
users_id = text "table://users"

abbrev loaded_users : List WorkspaceTab
loaded_users =
    redis_console_tab (create_redis_console_tab 1)
    ∷ table_tab (
        reload_snapshot (create_table_tab (table_of_name none (text "users")) mysql) mysql
          open_users)
    ∷ []

prepare_table_tab_reload-shown_example :
    tab_of users_id loaded_users
    ≡ some (
        table_tab (
          reload_snapshot
            (create_table_tab (table_of_name none (text "users")) mysql)
            mysql
            open_users))
unfolding prepare_table_tab_reload find_table_tab replace_tab reload_snapshot create_table_tab
    table_tab_id table_key create_redis_console_tab ◌===◌
prepare_table_tab_reload-shown_example =
    prepare_table_tab_reload-shown console users_id users_id mysql open_users refl refl
