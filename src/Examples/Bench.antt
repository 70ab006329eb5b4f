-- ===== src/Examples/Bench.antt =====
-- The workbench: tabs, answers, keys and risks.
use dbtabase_workbench.Common.{
  ◌≡◌, ◌≤◌, refl, true, false, none, some, List, [], ◌∷◌, ◌++◌, Text, text, ◌===◌, ascii_case,
  arith, trim, replace_all, replace_from, is_space,
}
use dbtabase_workbench.Decimal.{decimal}
use dbtabase_workbench.Sql.Ident.{mysql, postgres, is_valid_sql_ident}
use dbtabase_workbench.Sql.Build.{build_drop_table_sql}
use dbtabase_workbench.Sql.Drop.{
  extract_drop_confirmation_target, normalize, block_comment, line_comment,
}
use dbtabase_workbench.Table.Columns.{QueryResult}
use dbtabase_workbench.Workspace.{
  TableTab, WorkspaceTab, query_tab, table_tab, redis_key_tab, tab_id, create_query_tab,
  create_table_tab, create_redis_key_tab, create_redis_console_tab, table_tab_id,
}
use dbtabase_workbench.Workspace.Reload.{table_of_name, find_table_tab}
use dbtabase_workbench.Workbench.{Workbench, ready, type_target, confirm, safe}
use dbtabase_workbench.Workbench.Tabs.{is_open, close_tab, open_redis_console, open_redis_key}
use dbtabase_workbench.Workbench.Tabs.Closing.{count, close_tab-is_open, close_tab-neighbour}
use dbtabase_workbench.Workbench.Keys.{target_index, arrow_left, target_index-back}
use dbtabase_workbench.Workbench.Risk.{
  classify_client_risk, risk_of, object_target, named_object, after_if_exists, object_name,
  after_spaces,
}
use dbtabase_workbench.Words.{after_word}
use dbtabase_workbench.Workbench.Risk.Dropping.{classify_client_risk-drop_table}
use dbtabase_workbench.Workbench.Runs.{end_load}
use dbtabase_workbench.Workbench.Runs.Answers.{after_answers, shown_of, end_load-last}
use dbtabase_workbench.Workbench.Steps.{here, next, console_opened, key_opened}
use dbtabase_workbench.Workbench.Steps.Invariant.{Reaches-distinct}

abbrev pub bench : List WorkspaceTab → Text → Workbench
bench tabs active = record {
  connections = [];
  connection_id = text "c1";
  active_saved_id = [];
  connecting_id = [];
  objects = [];
  tabs = tabs;
  active_tab_id = active;
  query_tab_counter = 2;
  risk = none;
  transaction_id = [];
  session_state = ready;
  active_database = text "shop";
  databases = [];
  query_schema = [];
  query_table = [];
  switching_database = false;
  structure_tab_id = [];
  dirty_schema_tabs = [];
  redis_console_counter = 2;
  selected_redis_key = [];
  create_table_dialog = none;
  notice = none;
  history = [];
  stored_history = none;
}

abbrev first_query : WorkspaceTab
first_query = query_tab (create_query_tab (text "a") (text "SELECT 1") none)

abbrev key_tab : WorkspaceTab
key_tab = redis_key_tab (create_redis_key_tab (text "k"))

abbrev alone : Workbench
alone = bench (first_query ∷ []) (text "query:a")

console_or_key : (s : Text) → (text "redis-console:" ++ s === text "redis-key:k") ≡ false
unfolding ◌===◌
console_or_key s = refl

-- The button of the console is pressed twice before the sidebar is given a new one.
two_consoles :
    count (text "redis-console:2") (open_redis_console 2 (open_redis_console 2 alone)).tabs ≡ 2
unfolding count open_redis_console create_redis_console_tab create_query_tab decimal ◌===◌
two_consoles = refl

Reaches-distinct_example :
    count (text "redis-key:k") (open_redis_key (text "k") (open_redis_console 2 alone)).tabs ≤ 1
unfolding create_query_tab
Reaches-distinct_example =
    Reaches-distinct alone (open_redis_key (text "k") (open_redis_console 2 alone)) first_query
      (text "redis-key:k") refl (text "a", refl) (λ m. console_or_key (decimal m))
      (next (open_redis_console 2 alone) _ (next alone _ here (console_opened 2))
        (key_opened (text "k")))

abbrev users_tab : TableTab
users_tab = create_table_tab (table_of_name none (text "users")) mysql

abbrev pub page : QueryResult
page = record {
  query_id = text "q1";
  columns = none;
  rows = some ([] ∷ []);
  next_cursor = none;
  affected_rows = none;
  duration_ms = 3;
  truncated = none;
  running = false;
}

abbrev users_bench : Workbench
users_bench = bench (table_tab users_tab ∷ []) (text "table://users")

end_load-last_example :
    shown_of (
      find_table_tab
        (text "table://users")
        (end_load
          (text "table://users")
          users_tab
          page
          (after_answers (text "table://users") ((users_tab, page) ∷ []) users_bench)).tabs)
    ≡ some (users_tab.statement, some ([] ∷ []))
unfolding find_table_tab create_table_tab ◌===◌ table_tab_id
end_load-last_example =
    end_load-last (text "table://users") users_tab users_tab page ((users_tab, page) ∷ [])
      users_bench refl

abbrev both_open : Workbench
both_open = bench (first_query ∷ key_tab ∷ []) (text "redis-key:k")

close_tab-is_open_example :
    is_open
      (close_tab (text "redis-key:k") true both_open).active_tab_id
      (close_tab (text "redis-key:k") true both_open).tabs
    ≡ true
unfolding count is_open create_query_tab create_redis_key_tab ◌===◌
close_tab-is_open_example =
    close_tab-is_open (text "redis-key:k") true both_open (ground arith) refl

close_tab-neighbour_example :
    ((close_tab (tab_id key_tab) true both_open).tabs ≡ first_query ∷ [])
    × ((close_tab (tab_id key_tab) true both_open).active_tab_id ≡ tab_id first_query)
unfolding count create_query_tab create_redis_key_tab ◌===◌
close_tab-neighbour_example =
    close_tab-neighbour both_open [] [] first_query key_tab refl (ground arith) refl

target_index-back_example : target_index arrow_left 0 3 ≡ some 2
unfolding target_index
target_index-back_example = target_index-back 2 3 (omega arith) refl

classify_client_risk-drop_table_example :
    let sql = build_drop_table_sql postgres (text "public") (text "orders") in
    let target = text "public" ++ text "." ++ text "orders" in
    (classify_client_risk sql ≡ type_target (text "drop") target)
    × (extract_drop_confirmation_target ascii_case sql ≡ some target)
unfolding is_valid_sql_ident
classify_client_risk-drop_table_example =
    classify_client_risk-drop_table ascii_case (text "public") (text "orders") refl refl

classified : Unit {0}
unfolding classify_client_risk risk_of object_target named_object after_if_exists object_name
    normalize block_comment line_comment trim replace_all replace_from is_space after_word
    after_spaces ◌===◌
classified = tt

-- A name that begins with the word VIEW loses it: the dialog asks for the rest of the name.
truncated_views :
    classify_client_risk (text "TRUNCATE views") ≡ type_target (text "truncate") (text "s")
unfolding classified
truncated_views = refl

dropped_if_exists :
    classify_client_risk (text "drop table if exists a.b; -- c")
    ≡ type_target (text "drop") (text "a.b")
unfolding classified
dropped_if_exists = refl

updated_everywhere : classify_client_risk (text "UPDATE t SET a = 1") ≡ confirm
unfolding classified
updated_everywhere = refl

updated_somewhere : classify_client_risk (text "UPDATE t SET a = 1 where b") ≡ safe
unfolding classified
updated_somewhere = refl
