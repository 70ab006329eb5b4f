-- ===== src/Examples/Admin.antt =====
-- The administration of a server that refuses to switch its database, and keeps the statements that
-- it is sent.
use dbtabase_workbench.Common.{
  ◌≡◌, refl, true, false, none, some, List, [], ◌∷◌, Text, text, ◌===◌, ascii_case,
}
use dbtabase_workbench.Sql.Build.{build_drop_database_sql}
use dbtabase_workbench.Sql.Ident.{mysql, postgres, ident_ref, is_valid_sql_ident}
use dbtabase_workbench.Sql.Drop.{extract_drop_confirmation_target}
use dbtabase_workbench.Driver.{sql}
use dbtabase_workbench.Connection.{WorkbenchTarget, personal}
use dbtabase_workbench.Act.{returned, raised, only_if, call, attempt, ◌>>=◌}
use dbtabase_workbench.Workbench.{Workbench, active_driver, active_connection}
use dbtabase_workbench.Workbench.Admin.{
  WorkbenchApi, handle_delete_database, switch_database, execute_admin_sql, await_admin_sql,
  tell_admin_failed, poll_query, refresh_databases, fallback_database,
}
use dbtabase_workbench.Workbench.Admin.Switching.{
  handle_delete_database-refused, switch_database-over,
}
use dbtabase_workbench.Workbench.Admin.Refused.{handle_delete_database-unswitched}
use dbtabase_workbench.Examples.Bench.{bench, page}

abbrev refusing : WorkbenchApi (List Text)
refusing = record {
  list_databases = λ c s. (returned (text "shop" ∷ [], text "shop"), s);
  switch_database = λ c d s. (raised (some (text "refused")), s);
  metadata = λ c s. (returned [], s);
  start_query = λ c q t s. (returned (text "q1"), q ∷ s);
  query_result = λ c q s. (returned page, s);
  disconnect = λ c s. (returned tt, s);
  connect_saved = λ c s. (raised none, s);
}

abbrev two_databases : Workbench
two_databases = record (bench [] []) { databases = text "shop" ∷ text "old" ∷ [] }

handle_delete_database-unswitched_example :
    let statement = build_drop_database_sql postgres (text "shop") in
    let target = extract_drop_confirmation_target ascii_case statement in
    (v : Workbench) × (v.active_database ≡ text "shop")
    × (v.connection_id ≡ text "c1")
    × (handle_delete_database refusing ascii_case 3 [] [] (text "shop") true (two_databases, [])
        ≡ (attempt
                (call (refusing.start_query (text "c1") statement target)
                  >>= await_admin_sql refusing ascii_case 3 (text "c1") (text "已删除数据库 shop"))
                (tell_admin_failed refusing ascii_case 3)
              >>= λ ok. only_if ok (refresh_databases refusing (text "c1")))
            (v, []))
unfolding fallback_database ◌===◌ active_driver active_connection
handle_delete_database-unswitched_example =
    handle_delete_database-unswitched refusing ascii_case 3 [] [] (text "shop")
      (some (text "refused")) two_databases [] [] refl refl refl refl refl

abbrev mysql_target : WorkbenchTarget
mysql_target = record {
  id = text "m1";
  name = text "m";
  driver = sql mysql;
  scope = personal;
  team_id = none;
  host = text "h";
  port = 3306;
  database = text "shop";
  has_secret = false;
}

-- A server of MySQL that has one database.
abbrev one_database : Workbench
one_database = record (bench [] []) {
  connections = mysql_target ∷ [];
  active_saved_id = text "m1";
  databases = text "shop" ∷ [];
}

handle_delete_database-refused_example :
    let r =
      handle_delete_database refusing ascii_case 3 [] [] (text "shop") true (one_database, []) in
    (r.0 ≡ returned tt) × (r.1.1 ≡ [])
unfolding active_driver active_connection ◌===◌
handle_delete_database-refused_example =
    handle_delete_database-refused refusing ascii_case 3 [] [] (text "shop") true one_database []
      refl

-- A server of PostgreSQL that has one database, which is `postgres`.
abbrev only_postgres : Workbench
only_postgres = record (bench [] []) {
  active_database = text "postgres";
  databases = text "postgres" ∷ [];
}

-- The fallback is the database itself, and the statement that drops it is sent.
drops_current :
    (handle_delete_database refusing ascii_case 3 [] []
      (text "postgres")
      true
      (only_postgres, [])).1.1
    ≡ text "DROP DATABASE postgres;" ∷ []
unfolding handle_delete_database fallback_database switch_database execute_admin_sql active_driver
    active_connection poll_query refresh_databases build_drop_database_sql ident_ref
    is_valid_sql_ident ◌===◌
drops_current = refl

switch_database-over_example :
    let r = switch_database refusing [] [] (text "old") (two_databases, []) in
    (r.0 ≡ returned tt) × (r.1.0.switching_database ≡ false)
switch_database-over_example =
    switch_database-over refusing [] [] (text "old") two_databases [] refl
