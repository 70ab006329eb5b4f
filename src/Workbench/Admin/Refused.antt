-- ===== src/Workbench/Admin/Refused.antt =====
-- What the administration of a server does after a switch of the database that failed.
use dbtabase_workbench.Common.{
  ℕ, ◌≡◌, refl, ap, ◌∙◌, Bool, if◌then◌else◌, true, false, not, ◌||◌, Option, ◌++◌, Text, text,
  truthy, ◌===◌, CaseMapping, arith,
}
use dbtabase_workbench.Driver.{sql_driver_or_default}
use dbtabase_workbench.Sql.Build.{build_drop_database_sql}
use dbtabase_workbench.Sql.Drop.{extract_drop_confirmation_target}
use dbtabase_workbench.Workspace.{error}
use dbtabase_workbench.Workspace.Reload.{given}
use dbtabase_workbench.Workbench.{Workbench, with_status, active_driver, update_tab}
use dbtabase_workbench.Workbench.Tabs.{reset_workspace}
use dbtabase_workbench.Act.Laws.{>>=-raised, attempt-raised, >>-returned}
use dbtabase_workbench.Act.{
  Called, Act, returned, raised, only_if, ◌>>=◌, give, edit, call, attempt,
}
use dbtabase_workbench.Workbench.Admin.{
  refresh_databases, or_mysql, open_database, show_database, tell_switch_failed, switch_database,
  await_admin_sql, tell_admin_failed, send_admin_sql, execute_admin_sql, handle_delete_database,
  fallback_database, WorkbenchApi,
}

-- The workbench after a switch that the server refused.
abbrev pub unswitched : Text → Text → Option Text → Workbench → Workbench
unswitched fresh initial_sql e w =
    let v =
      reset_workspace fresh initial_sql (or_mysql (active_driver w))
        (record w { switching_database = true }) in
    record (update_tab v.active_tab_id (with_status error (given e (text "切换数据库失败"))) v) {
      switching_database = false;
    }

abbrev switch_ended : Workbench → Workbench
switch_ended u = record u { switching_database = false }

active-unswitched :
    (fresh initial_sql : Text) (e : Option Text) (w : Workbench)
    → (unswitched fresh initial_sql e w).active_database ≡ w.active_database
unfolding update_tab reset_workspace
active-unswitched fresh initial_sql e w = refl

module _ {S : Type 0} (api : WorkbenchApi S) where
  open_database-raised :
      (connection database tab : Text) (e : Option Text) (v : Workbench) (s s' : S)
      → api.switch_database connection database s ≡ (raised e, s')
      → open_database api connection database tab (v, s) ≡ (raised e, (v, s'))
  unfolding open_database
  open_database-raised connection database tab e v s s' refused =
      >>=-raised (call (api.switch_database connection database)) (show_database api connection tab)
        (v, s) (v, s') e (ap (λ r. (r.0, (v, r.1))) refused)

  switch_database-unswitched :
      (fresh initial_sql database : Text) (e : Option Text) (w : Workbench) (s s' : S)
      → (not (truthy w.connection_id) || database === w.active_database) ≡ false
      → api.switch_database w.connection_id database s ≡ (raised e, s')
      → switch_database api fresh initial_sql database (w, s)
        ≡ (returned tt, (unswitched fresh initial_sql e w, s'))
  unfolding switch_database
  switch_database-unswitched fresh initial_sql database e w s s' open_test refused =
      let v =
        reset_workspace fresh initial_sql (or_mysql (active_driver w))
          (record w { switching_database = true }) in
      let m = open_database api w.connection_id database v.active_tab_id in
      let k = tell_switch_failed v.active_tab_id in
      let fails =
        attempt-raised m k (v, s) (v, s') e
          (open_database-raised w.connection_id database v.active_tab_id e v s s' refused) in
      let over =
        >>-returned (attempt m k) (edit switch_ended) (v, s)
          (update_tab v.active_tab_id (with_status error (given e (text "切换数据库失败"))) v, s') fails in
      rw open_test over

connection-unswitched :
    (fresh initial_sql : Text) (e : Option Text) (w : Workbench)
    → (unswitched fresh initial_sql e w).connection_id ≡ w.connection_id
unfolding update_tab reset_workspace
connection-unswitched fresh initial_sql e w = refl

module _ {S : Type 0} (api : WorkbenchApi S) (letters : CaseMapping) (rounds : ℕ) where
  execute_admin_sql-sent :
      (statement message connection : Text) (k : Bool → Act Workbench S (Unit {0})) (v : Workbench)
      (s : S)
      → v.connection_id ≡ connection
      → truthy connection ≡ true
      → (execute_admin_sql api letters rounds statement message >>= k) (v, s)
        ≡ (send_admin_sql api letters rounds connection statement message >>= k) (v, s)
  unfolding execute_admin_sql
  execute_admin_sql-sent statement message connection k v s same connected =
      let open_test : not (truthy v.connection_id) ≡ false = ground (arith, same, connected) in
      ap
        (λ r. elim r.0 as (λ c. Called (Unit {0}) × (Workbench × S)) [
          | returned a ↦ k a r.1
          | raised e ↦ (raised e, r.1)
        ])
        (ap
            (λ b.
              (if b
                  then give false
                  else send_admin_sql api letters rounds v.connection_id statement message)
                (v, s))
            open_test
          ∙ ap (λ c. send_admin_sql api letters rounds c statement message (v, s)) same)

  -- Where the user drops the current database, and the server refuses to switch to another one
  -- first, the call that drops the database is made all the same, on the same connection and while
  -- the database is still the current one. What the handler does from then on is that call, and what
  -- follows it on each of its answers.
  pub handle_delete_database-unswitched :
      (fresh initial_sql database : Text) (e : Option Text) (w : Workbench) (s s' : S)
      → let driver = sql_driver_or_default (active_driver w) in
        let fallback = fallback_database driver database w.databases in
        truthy w.connection_id ≡ true
        → (database === w.active_database) ≡ true
        → truthy fallback ≡ true
        → (fallback === w.active_database) ≡ false
        → api.switch_database w.connection_id fallback s ≡ (raised e, s')
        → let statement = build_drop_database_sql driver database in
          let target = extract_drop_confirmation_target letters statement in
          (v : Workbench) × (v.active_database ≡ w.active_database)
          × (v.connection_id ≡ w.connection_id)
          × (handle_delete_database api letters rounds fresh initial_sql database true (w, s)
              ≡ (attempt
                      (call (api.start_query w.connection_id statement target)
                        >>= await_admin_sql api letters rounds w.connection_id
                            (text "已删除数据库 " ++ database))
                      (tell_admin_failed api letters rounds)
                    >>= λ ok. only_if ok (refresh_databases api w.connection_id))
                  (v, s'))
  unfolding handle_delete_database
  handle_delete_database-unswitched fresh initial_sql database e w s s' connected current other
        differs refused =
      let driver = sql_driver_or_default (active_driver w) in
      let fallback = fallback_database driver database w.databases in
      let v = unswitched fresh initial_sql e w in
      let statement = build_drop_database_sql driver database in
      let message = text "已删除数据库 " ++ database in
      let later = λ (ok : Bool). only_if ok (refresh_databases api w.connection_id) in
      let switched =
        switch_database-unswitched api fresh initial_sql fallback e w s s'
          (ground (arith, connected, differs)) refused in
      let over =
        >>-returned (switch_database api fresh initial_sql fallback)
          (execute_admin_sql api letters rounds statement message >>= later) (w, s) (v, s')
          switched in
      let same = connection-unswitched fresh initial_sql e w in
      let sent =
        execute_admin_sql-sent statement message w.connection_id later v s' same connected in
      (
        v,
        active-unswitched fresh initial_sql e w,
        same,
        rw (connected, current, other) (over ∙ sent),
      )
