-- ===== src/Workbench/Admin/Switching.antt =====
-- How the administration of a server ends, on every answer of the server.
use dbtabase_workbench.Common.{
  ℕ, ◌≡◌, refl, ◌∙◌, inl, inr, Bool, true, false, not, ◌&&◌, ◌||◌, none, List, [], ◌∷◌, Text, all,
  find, truthy, ◌===◌, Bool-cases, CaseMapping, arith,
}
use dbtabase_workbench.Driver.{sql_driver_or_default}
use dbtabase_workbench.Sql.Ident.{SqlDriver, mysql, postgres}
use dbtabase_workbench.Sql.Build.{is_mysql}
use dbtabase_workbench.Connection.{WorkbenchTarget}
use dbtabase_workbench.Workbench.{
  Workbench, Tone, active_driver, update_tab, report_connection_feedback,
}
use dbtabase_workbench.Workbench.Tabs.{reset_workspace}
use dbtabase_workbench.Act.Laws.{attempt-edit}
use dbtabase_workbench.Act.{returned}
use dbtabase_workbench.Workbench.Admin.{
  or_mysql, open_database, open_connection, tell_switch_failed, tell_connection_failed,
  switch_database, select_connection, is_ready, handle_delete_database, fallback_database,
  WorkbenchApi,
}

connecting-report :
    (message : Text) (tone : Tone) (w : Workbench)
    → (report_connection_feedback message tone w).connecting_id ≡ w.connecting_id
unfolding report_connection_feedback update_tab
connecting-report message tone w = ground arith

module _ {S : Type 0} (api : WorkbenchApi S) where
  -- Switching the database raises no error, whatever the server answers, and the switch is over
  -- afterwards, if none was under way before.
  pub switch_database-over :
      (fresh initial_sql database : Text) (w : Workbench) (s : S)
      → w.switching_database ≡ false
      → let r = switch_database api fresh initial_sql database (w, s) in
        (r.0 ≡ returned tt) × (r.1.0.switching_database ≡ false)
  unfolding switch_database
  switch_database-over fresh initial_sql database w s h =
      elim (Bool-cases (not (truthy w.connection_id) || database === w.active_database)) [
        | inl e ↦ rw e (refl, h)
        | inr e ↦
            let v =
              reset_workspace fresh initial_sql (or_mysql (active_driver w))
                (record w { switching_database = true }) in
            let m = open_database api w.connection_id database v.active_tab_id in
            let k = tell_switch_failed v.active_tab_id in
            let over =
              attempt-edit m k (λ u. record u { switching_database = false }) (v, s)
                (λ f y. refl) in
            rw (e, over) (refl, refl)
      ]

  -- Opening a connection raises no error, whatever the server answers, and no connection is being
  -- opened afterwards, if none was before.
  pub select_connection-over :
      (fresh initial_sql : Text) (target : WorkbenchTarget) (w : Workbench) (s : S)
      → w.connecting_id ≡ []
      → let r = select_connection api fresh initial_sql target (w, s) in
        (r.0 ≡ returned tt) × (r.1.0.connecting_id ≡ [])
  unfolding select_connection
  select_connection-over fresh initial_sql target w s h =
      elim (Bool-cases (target.id === w.active_saved_id && truthy w.connection_id)) [
        | inl e ↦ rw e (refl, connecting-report _ _ w ∙ h)
        | inr e ↦ elim (Bool-cases (is_ready w.session_state)) [
          | inr o ↦ rw (e, o) (refl, h)
          | inl o ↦
              let v = record w { connecting_id = target.id; active_saved_id = target.id } in
              let m = open_connection api fresh initial_sql target w.connection_id in
              let over =
                attempt-edit m tell_connection_failed (λ u. record u { connecting_id = [] }) (v, s)
                  (λ f y. refl) in
              rw (e, o, over) (refl, refl)
        ]
      ]

-- The name is the only one of a list.
abbrev pub is_only : Text → List Text → Bool
is_only database = all (λ name. name === database)

find-only :
    (database : Text) (names : List Text)
    → is_only database names ≡ true
    → find (λ name. not (name === database)) names ≡ none
find-only database [] h = refl
find-only database (name ∷ names) h = ground (arith, h, find-only database names)

fallback_database-only :
    (driver : SqlDriver) (database : Text) (names : List Text)
    → is_mysql driver ≡ true
    → is_only database names ≡ true
    → fallback_database driver database names ≡ []
unfolding fallback_database
fallback_database-only mysql database names m h =
    rw (find-only database names h, fallback_database) refl
fallback_database-only postgres database names m h = absurd (ground (arith, m))

module _ {S : Type 0} (api : WorkbenchApi S) (letters : CaseMapping) (rounds : ℕ) where
  -- The current database is dropped by no call at all where the driver is that of MySQL and the list
  -- of the databases has no other name, even if the user agrees; and no database is dropped by any
  -- call where the user does not agree, on either driver.
  pub handle_delete_database-refused :
      (fresh initial_sql database : Text) (agreed : Bool) (w : Workbench) (s : S)
      → let alone =
          is_mysql (sql_driver_or_default (active_driver w))
          && database === w.active_database
          && is_only database w.databases in
        (agreed && not alone) ≡ false
        → let r =
            handle_delete_database api letters rounds fresh initial_sql database agreed (w, s) in
          (r.0 ≡ returned tt) × (r.1.1 ≡ s)
  unfolding handle_delete_database
  handle_delete_database-refused fresh initial_sql database agreed w s h =
      let driver = sql_driver_or_default (active_driver w) in
      elim (Bool-cases (not (truthy w.connection_id) || not agreed)) [
        | inl e ↦ rw e (refl, refl)
        | inr e ↦
            let drops : agreed ≡ true = ground arith in
            let m : is_mysql driver ≡ true = ground arith in
            let current : (database === w.active_database) ≡ true = ground arith in
            let only : is_only database w.databases ≡ true = ground arith in
            rw (e, current, fallback_database-only driver database w.databases m only) (refl, refl)
      ]
