-- ===== src/Workbench/Steps/Invariant.antt =====
-- What every step of the workbench keeps of its tabs.
use dbtabase_workbench.Common.{
  ℕ, ◌≤◌, ◌≡◌, refl, sym, subst, inl, inr, Bool, not, Option, none, some, [], ◌∷◌, ◌++◌, Text, text,
  ◌===◌, Bool-cases, Option-cases, truthy, any, length, ◌==◌, ◌&&◌, ◌||◌, trim,
}
use dbtabase_workbench.Driver.{
  DriverId, sql, mongodb, redis, is_mongo_driver, sql_driver_or_default,
}
use dbtabase_workbench.Table.{DatabaseObject}
use dbtabase_workbench.Workspace.{
  WorkspaceTab, create_table_tab, table_tab_id, table_key, create_query_tab,
  create_mongo_document_tab, create_redis_key_tab, create_redis_console_tab, create_driver_home_tab,
  create_default_workspace_tab,
}
use dbtabase_workbench.Workspace.Reload.{TableReloadOptions, prepare_table_tab_reload}
use dbtabase_workbench.Workspace.Reload.Tabs.{IsAsked}
use dbtabase_workbench.Workbench.{
  Workbench, Tone, active_driver, active_query_tab, find_query_tab, report_connection_feedback,
  update_tab,
}
use dbtabase_workbench.Workbench.Tabs.{
  open_query_tab, open_query_for_table, open_table_structure, open_collection, open_redis_key,
  open_redis_console, reset_workspace, close_tab, forget_table, index_of,
}
use dbtabase_workbench.Workbench.Tabs.Closing.{count}
use dbtabase_workbench.Workbench.Runs.{
  begin_load, query_started, end_load, fail_load, load_table_data, begin_run, end_run, fail_run,
  remember,
}
use dbtabase_workbench.Workbench.Risk.{execute, classify_client_risk, is_safe, statement_of}
use dbtabase_workbench.Workbench.Keys.{TabKey, target_index, press_key, show_index}
use dbtabase_workbench.Workbench.Steps.{
  Step, Reaches, IsNamed, here, next, queried, queried_table, structured, loaded, reloaded, started,
  load_ended, load_failed, executed, run_begun, run_ended, run_failed, key_opened, console_opened,
  sectioned, reported, pressed, closed, forgotten, reset,
}
use dbtabase_workbench.Workbench.Steps.Loading.{WellFormed-at_section, WellFormed-prepare}
use dbtabase_workbench.Workbench.Steps.Patches.{
  Keeps-with_status, Keeps-with_query_id, Keeps-with_result, Keeps-with_section, Keeps-both,
  Keeps-with_page,
}
use dbtabase_workbench.Workbench.Steps.Names.{
  IsPlain, WellFormed, WellFormed-append, WellFormed-one, WellFormed-open_tab, WellFormed-filter,
  WellFormed-patch_tab, Keeps, WellFormed-console,
}

-- What is well formed of a workbench.
abbrev pub IsWell : Workbench → Type 0
IsWell w = WellFormed w.tabs

IsWell-update_tab :
    (id : Text) (f : WorkspaceTab → WorkspaceTab) (w : Workbench)
    → Keeps f
    → IsWell w
    → IsWell (update_tab id f w)
unfolding update_tab
IsWell-update_tab id f w k h = WellFormed-patch_tab id f w.tabs k h

IsWell-begin_load :
    (id : Text) (options : TableReloadOptions) (w : Workbench)
    → IsAsked id options.object
    → IsWell w
    → IsWell (begin_load id options w).0
unfolding begin_load
IsWell-begin_load id options w asked h = elim (Bool-cases (truthy w.connection_id)) [
  | inl e ↦
      elim (Option-cases
        (prepare_table_tab_reload w.tabs id (sql_driver_or_default (active_driver w)) options)) [
          | inl p ↦ rw (e, p) (IsWell-update_tab id _ w (Keeps-with_status _ _) h)
          | inr (r, p) ↦ rw (e, p) (WellFormed-prepare id _ options w.tabs asked h p)
        ]
  | inr e ↦ rw e h
]

IsWell-open_query_tab :
    (fresh statement : Text) (title : Option Text) (w : Workbench)
    → count (text "query:" ++ fresh) w.tabs ≡ 0
    → IsWell w
    → IsWell (open_query_tab fresh statement title w)
unfolding open_query_tab create_query_tab
IsWell-open_query_tab fresh statement title w free h =
    WellFormed-append _ w.tabs free (fresh, refl) h

IsWell-load_table_data :
    (table : DatabaseObject) (w : Workbench) → IsWell w → IsWell (load_table_data table w).0
unfolding load_table_data open_collection create_mongo_document_tab
IsWell-load_table_data table w h = elim (Bool-cases (truthy w.connection_id)) [
  | inr e ↦ rw e h
  | inl e ↦ elim (Bool-cases (is_mongo_driver (active_driver w))) [
    | inl m ↦ rw (e, m) (WellFormed-open_tab _ w.tabs (_, refl) h)
    | inr m ↦ rw (e, m) (IsWell-begin_load (table_tab_id table) _ _ refl h)
  ]
]

IsWell-begin_run : (w : Workbench) → IsWell w → IsWell (begin_run w).0
unfolding begin_run
IsWell-begin_run w h = elim (Option-cases (active_query_tab w)) [
  | inl e ↦ rw (e, begin_run) h
  | inr (t, e) ↦
      elim (Bool-cases (not (truthy w.connection_id) || not (truthy (trim t.statement)))) [
        | inl b ↦ rw (e, b, begin_run) h
        | inr b ↦
            rw (e, b, begin_run)
              (IsWell-update_tab t.id _ (record w { risk = none })
                (Keeps-both _ _ (Keeps-with_query_id [])
                  (Keeps-both _ _ (Keeps-with_result none) (Keeps-with_status _ _)))
                h)
      ]
]

IsWell-execute : (w : Workbench) → IsWell w → IsWell (execute w).0
unfolding execute
IsWell-execute w h =
    elim (Bool-cases (is_safe (classify_client_risk (statement_of (active_query_tab w))))) [
      | inl e ↦ rw e (IsWell-begin_run w h)
      | inr e ↦ rw e h
    ]

IsWell-query_for_table :
    (fresh : Text) (table : DatabaseObject) (w : Workbench)
    → count (text "query:" ++ fresh) w.tabs ≡ 0
    → IsWell w
    → IsWell (open_query_for_table fresh table w)
unfolding open_query_for_table
IsWell-query_for_table fresh table w free h =
    elim (Bool-cases (is_mongo_driver (active_driver w))) [
      | inl m ↦ rw m (WellFormed-at_section table _ w.tabs h)
      | inr m ↦ rw m (IsWell-open_query_tab fresh _ none _ free h)
    ]

IsWell-structure :
    (table : DatabaseObject) (w : Workbench) → IsWell w → IsWell (open_table_structure table w)
unfolding open_table_structure create_table_tab table_tab_id
IsWell-structure table w h = elim (Bool-cases (is_mongo_driver (active_driver w))) [
  | inl m ↦ rw m (WellFormed-at_section table _ w.tabs h)
  | inr m ↦ rw m (WellFormed-open_tab _ w.tabs (table_key table, refl) h)
]

IsWell-report :
    (message : Text) (tone : Tone) (w : Workbench)
    → IsWell w
    → IsWell (report_connection_feedback message tone w)
unfolding report_connection_feedback
IsWell-report message tone w h = elim (Option-cases (find_query_tab w.tabs)) [
  | inl e ↦ rw (e, report_connection_feedback) h
  | inr (t, e) ↦
      rw (e, report_connection_feedback)
        (IsWell-update_tab t.id _ (record w { notice = some _ }) (Keeps-with_status _ message) h)
]

IsWell-console : (number : ℕ) (w : Workbench) → IsWell w → IsWell (open_redis_console number w)
unfolding open_redis_console create_redis_console_tab
IsWell-console number w h = WellFormed-console number _ w.tabs refl (number, refl) h

IsWell-press_key :
    (key : TabKey) (id : Text) (w : Workbench) → IsWell w → IsWell (press_key key id w)
unfolding press_key show_index
IsWell-press_key key id w h =
    IsWell-show_index (target_index key (index_of id w.tabs) (length w.tabs)) w h
  where
    IsWell-show_index : (i : Option ℕ) (w : Workbench) → IsWell w → IsWell (show_index i w)
    IsWell-show_index none w h = h
    IsWell-show_index (some i) w h = h

IsWell-close_tab :
    (id : Text) (discard : Bool) (w : Workbench) → IsWell w → IsWell (close_tab id discard w)
unfolding close_tab
IsWell-close_tab id discard w h =
    elim (Bool-cases (any (λ k. k === id) w.dirty_schema_tabs && not discard)) [
      | inl e ↦ rw e h
      | inr e ↦ elim (Bool-cases (length w.tabs == 1)) [
        | inl l ↦ rw (e, l) h
        | inr l ↦ rw (e, l) (WellFormed-filter id w.tabs h)
      ]
    ]

IsWell-reset :
    (fresh initial_sql : Text) (driver : Option DriverId) (w : Workbench)
    → IsWell (reset_workspace fresh initial_sql driver w)
unfolding reset_workspace create_default_workspace_tab create_query_tab create_driver_home_tab
    create_redis_console_tab
IsWell-reset fresh initial_sql none w = WellFormed-one _ (fresh, refl)
IsWell-reset fresh initial_sql (some (sql d)) w = WellFormed-one _ (fresh, refl)
IsWell-reset fresh initial_sql (some mongodb) w = WellFormed-one _ (text "mongodb", refl)
IsWell-reset fresh initial_sql (some redis) w = WellFormed-one _ (w.redis_console_counter, refl)

pub IsWell-step : (w v : Workbench) → Step w v → IsWell w → IsWell v
unfolding query_started end_load fail_load end_run fail_run remember forget_table open_redis_key
    create_redis_key_tab
IsWell-step w v (queried fresh statement title free) h =
    IsWell-open_query_tab fresh statement title w free h
IsWell-step w v (queried_table fresh table free) h = IsWell-query_for_table fresh table w free h
IsWell-step w v (structured table) h = IsWell-structure table w h
IsWell-step w v (loaded table) h = IsWell-load_table_data table w h
IsWell-step w v (reloaded id options asked) h = IsWell-begin_load id options w asked h
IsWell-step w v (started id query) h = IsWell-update_tab id _ w (Keeps-with_query_id query) h
IsWell-step w v (load_ended id snapshot page) h =
    IsWell-update_tab id _ w (Keeps-both _ _ (Keeps-with_result _) (Keeps-with_status _ _)) h
IsWell-step w v (load_failed id message) h = IsWell-update_tab id _ w (Keeps-with_status _ _) h
IsWell-step w v executed h = IsWell-execute w h
IsWell-step w v run_begun h = IsWell-begin_run w h
IsWell-step w v (run_ended stamp t connection page) h =
    IsWell-update_tab t.id _ w (Keeps-with_page page _) h
IsWell-step w v (run_failed stamp t connection message) h =
    IsWell-update_tab t.id _ w (Keeps-with_status _ _) h
IsWell-step w v (key_opened key) h = WellFormed-open_tab _ w.tabs (key, refl) h
IsWell-step w v (console_opened number) h = IsWell-console number w h
IsWell-step w v (sectioned id section) h = IsWell-update_tab id _ w (Keeps-with_section section) h
IsWell-step w v (reported message tone) h = IsWell-report message tone w h
IsWell-step w v (pressed key id) h = IsWell-press_key key id w h
IsWell-step w v (closed id discard) h = IsWell-close_tab id discard w h
IsWell-step w v (forgotten table) h = WellFormed-filter (table_tab_id table) w.tabs h
IsWell-step w v (reset number fresh initial_sql driver) h =
    IsWell-reset fresh initial_sql driver (record w { redis_console_counter = number })

IsWell-Reaches : (w v : Workbench) → Reaches w v → IsWell w → IsWell v
IsWell-Reaches w v here h = h
IsWell-Reaches w v (next u x before s) h = IsWell-step u v s (IsWell-Reaches w u before h)

-- From a workbench with one tab that has the id of its kind, no sequence of steps, in whatever
-- order the pieces of the handlers come, gives two tabs the same id, but for the ids of the consoles
-- of Redis, if each time a query is opened the id made of the result of `createId()` is that of no
-- open tab.
pub Reaches-distinct :
    (w v : Workbench) (t : WorkspaceTab) (k : Text)
    → w.tabs ≡ t ∷ []
    → IsNamed t
    → IsPlain k
    → Reaches w v
    → count k v.tabs ≤ 1
Reaches-distinct w v t k one named plain steps =
    let start = subst WellFormed (sym one) (WellFormed-one t named) in
    (IsWell-Reaches w v steps start).distinct k plain
