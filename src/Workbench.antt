-- ===== src/Workbench.antt =====
-- The state of the workbench and of its tabs: web/src/app/DatabaseWorkbench.tsx. The values of React's
-- `useState` are the fields of a record. A handler reads them as they are when it is called.
pub mod Tabs
pub mod Admin
pub mod Keys
pub mod Runs
pub mod Risk
pub mod Steps
use dbtabase_workbench.Common.{
  ℕ, Bool, true, false, Option, none, some, List, [], ◌∷◌, Text, text, ◌===◌, map, find,
  if◌then◌else◌,
}
use dbtabase_workbench.Driver.{DriverId}
use dbtabase_workbench.Table.{DatabaseObject}
use dbtabase_workbench.Table.Columns.{QueryResult}
use dbtabase_workbench.Workspace.{
  TableTab, QueryTab, WorkspaceTab, table_tab, query_tab, mongo_document_tab, redis_key_tab,
  redis_console_tab, driver_home_tab, TabStatus, idle, error, MongoSection, tab_id,
}
use dbtabase_workbench.History.{HistoryEntry, Stored}
use dbtabase_workbench.Connection.{WorkbenchTarget}

pub data QueryRisk : Type 0 where
  safe confirm : QueryRisk
  type_target : Text → Text → QueryRisk

pub data SessionState : Type 0 where
  loading ready failed : SessionState

pub data Tone : Type 0 where
  info_tone error_tone : Tone

pub record Notice : Type 0 where
  pub tone : Tone
  pub message : Text

pub record Workbench : Type 0 where
  pub connections : List WorkbenchTarget
  pub connection_id : Text
  pub active_saved_id : Text
  pub connecting_id : Text
  pub objects : List DatabaseObject
  pub tabs : List WorkspaceTab
  pub active_tab_id : Text
  pub query_tab_counter : ℕ
  pub risk : Option QueryRisk
  pub transaction_id : Text
  pub session_state : SessionState
  pub active_database : Text
  pub databases : List Text
  pub query_schema : Text
  pub query_table : Text
  pub switching_database : Bool
  pub structure_tab_id : Text
  pub dirty_schema_tabs : List Text
  pub redis_console_counter : ℕ
  pub selected_redis_key : Text
  pub create_table_dialog : Option Text
  pub notice : Option Notice
  pub history : List HistoryEntry
  pub stored_history : Stored

-- `connections.find((item) => item.id === activeSavedId)`.
unfoldable pub active_connection : Workbench → Option WorkbenchTarget
active_connection w = find (λ c. c.id === w.active_saved_id) w.connections

-- `activeConnection?.driver ?? ''`.
unfoldable pub active_driver : Workbench → Option DriverId
active_driver w = elim (active_connection w) [ none ↦ none | some c ↦ some c.driver ]

-- `tabs.find((tab) => tab.id === activeTabId) ?? tabs[0]`.
unfoldable pub first_tab : List WorkspaceTab → Option WorkspaceTab
first_tab [] = none
first_tab (t ∷ ts) = some t

unfoldable pub shown_tab : Text → List WorkspaceTab → Option WorkspaceTab
shown_tab id tabs = elim (find (λ t. tab_id t === id) tabs) [
  | some t ↦ some t
  | none ↦ first_tab tabs
]

unfoldable pub active_tab : Workbench → Option WorkspaceTab
active_tab w = shown_tab w.active_tab_id w.tabs

-- `activeQueryTab`.
unfoldable pub as_query_tab : Option WorkspaceTab → Option QueryTab
as_query_tab (some (query_tab t)) = some t
as_query_tab _ = none

unfoldable pub active_query_tab : Workbench → Option QueryTab
active_query_tab w = as_query_tab (active_tab w)

-- `tabs.find((tab) => tab.kind === 'query')`.
unfoldable pub find_query_tab : List WorkspaceTab → Option QueryTab
find_query_tab [] = none
find_query_tab (query_tab t ∷ tabs) = some t
find_query_tab (_ ∷ tabs) = find_query_tab tabs

-- `tabs.find((tab) => tab.id === id && tab.kind === 'mongo-document')`, as a test.
unfoldable pub has_mongo_tab : Text → List WorkspaceTab → Bool
has_mongo_tab id [] = false
has_mongo_tab id (mongo_document_tab t ∷ tabs) = if t.id === id then true else has_mongo_tab id tabs
has_mongo_tab id (_ ∷ tabs) = has_mongo_tab id tabs

-- The patches that the handlers apply to a tab. The fields `status`, `message`, `queryId` and
-- `result` are read of tables and queries only, so a patch of them leaves another tab as it is.
unfoldable pub with_status : TabStatus → Text → WorkspaceTab → WorkspaceTab
with_status st msg (table_tab t) = table_tab (record t { status = st; message = msg })
with_status st msg (query_tab t) = query_tab (record t { status = st; message = msg })
with_status st msg t = t

unfoldable pub with_message : Text → WorkspaceTab → WorkspaceTab
with_message msg (table_tab t) = table_tab (record t { message = msg })
with_message msg (query_tab t) = query_tab (record t { message = msg })
with_message msg t = t

unfoldable pub with_query_id : Text → WorkspaceTab → WorkspaceTab
with_query_id q (table_tab t) = table_tab (record t { query_id = q })
with_query_id q (query_tab t) = query_tab (record t { query_id = q })
with_query_id q t = t

unfoldable pub with_result : Option QueryResult → WorkspaceTab → WorkspaceTab
with_result r (table_tab t) = table_tab (record t { result = r })
with_result r (query_tab t) = query_tab (record t { result = r })
with_result r t = t

unfoldable pub with_section : MongoSection → WorkspaceTab → WorkspaceTab
with_section s (mongo_document_tab t) = mongo_document_tab (record t { section = s })
with_section s t = t

-- `current.map((tab) => tab.id === id ? {...tab, ...patch} : tab)`.
unfoldable pub patch_tab :
    Text → (WorkspaceTab → WorkspaceTab) → List WorkspaceTab → List WorkspaceTab
patch_tab id patch = map (λ t. if tab_id t === id then patch t else t)

unfoldable pub update_tab : Text → (WorkspaceTab → WorkspaceTab) → Workbench → Workbench
update_tab id patch w = record w { tabs = patch_tab id patch w.tabs }

abbrev pub tone_status : Tone → TabStatus
tone_status info_tone = idle
tone_status error_tone = error

unfoldable pub report_connection_feedback : Text → Tone → Workbench → Workbench
report_connection_feedback message tone w =
    let noted = record w { notice = some (record { tone = tone; message = message }) } in
    elim (find_query_tab w.tabs) [
      | none ↦ noted
      | some t ↦ update_tab t.id (with_status (tone_status tone) message) noted
    ]
