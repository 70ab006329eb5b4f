-- ===== src/Logs/Page.antt =====
-- The state and the handlers of the log viewer: web/src/pages/LogsPage.tsx. The server, with
-- web/src/logs/client.ts before it, is a parameter.
pub mod Ssh
pub mod Ends
use dbtabase_workbench.Common.{
  ℕ, Bool, true, false, not, ◌&&◌, ◌||◌, Option, none, some, List, [], ◌∷◌, ◌++◌, Text, text, ◌===◌,
  truthy, trim, filter, find, length, if◌then◌else◌,
}
use dbtabase_workbench.Decimal.{decimal}
use dbtabase_workbench.Act.{
  both, Called, returned, raised, Act, ◌>>=◌, ◌>>◌, give, now, edit, call, attempt,
}
use dbtabase_workbench.Workspace.Reload.{given}
use dbtabase_workbench.Logs.Lines.{RemoteLogEntry, is_file, visible_remote_entries}

pub record LogSession : Type 0 where
  pub id : Text
  pub name : Text
  pub status : Text
  pub scope : Text
  pub file_count : ℕ
  pub service_count : ℕ

pub record LogEntry : Type 0 where
  pub id : ℕ
  pub level : Text
  pub service_name : Text
  pub node_name : Text
  pub message : Text
  pub line_number : ℕ

pub record LogScopeNode : Type 0 where
  pub node_name : Text
  pub line_count : ℕ

pub record LogScope : Type 0 where
  pub service_name : Text
  pub line_count : ℕ
  pub nodes : List LogScopeNode

pub record SshLogConnection : Type 0 where
  pub id : Text
  pub name : Text
  pub host : Text
  pub port : ℕ

pub record LogSearchResult : Type 0 where
  pub entries : List LogEntry
  pub total : ℕ
  pub tree : Option (List LogScope)

pub record CreateLogSessionInput : Type 0 where
  pub name : Text
  pub scope : Text
  pub team_id : Option Text

pub record ScanSshResult : Type 0 where
  pub entries : Option (List RemoteLogEntry)
  pub truncated : Bool

pub data LogsWorkspace : Type 0 where
  search_tool upload_tool ssh_tool tail_tool : LogsWorkspace

-- `file` is the name of the chosen file.
pub record LogsState : Type 0 where
  pub sessions : List LogSession
  pub ssh_connections : List SshLogConnection
  pub selected_id : Text
  pub creating : Bool
  pub uploading : Bool
  pub searching : Bool
  pub loading : Bool
  pub ssh_busy : Bool
  pub importing_path : Text
  pub batch_importing : Bool
  pub error : Text
  pub success : Text
  pub new_name : Text
  pub scope : Text
  pub team_id : Text
  pub service_name : Text
  pub node_name : Text
  pub file : Option Text
  pub query : Text
  pub level : Text
  pub entries : List LogEntry
  pub tree : List LogScope
  pub total : ℕ
  pub ssh_connection_id : Text
  pub remote_path : Text
  pub remote_entries : List RemoteLogEntry
  pub tail_service_name : Text
  pub tail_node_name : Text
  pub workspace : LogsWorkspace
  pub show_create_session : Bool

-- `sessions.find((item) => item.id === selectedId) ?? sessions[0]`.
abbrev pub first_session : List LogSession → Option LogSession
first_session [] = none
first_session (s ∷ ss) = some s

unfoldable pub selected : LogsState → Option LogSession
selected v = elim (find (λ s. s.id === v.selected_id) v.sessions) [
  | some s ↦ some s
  | none ↦ first_session v.sessions
]

-- The calls of the client. A call that sends texts has them in the order of its input.
pub record LogsClient (S : Type 0) : Type 0 where
  pub list_sessions : S → Called (List LogSession) × S
  pub create_session : CreateLogSessionInput → S → Called LogSession × S
  pub upload_file : Text → Text → Text → Text → S → Called (Unit {0}) × S
  pub list_ssh_connections : S → Called (List SshLogConnection) × S
  pub test_ssh_connection : Text → S → Called (Unit {0}) × S
  pub browse_ssh : Text → Text → S → Called (Text × Option (List RemoteLogEntry)) × S
  pub scan_ssh : Text → Text → ℕ → ℕ → S → Called ScanSshResult × S
  pub import_ssh_file : Text → Text → Text → Text → Text → S → Called (Unit {0}) × S
  pub search : Text → Text → Text → ℕ → S → Called LogSearchResult × S

abbrev pub message_for : Option Text → Text
message_for e = given e (text "请求失败")

abbrev pub set_error : {S : Type 0} → Text → Act LogsState S (Unit {0})
set_error message = edit (λ v. record v { error = message })

abbrev pub tell_error : {S : Type 0} → Option Text → Act LogsState S (Unit {0})
tell_error e = set_error (message_for e)

abbrev pub set_success : {S : Type 0} → Text → Act LogsState S (Unit {0})
set_success message = edit (λ v. record v { success = message })

abbrev pub or_nil {ℓ} : {A : Type ℓ} → Option (List A) → List A
or_nil none = []
or_nil (some xs) = xs

-- `current || (items[0]?.id ?? '')`.
abbrev pub or_first_session : Text → List LogSession → Text
or_first_session [] [] = []
or_first_session [] (s ∷ ss) = s.id
or_first_session (c ∷ id) ss = c ∷ id

abbrev pub or_first_connection : Text → List SshLogConnection → Text
or_first_connection [] [] = []
or_first_connection [] (s ∷ ss) = s.id
or_first_connection (c ∷ id) ss = c ∷ id

abbrev pub or_text : Text → Text → Text
or_text [] d = d
or_text (c ∷ s) d = c ∷ s

abbrev pub path_or_root : Text → Text
path_or_root path = or_text path (text "/")

-- Both lists are asked for, and the first error is the one that is raised.
abbrev pub scanned_message : ScanSshResult → Text
scanned_message r =
    text "扫描到 "
    ++ decimal (length (or_nil r.entries))
    ++ text " 个日志文件"
    ++ (if r.truncated then text "（结果已截断）" else [])

abbrev pub with_result : LogSearchResult → LogsState → LogsState
with_result r v = record v { entries = r.entries; tree = or_nil r.tree; total = r.total }

abbrev pub show_lists :
    {S : Type 0} → List LogSession × List SshLogConnection → Act LogsState S (Unit {0})
show_lists items = edit (λ v. record v {
  sessions = items.0;
  ssh_connections = items.1;
  selected_id = or_first_session v.selected_id items.0;
  ssh_connection_id = or_first_connection v.ssh_connection_id items.1;
})

abbrev pub show_created : {S : Type 0} → LogSession → Act LogsState S (Unit {0})
show_created created = edit (λ u. record u {
  sessions = created ∷ filter (λ s. not (s.id === created.id)) u.sessions;
  selected_id = created.id;
  new_name = [];
  show_create_session = false;
  workspace = search_tool;
  success = text "日志会话已创建";
})

abbrev pub create_input : LogsState → CreateLogSessionInput
create_input v = record {
  name = or_text (trim v.new_name) (text "日志分析");
  scope = v.scope;
  team_id = if v.scope === text "team" then some v.team_id else none;
}

module _ {S : Type 0} (client : LogsClient S) where
  abbrev pub list_both : S → Called (List LogSession × List SshLogConnection) × S
  list_both s =
      let a = client.list_sessions s in
      let b = client.list_ssh_connections a.1 in (both a.0 b.0, b.1)

  abbrev pub load_lists : Act LogsState S (Unit {0})
  load_lists = call list_both >>= show_lists

  unfoldable pub load : Act LogsState S (Unit {0})
  load = do
    edit (λ v. record v { loading = true; error = [] })
    attempt load_lists tell_error
    edit (λ v. record v { loading = false })

  abbrev pub try_search : Text → Act LogsState S (Unit {0})
  try_search session_id = do
    v ← now
    result ← call (client.search session_id (trim v.query) v.level 200)
    edit (with_result result)

  -- `refreshSearch`, of the id of a session; the empty text stands for none.
  unfoldable pub refresh_search : Text → Act LogsState S (Unit {0})
  refresh_search [] = give tt
  refresh_search (c ∷ id) = do
    edit (λ v. record v { searching = true; error = [] })
    attempt (try_search (c ∷ id)) tell_error
    edit (λ v. record v { searching = false })

  abbrev pub try_create : CreateLogSessionInput → Act LogsState S (Unit {0})
  try_create input = call (client.create_session input) >>= show_created

  unfoldable pub create_session : Act LogsState S (Unit {0})
  create_session = do
    v ← now
    edit (λ u. record u { creating = true; error = []; success = [] })
    attempt (try_create (create_input v)) tell_error
    edit (λ v. record v { creating = false })

  abbrev pub try_upload : Text → Text → Act LogsState S (Unit {0})
  try_upload session_id file = do
    v ← now
    call (client.upload_file session_id file (trim v.service_name) (trim v.node_name))
    edit (λ u. record u { success = text "日志已上传并完成索引"; file = none })
    refresh_search session_id
    load

  unfoldable pub upload : Act LogsState S (Unit {0})
  upload = do
    v ← now
    elim (selected v) [
      | none ↦ give tt
      | some session ↦ elim v.file [
        | none ↦ give tt
        | some file ↦ do
          edit (λ u. record u { uploading = true; error = []; success = [] })
          attempt (try_upload session.id file) tell_error
          edit (λ u. record u { uploading = false })
      ]
    ]
