-- ===== src/Logs/Page/Ssh.antt =====
-- The remote files of the log viewer: the handlers of web/src/pages/LogsPage.tsx that read a
-- directory over SSH and import its files.
use dbtabase_workbench.Common.{
  true, false, not, Option, none, some, List, [], ◌∷◌, ◌++◌, Text, text, truthy, trim, filter,
  length, if◌then◌else◌,
}
use dbtabase_workbench.Decimal.{decimal}
use dbtabase_workbench.Act.{Act, ◌>>=◌, ◌>>◌, give, now, edit, call, attempt}
use dbtabase_workbench.Workspace.Reload.{given}
use dbtabase_workbench.Logs.Lines.{RemoteLogEntry, is_file, visible_remote_entries}
use dbtabase_workbench.Logs.Page.{
  LogsState, LogsClient, selected, tell_error, set_error, set_success, or_nil, or_text,
  path_or_root, scanned_message, load, refresh_search,
}

abbrev pub start_ssh : {S : Type 0} → Act LogsState S (Unit {0})
start_ssh = edit (λ v. record v { ssh_busy = true; error = []; success = [] })

abbrev pub end_ssh : {S : Type 0} → Act LogsState S (Unit {0})
end_ssh = edit (λ v. record v { ssh_busy = false })

abbrev pub choose_ssh_first : Text
choose_ssh_first = text "请先选择 SSH 连接"

module _ {S : Type 0} (client : LogsClient S) where
  unfoldable pub test_ssh_connection : Act LogsState S (Unit {0})
  test_ssh_connection = do
    v ← now
    (if not (truthy v.ssh_connection_id) then set_error choose_ssh_first else do
      start_ssh
      attempt
          (do
            call (client.test_ssh_connection v.ssh_connection_id)
            set_success (text "SSH 连接测试通过"))
          tell_error
      end_ssh)

  abbrev pub try_browse : Text → Text → Text → Act LogsState S (Unit {0})
  try_browse connection remote_path path = do
    result ← call (client.browse_ssh connection path)
    edit (λ u. record u {
      remote_path = or_text result.0 remote_path;
      remote_entries = or_nil result.1;
      success = text "远程目录已读取";
    })

  unfoldable pub browse_ssh : Option Text → Act LogsState S (Unit {0})
  browse_ssh path_override = do
    v ← now
    (if not (truthy v.ssh_connection_id) then set_error choose_ssh_first else do
      start_ssh
      attempt
          (try_browse v.ssh_connection_id v.remote_path
            (path_or_root (given path_override (trim v.remote_path))))
          tell_error
      end_ssh)

  abbrev pub try_scan : Text → Text → Act LogsState S (Unit {0})
  try_scan connection path = do
    result ← call (client.scan_ssh connection path 8 1000)
    edit
        (λ u. record u { remote_entries = or_nil result.entries; success = scanned_message result })

  unfoldable pub scan_ssh : Act LogsState S (Unit {0})
  scan_ssh = do
    v ← now
    (if not (truthy v.ssh_connection_id) then set_error choose_ssh_first else do
      start_ssh
      attempt (try_scan v.ssh_connection_id (path_or_root (trim v.remote_path))) tell_error
      end_ssh)

  -- The call that imports a file, with the names of the service and of the node as they were when
  -- the handler was called.
  abbrev pub import_file : Text → LogsState → RemoteLogEntry → Act LogsState S (Unit {0})
  import_file session v entry = call (
      client.import_ssh_file session v.ssh_connection_id entry.path (trim v.tail_service_name)
        (trim v.tail_node_name))

  unfoldable pub import_remote_file : RemoteLogEntry → Act LogsState S (Unit {0})
  import_remote_file entry = do
    v ← now
    elim (selected v) [
      | none ↦ set_error (text "请先创建或选择日志会话")
      | some session ↦ if not (truthy v.ssh_connection_id) then set_error choose_ssh_first else do
        edit (λ u. record u { importing_path = entry.path; error = []; success = [] })
        attempt
            (do
              import_file session.id v entry
              set_success (text "远程日志已导入并完成索引")
              refresh_search client session.id
              load client)
            tell_error
        edit (λ u. record u { importing_path = [] })
    ]

  unfoldable pub import_each : Text → LogsState → List RemoteLogEntry → Act LogsState S (Unit {0})
  import_each session v [] = give tt
  import_each session v (entry ∷ files) =
      let others = import_each session v files in
      do edit (λ u. record u { importing_path = entry.path }); import_file session v entry; others

  abbrev pub try_import : Text → LogsState → List RemoteLogEntry → Act LogsState S (Unit {0})
  try_import session v files = do
    import_each session v files
    set_success (text "已导入 " ++ decimal (length files) ++ text " 个远程日志文件")
    refresh_search client session
    load client

  unfoldable pub import_visible_files : Act LogsState S (Unit {0})
  import_visible_files = do
    v ← now
    let files = filter (λ e. is_file e.type) (visible_remote_entries v.remote_entries)
    elim (selected v) [
      | none ↦ set_error (text "请先选择日志会话和 SSH 连接")
      | some session ↦
          if not (truthy v.ssh_connection_id)
          then set_error (text "请先选择日志会话和 SSH 连接")
          else elim files [
            | [] ↦ set_error (text "当前没有可导入的日志文件")
            | f ∷ fs ↦ do
              edit (λ u. record u { batch_importing = true; error = []; success = [] })
              attempt (try_import session.id v (f ∷ fs)) tell_error
              edit (λ u. record u { importing_path = []; batch_importing = false })
          ]
    ]
