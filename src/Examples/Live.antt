-- ===== src/Examples/Live.antt =====
-- The log viewer.
use dbtabase_workbench.Common.{
  ◌≡◌, ◌≤◌, refl, true, false, none, some, Option, List, [], ◌∷◌, ◌++◌, Text, text, length,
  flat_map, arith,
}
use dbtabase_workbench.Act.{returned, raised}
use dbtabase_workbench.Logs.Stream.{tail_ssh, deliver, cut}
use dbtabase_workbench.Logs.Stream.Chunks.{tail_ssh-joined}
use dbtabase_workbench.Logs.Stream.Messages.{tail_ssh-messages}
use dbtabase_workbench.Logs.Tail.{
  TailState, ready, live, over, line, on_event, render, start_tail, stop_tail, end_tail, max_lines,
}
use dbtabase_workbench.Logs.Tail.Bounds.{here, next, event, rendered, TailReaches-bounded}
use dbtabase_workbench.Logs.Tail.Races.{nothing, came, end_tail-replaced}
use dbtabase_workbench.Logs.Page.{LogSession, LogsState, LogsClient, search_tool, load, list_both}
use dbtabase_workbench.Logs.Page.Ends.{error_of, load-over}

-- Every text is read as itself.
abbrev any_text : Text → Option Text
any_text t = some t

abbrev two_messages : List Text
two_messages = text "a" ∷ text "b" ∷ []

-- The reads cut the stream in the middle of its first blank line.
abbrev two_reads : List Text
two_reads = (text "data: a" ++ (10 ∷ [])) ∷ ((10 ∷ text "data: b") ++ (10 ∷ 10 ∷ [])) ∷ []

tail_ssh-messages_example :
    tail_ssh any_text two_reads [] ≡ record { events = text "a" ∷ text "b" ∷ []; whole = true }
tail_ssh-messages_example =
    tail_ssh-messages any_text two_messages two_reads ((refl, tt), ((refl, tt), tt)) refl

tail_ssh-joined_example :
    tail_ssh any_text two_reads [] ≡ deliver any_text (cut (flat_map (λ (r : Text). r) two_reads)).0
tail_ssh-joined_example = tail_ssh-joined any_text two_reads

abbrev tailing : TailState
tailing = record {
  controller = some 0;
  next_controller = 1;
  tailing = true;
  status = live;
  path = text "/var/log/a.log";
  lines = [];
  pending = [];
  last_id = 0;
  message = [];
  success = [];
}

TailReaches-bounded_example :
    length (render (on_event (line (text "x") none) tailing)).lines ≤ max_lines
TailReaches-bounded_example = TailReaches-bounded tailing _ (ground arith) (
    next (on_event (line (text "x") none) tailing) _
      (next tailing _ here (event (line (text "x") none))) rendered)

-- The new stream has begun and has given a line.
abbrev second_stream : TailState
second_stream =
    on_event (line (text "y") none)
      (on_event (ready (text "/b")) (start_tail (text "/b") (stop_tail tailing)))

end_tail-replaced_example :
    (end_tail 0 over second_stream ≡ record second_stream { tailing = false; message = [] })
    × (second_stream.controller ≡ some 1)
end_tail-replaced_example =
    end_tail-replaced (text "/b") 0 over tailing second_stream refl (omega arith)
      (came _ (line (text "y") none) (came _ (ready (text "/b")) nothing))

abbrev made : LogSession
made = record {
  id = text "s1";
  name = text "n";
  status = text "ready";
  scope = text "personal";
  file_count = 0;
  service_count = 0;
}

-- A server that creates one session and lists none.
abbrev one_session : LogsClient (Unit {0})
one_session = record {
  list_sessions = λ s. (raised none, s);
  create_session = λ input s. (returned made, s);
  upload_file = λ a b c d s. (returned tt, s);
  list_ssh_connections = λ s. (returned [], s);
  test_ssh_connection = λ a s. (returned tt, s);
  browse_ssh = λ a b s. (raised none, s);
  scan_ssh = λ a b m n s. (raised none, s);
  import_ssh_file = λ a b c d e s. (returned tt, s);
  search = λ a b c n s. (raised none, s);
}

abbrev empty_page : LogsState
empty_page = record {
  sessions = [];
  ssh_connections = [];
  selected_id = [];
  creating = false;
  uploading = false;
  searching = false;
  loading = false;
  ssh_busy = false;
  importing_path = [];
  batch_importing = false;
  error = [];
  success = [];
  new_name = [];
  scope = text "personal";
  team_id = [];
  service_name = [];
  node_name = [];
  file = none;
  query = [];
  level = [];
  entries = [];
  tree = [];
  total = 0;
  ssh_connection_id = [];
  remote_path = [];
  remote_entries = [];
  tail_service_name = [];
  tail_node_name = [];
  workspace = search_tool;
  show_create_session = false;
}

load-over_example :
    let r = load one_session (empty_page, tt) in
    (r.0 ≡ returned tt)
    × (r.1.0.loading ≡ false)
    × (r.1.0.error ≡ error_of (list_both one_session tt).0)
load-over_example = load-over one_session empty_page tt
