-- ===== src/Logs/Tail.antt =====
-- The live view of a log: `startTail` and `stopTail` of web/src/pages/LogsPage.tsx, cut at the
-- `await` of the stream. A call of `setTailLines` leaves an updater that runs when the page is
-- rendered next, and reads `tailLineIdRef` then.
pub mod Bounds
pub mod Races
use dbtabase_workbench.Common.{
  ℕ, ◌+◌, ◌-◌, ◌≡◌, Bool, true, false, not, Option, none, some, List, [], ◌∷◌, ◌++◌, Text, text,
  length, drop, ltb, ◌==◌, if◌then◌else◌,
}
use dbtabase_workbench.Workspace.Reload.{given}
use dbtabase_workbench.Logs.Lines.{TailLine, detect_line_level}

pub data TailStatus : Type 0 where
  idle connecting live stopped failed : TailStatus

-- The events of the stream, with the level of a line's entry, where it has one.
pub data TailEvent : Type 0 where
  ready : Text → TailEvent
  line : Text → Option Text → TailEvent
  error : Text → TailEvent
  done_event stopped_event : TailEvent

-- A line whose updater has not run.
pub record PendingLine : Type 0 where
  pub text : Text
  pub level : Text

-- A controller is a number, and `aborted` are those that were aborted.
pub record TailState : Type 0 where
  pub controller : Option ℕ
  pub next_controller : ℕ
  pub tailing : Bool
  pub status : TailStatus
  pub path : Text
  pub lines : List TailLine
  pub pending : List PendingLine
  pub last_id : ℕ
  pub message : Text
  pub success : Text

abbrev pub is_active : TailStatus → Bool
is_active live = true
is_active connecting = true
is_active _ = false

abbrev pub stopped_if_active : TailStatus → TailStatus
stopped_if_active status = if is_active status then stopped else status

abbrev pub max_lines : ℕ
max_lines = 5000

-- `next.length > 5000 ? next.slice(next.length - 5000) : next`.
unfoldable pub append_line : ℕ → PendingLine → List TailLine → List TailLine
append_line id l current =
    let next = current ++ (record { id = id; text = l.text; level = l.level } ∷ []) in
    if ltb max_lines (length next) then drop (length next - max_lines) next else next

unfoldable pub append_all : ℕ → List PendingLine → List TailLine → List TailLine
append_all id [] lines = lines
append_all id (l ∷ ls) lines = append_all id ls (append_line id l lines)

-- The updaters run, each with the id that the counter has now.
unfoldable pub render : TailState → TailState
render s = record s { lines = append_all s.last_id s.pending s.lines; pending = [] }

unfoldable pub stop_tail : TailState → TailState
stop_tail s = record s { controller = none; tailing = false; status = stopped_if_active s.status }

-- `startTail` up to the `await`, of a session and a connection that are there. `setTailLines([])`
-- replaces what the updaters before it give.
unfoldable pub start_tail : Text → TailState → TailState
start_tail path s = record s {
  controller = some s.next_controller;
  next_controller = s.next_controller + 1;
  tailing = true;
  status = connecting;
  path = path;
  lines = [];
  pending = [];
  message = [];
  success = [];
}

unfoldable pub on_event : TailEvent → TailState → TailState
on_event (ready path) s = record s { status = live; success = text "正在 tail " ++ path }
on_event (line t level) s = record s {
  last_id = s.last_id + 1;
  pending = s.pending ++ (record { text = t; level = given level (detect_line_level t) } ∷ []);
}
on_event (error message) s = record s { status = failed; message = message }
on_event done_event s = record s { status = idle }
on_event stopped_event s = record s { status = stopped }

abbrev pub same_controller : Option ℕ → ℕ → Bool
same_controller none c = false
same_controller (some d) c = d == c

-- How the stream of a controller ends: its text is over, or its reading has raised an error.
pub data StreamEnd : Type 0 where
  over : StreamEnd
  broken : Option Text → StreamEnd

-- The rest of `startTail` after the `await`, with the first part of the `load` that its `finally`
-- calls, which runs without a pause and clears the message. A controller is aborted exactly when it
-- is no longer the one of the page.
unfoldable pub end_tail : ℕ → StreamEnd → TailState → TailState
end_tail c over s =
    let current = same_controller s.controller c in
    record s {
      controller = if current then none else s.controller;
      tailing = false;
      status = if current then stopped_if_active s.status else s.status;
      message = [];
    }
end_tail c (broken e) s =
    let current = same_controller s.controller c in
    record s {
      controller = if current then none else s.controller;
      tailing = false;
      status = if current then failed else s.status;
      message = [];
    }

-- The calls of `load` raise an error later.
unfoldable pub fail_load : Option Text → TailState → TailState
fail_load e s = record s { message = given e (text "请求失败") }
