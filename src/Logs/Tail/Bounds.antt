-- ===== src/Logs/Tail/Bounds.antt =====
-- The lines of the live view are bounded.
use dbtabase_workbench.Common.{
  ℕ, zero, suc, ◌-◌, ◌≤◌, ◌≡◌, Option, List, [], ◌∷◌, ◌++◌, Text, length, drop, arith,
}
use dbtabase_workbench.Logs.Lines.{TailLine}
use dbtabase_workbench.Logs.Tail.{
  PendingLine, TailState, TailEvent, ready, line, error, done_event, stopped_event, StreamEnd, over,
  broken, max_lines, append_line, append_all, render, stop_tail, start_tail, on_event, end_tail,
  fail_load,
}

length-drop : (n : ℕ) (xs : List TailLine) → length (drop n xs) ≡ length xs - n
length-drop zero xs = omega arith
length-drop (suc n) [] = omega arith
length-drop (suc n) (x ∷ xs) = omega (arith, length-drop n xs)

length-append_line :
    (id : ℕ) (l : PendingLine) (lines : List TailLine) → length (append_line id l lines) ≤ max_lines
unfolding append_line
length-append_line id l lines =
    let next = lines ++ (record { id = id; text = l.text; level = l.level } ∷ []) in
    ground (arith, length-drop (length next - max_lines) next)

length-append_all :
    (id : ℕ) (ls : List PendingLine) (lines : List TailLine)
    → length lines ≤ max_lines
    → length (append_all id ls lines) ≤ max_lines
unfolding append_all
length-append_all id [] lines h = h
length-append_all id (l ∷ ls) lines h =
    length-append_all id ls (append_line id l lines) (length-append_line id l lines)

-- What happens to the live view: events, renders, starts, stops and ends of streams,
-- and failures of the lists that are loaded after an end.
pub data TailStep (s : TailState) : TailState → Type 0 where
  event : (e : TailEvent) → TailStep s (on_event e s)
  rendered : TailStep s (render s)
  started : (path : Text) → TailStep s (start_tail path (stop_tail s))
  stopped_by_user : TailStep s (stop_tail s)
  ended : (c : ℕ) (e : StreamEnd) → TailStep s (end_tail c e s)
  load_failed : (e : Option Text) → TailStep s (fail_load e s)

pub data TailReaches (s : TailState) : TailState → Type 0 where
  here : TailReaches s s
  next : (t u : TailState) → TailReaches s t → TailStep t u → TailReaches s u

step-bounded :
    (s t : TailState) → TailStep s t → length s.lines ≤ max_lines → length t.lines ≤ max_lines
unfolding on_event render start_tail stop_tail end_tail fail_load
step-bounded s t (event (ready path)) h = h
step-bounded s t (event (line x level)) h = h
step-bounded s t (event (error m)) h = h
step-bounded s t (event done_event) h = h
step-bounded s t (event stopped_event) h = h
step-bounded s t rendered h = length-append_all s.last_id s.pending s.lines h
step-bounded s t (started path) h = ground arith
step-bounded s t stopped_by_user h = h
step-bounded s t (ended c over) h = h
step-bounded s t (ended c (broken e)) h = h
step-bounded s t (load_failed e) h = h

-- From a page with at most 5000 lines, no sequence of events, renders, starts, stops, ends and
-- failures of the lists gives it more than 5000.
pub TailReaches-bounded :
    (s t : TailState) → length s.lines ≤ max_lines → TailReaches s t → length t.lines ≤ max_lines
TailReaches-bounded s t h here = h
TailReaches-bounded s t h (next u v before step) =
    step-bounded u v step (TailReaches-bounded s u h before)
