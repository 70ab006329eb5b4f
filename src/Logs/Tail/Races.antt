-- ===== src/Logs/Tail/Races.antt =====
-- What happens when a stream is replaced by another one, and when lines come together.
use dbtabase_workbench.Common.{ℕ, ◌<◌, ◌≡◌, refl, ◌∙◌, Option, some, [], false, Text, arith}
use dbtabase_workbench.Logs.Tail.{
  TailState, TailEvent, ready, line, error, done_event, stopped_event, StreamEnd, over, broken,
  same_controller, render, on_event, stop_tail, start_tail, end_tail, fail_load,
}

-- What may happen to a stream before it ends or is stopped: its events, renders, and failures of
-- the lists that are being loaded.
pub data Meanwhile (s : TailState) : TailState → Type 0 where
  nothing : Meanwhile s s
  came : (t : TailState) (e : TailEvent) → Meanwhile s t → Meanwhile s (on_event e t)
  rendered : (t : TailState) → Meanwhile s t → Meanwhile s (render t)
  lists_failed : (t : TailState) (e : Option Text) → Meanwhile s t → Meanwhile s (fail_load e t)

controller-on_event : (e : TailEvent) (t : TailState) → (on_event e t).controller ≡ t.controller
unfolding on_event
controller-on_event (ready path) t = refl
controller-on_event (line x level) t = refl
controller-on_event (error m) t = refl
controller-on_event done_event t = refl
controller-on_event stopped_event t = refl

controller-Meanwhile : (s u : TailState) → Meanwhile s u → u.controller ≡ s.controller
unfolding render fail_load
controller-Meanwhile s u nothing = refl
controller-Meanwhile s u (came t e before) =
    controller-on_event e t ∙ controller-Meanwhile s t before
controller-Meanwhile s u (rendered t before) = controller-Meanwhile s t before
controller-Meanwhile s u (lists_failed t e before) = controller-Meanwhile s t before

controller-start_tail :
    (path : Text) (s : TailState) → (start_tail path s).controller ≡ some s.next_controller
unfolding start_tail
controller-start_tail path s = refl

next-stop_tail : (s : TailState) → (stop_tail s).next_controller ≡ s.next_controller
unfolding stop_tail
next-stop_tail s = refl

end_tail-late :
    (c : ℕ) (e : StreamEnd) (u : TailState)
    → same_controller u.controller c ≡ false
    → end_tail c e u ≡ record u { tailing = false; message = [] }
unfolding end_tail
end_tail-late c over u h = rw h refl
end_tail-late c (broken e) u h = rw h refl

-- A stream is started in the place of another one, whose end comes later, while the new stream has
-- neither ended nor been stopped, whatever else it has done. The end of the replaced stream, whether it is over or broken, leaves everything
-- of the new stream as it is, its controller, its status, its path and its lines, but for two
-- things: it clears the flag that a stream is running, and the message on display.
pub end_tail-replaced :
    (path : Text) (c : ℕ) (e : StreamEnd) (s u : TailState)
    → s.controller ≡ some c
    → c < s.next_controller
    → Meanwhile (start_tail path (stop_tail s)) u
    → (end_tail c e u ≡ record u { tailing = false; message = [] })
      × (u.controller ≡ some s.next_controller)
end_tail-replaced path c e s u held before meanwhile =
    let its =
      controller-Meanwhile (start_tail path (stop_tail s)) u meanwhile
      ∙ controller-start_tail path (stop_tail s) in
    let mine : u.controller ≡ some s.next_controller = rw⁻¹ (next-stop_tail s) its in
    (end_tail-late c e u (rw mine (ground arith)), mine)
