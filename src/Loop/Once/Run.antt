-- ===== src/Loop/Once/Run.antt =====
-- aio/loop/pure/impl.py: how often a run of the loop calls a handle.
use aio.Prelude.{
  ℕ, ◌+◌, Bool, true, false, Option, none, some, List, [], ◌∷◌, arith, if◌then◌else◌, ◌||◌, ltb,
}
use aio.Exceptions.{Exc, Result, ok, raised, loop_stopped, runtime_error}
use aio.Scheduler.{items_num}
use aio.Scheduler.Heap.{Heapq}
use aio.Scheduler.Times.{waiting-pop_pending}
use aio.Loop.{
  Loop, LoopOp, Effect, Turn, early_part, pop, poll, late_part, events_part, next_turn, run_step,
  run_turns, run_loop,
}
use aio.Loop.Inv.{LoopInv}
use aio.Loop.Inv.Run.{
  pop-LoopInv, poll-LoopInv, early_part-LoopInv, events_part-LoopInv, run_step-LoopInv,
}
use aio.Loop.Once.{
  AtMostOnce, fewer-AtMostOnce, exec_ops-AtMostOnce, invoke_handles-AtMostOnce,
  invoke_events-AtMostOnce,
}

module _ (hq : Heapq ℕ) where
  -- The handles that are popped are no more in the scheduler.
  pub pop-AtMostOnce :
      (threshold : ℕ) (l : Loop)
      → LoopInv l
      → AtMostOnce [] l
      → AtMostOnce (pop hq threshold l).1 (pop hq threshold l).0
  unfolding pop
  pop-AtMostOnce threshold l i o h =
      omega (arith, o h, waiting-pop_pending hq l.handles threshold h l.scheduler i.queue.heap)

  pub poll-AtMostOnce :
      (batch : List ℕ) (os : List LoopOp) (l : Loop)
      → AtMostOnce batch l
      → AtMostOnce batch (poll hq os l)
  unfolding poll
  poll-AtMostOnce batch os l o = exec_ops-AtMostOnce hq batch os (record l { in_poll = true }) o

  pub early_part-AtMostOnce :
      (code : ℕ → Effect) (early : List ℕ) (x : Option Exc) (l : Loop)
      → AtMostOnce early l
      → AtMostOnce [] (early_part hq code early x l).0
  unfolding early_part
  early_part-AtMostOnce code early none l o = invoke_handles-AtMostOnce hq code early l o
  early_part-AtMostOnce code early (some e) l o = fewer-AtMostOnce hq early l o

  pub events_part-AtMostOnce :
      (turn : Turn) (m : Loop × Result (Unit {0}))
      → AtMostOnce [] m.0
      → AtMostOnce [] (events_part hq turn m).0
  unfolding events_part
  events_part-AtMostOnce turn (l, ok u) o = invoke_events-AtMostOnce hq turn.io l o
  events_part-AtMostOnce turn (l, raised e) o = o

  late_part-AtMostOnce :
      (code : ℕ → Effect) (turn : Turn) (m : Loop × Result (Unit {0}))
      → LoopInv m.0
      → AtMostOnce [] m.0
      → AtMostOnce [] (late_part hq code turn m).0
  unfolding late_part
  late_part-AtMostOnce code turn (l, ok u) i o =
      let threshold = turn.after_select + turn.resolution in
      invoke_handles-AtMostOnce hq code (pop hq threshold l).1 (pop hq threshold l).0
        (pop-AtMostOnce threshold l i o)
  late_part-AtMostOnce code turn (l, raised e) i o = o

  pub run_step-AtMostOnce :
      (code : ℕ → Effect) (turn : Turn) (l : Loop)
      → LoopInv l
      → AtMostOnce [] l
      → AtMostOnce [] (run_step hq code turn l).0
  unfolding run_step
  run_step-AtMostOnce code turn l i o =
      let threshold = turn.at_start + turn.resolution in
      let (popped, early) = pop hq threshold l in
      let polled = poll hq turn.during_select popped in
      let polled-LoopInv =
        poll-LoopInv hq turn.during_select popped (pop-LoopInv hq threshold l i) in
      let called = early_part hq code early turn.select_raises polled in
      late_part-AtMostOnce code turn (events_part hq turn called)
        (events_part-LoopInv hq turn called
          (early_part-LoopInv hq code early turn.select_raises polled polled-LoopInv))
        (events_part-AtMostOnce turn called (
          early_part-AtMostOnce code early turn.select_raises polled
            (poll-AtMostOnce early turn.during_select popped (pop-AtMostOnce threshold l i o))))

  next_turn-AtMostOnce :
      (r : Result (Unit {0})) (l : Loop) (m : Loop × Option Exc)
      → AtMostOnce [] l
      → AtMostOnce [] m.0
      → AtMostOnce [] (next_turn r l m).0
  next_turn-AtMostOnce (ok u) l m o p = p
  next_turn-AtMostOnce (raised e) l m o p = o

  if-AtMostOnce :
      (b : Bool) (x y : Loop × Option Exc)
      → AtMostOnce [] x.0
      → AtMostOnce [] y.0
      → AtMostOnce [] (if b then x else y).0
  if-AtMostOnce true x y o p = o
  if-AtMostOnce false x y o p = p

  run_turns-AtMostOnce :
      (code : ℕ → Effect) (turns : List Turn) (l : Loop)
      → LoopInv l
      → AtMostOnce [] l
      → AtMostOnce [] (run_turns hq code turns l).0
  unfolding run_turns
  run_turns-AtMostOnce code [] l i o =
      if-AtMostOnce (l.is_running || ltb 0 (items_num l.handles l.scheduler)) (l, none)
        (l, some loop_stopped) o o
  run_turns-AtMostOnce code (turn ∷ turns) l i o =
      let after = run_step-AtMostOnce code turn l i o in
      let (m, r) = run_step hq code turn l in
      if-AtMostOnce (l.is_running || ltb 0 (items_num l.handles l.scheduler))
        (next_turn r m (run_turns hq code turns m)) (l, some loop_stopped)
        (next_turn-AtMostOnce r m (run_turns hq code turns m) after
          (run_turns-AtMostOnce code turns m (run_step-LoopInv hq code turn l i) after))
        o

  -- If the invariant of the loop holds at its start, and each handle of the loop is then at most at
  -- one place, in the scheduler or among those that were called: after a run, whatever the
  -- callbacks and other threads enqueue and cancel and however the run ends, each handle still is.
  -- So none is called twice, and none that was called is in the scheduler.
  pub run_loop-AtMostOnce :
      (code : ℕ → Effect) (turns : List Turn) (l : Loop)
      → LoopInv l
      → AtMostOnce [] l
      → AtMostOnce [] (run_loop hq code turns l).0
  unfolding run_loop
  run_loop-AtMostOnce code turns l i o =
      let started = record l { is_running = true } in
      if-AtMostOnce l.is_running (l, some runtime_error) (run_turns hq code turns started) o
        (run_turns-AtMostOnce code turns started
          (record { queue = i.queue; timed = i.timed; known = i.known }) o)
