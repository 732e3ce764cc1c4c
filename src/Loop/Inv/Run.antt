-- ===== src/Loop/Inv/Run.antt =====
-- aio/loop/pure/impl.py: what a turn of the loop and a whole run keep.
use native.Mathlib.Bridge.{le_prop}
use mathlib.Core.List.Perm
use aio.Prelude.{
  ◌||◌, ℕ, ◌+◌, ◌<◌, ◌≡◌, Bool, true, false, Option, none, some, List, [], ◌∷◌, arith,
  if◌then◌else◌, ltb,
}
use aio.Exceptions.{Exc, Result, ok, raised, loop_stopped, runtime_error}
use aio.Scheduler.{items_num, pop_pending, pop_below_priority}
use aio.Scheduler.Heap.{Heapq, All-append, All-Perm}
use aio.Scheduler.Pending.{pop_pending-Popped}
use aio.Loop.{
  Loop, LoopOp, Effect, Turn, invoke_callback, invoke_handle, invoke_handles, invoke_events,
  early_part, pop, late_part, events_part, next_turn, poll, run_step, run_turns, run_loop,
}
use aio.Loop.Inv.{LoopInv, exec_ops-LoopInv, invoke_callback-LoopInv, invoke_handle-LoopInv}

module _ (hq : Heapq ℕ) where
  pub invoke_handles-LoopInv :
      (code : ℕ → Effect) (hs : List ℕ) (l : Loop)
      → LoopInv l
      → LoopInv (invoke_handles hq code hs l).0
  unfolding invoke_handles
  invoke_handles-LoopInv code [] l i = i
  invoke_handles-LoopInv code (h ∷ hs) l i =
      let first = invoke_handle-LoopInv hq code h l i in
      ground (arith, first, invoke_handles-LoopInv code hs (invoke_handle hq code h l).0 first)

  invoke_events-LoopInv :
      (xs : List Effect) (l : Loop) → LoopInv l → LoopInv (invoke_events hq xs l).0
  unfolding invoke_events
  invoke_events-LoopInv [] l i = i
  invoke_events-LoopInv (x ∷ xs) l i =
      let first = invoke_callback-LoopInv hq x l i in
      ground (arith, first, invoke_events-LoopInv xs (invoke_callback hq x l).0 first)

  pub pop-LoopInv : (threshold : ℕ) (l : Loop) → LoopInv l → LoopInv (pop hq threshold l).0
  unfolding pop pop_pending pop_below_priority
  pop-LoopInv threshold l i =
      let (ready, _, _, popped) =
        pop_pending-Popped hq l.handles threshold l.scheduler i.queue.heap in
      let back = Perm.symm popped.together in
      record {
        queue = record {
          heap = popped.still_heap;
          fresh =
              (All-append _ popped.entries _
                (All-Perm (λ e. e.seq < l.scheduler.next_id) (λ e. le_prop) back i.queue.fresh)).1;
        };
        timed =
            (All-append _ popped.entries _ (
              All-Perm (λ e. (l.handles e.item).when ≡ some e.priority) (λ e. hlevel) back
                i.timed)).1;
        known =
            (All-append _ popped.entries _
              (All-Perm (λ e. e.item < l.next_handle) (λ e. le_prop) back i.known)).1;
      }

  pub poll-LoopInv : (os : List LoopOp) (l : Loop) → LoopInv l → LoopInv (poll hq os l)
  unfolding poll
  poll-LoopInv os l i =
      let done =
        exec_ops-LoopInv hq os (record l { in_poll = true })
          (record { queue = i.queue; timed = i.timed; known = i.known }) in
      record { queue = done.queue; timed = done.timed; known = done.known }

  pub early_part-LoopInv :
      (code : ℕ → Effect) (early : List ℕ) (x : Option Exc) (l : Loop)
      → LoopInv l
      → LoopInv (early_part hq code early x l).0
  unfolding early_part
  early_part-LoopInv code early none l i = invoke_handles-LoopInv code early l i
  early_part-LoopInv code early (some e) l i = i

  pub events_part-LoopInv :
      (turn : Turn) (m : Loop × Result (Unit {0})) → LoopInv m.0 → LoopInv (events_part hq turn m).0
  unfolding events_part
  events_part-LoopInv turn (l, ok u) i = invoke_events-LoopInv turn.io l i
  events_part-LoopInv turn (l, raised e) i = i

  late_part-LoopInv :
      (code : ℕ → Effect) (turn : Turn) (m : Loop × Result (Unit {0}))
      → LoopInv m.0
      → LoopInv (late_part hq code turn m).0
  unfolding late_part
  late_part-LoopInv code turn (l, ok u) i =
      invoke_handles-LoopInv code _ _ (pop-LoopInv (turn.after_select + turn.resolution) l i)
  late_part-LoopInv code turn (l, raised e) i = i

  pub run_step-LoopInv :
      (code : ℕ → Effect) (turn : Turn) (l : Loop) → LoopInv l → LoopInv (run_step hq code turn l).0
  unfolding run_step
  run_step-LoopInv code turn l i =
      let threshold = turn.at_start + turn.resolution in
      late_part-LoopInv code turn _ (
        events_part-LoopInv turn _ (
          early_part-LoopInv code (pop hq threshold l).1 turn.select_raises _
            (poll-LoopInv turn.during_select (pop hq threshold l).0 (pop-LoopInv threshold l i))))

  next_turn-LoopInv :
      (r : Result (Unit {0})) (l : Loop) (m : Loop × Option Exc)
      → LoopInv l
      → LoopInv m.0
      → LoopInv (next_turn r l m).0
  next_turn-LoopInv (ok u) l m i j = j
  next_turn-LoopInv (raised e) l m i j = i

  if-LoopInv :
      (b : Bool) (x y : Loop × Option Exc)
      → LoopInv x.0
      → LoopInv y.0
      → LoopInv (if b then x else y).0
  if-LoopInv true x y i j = i
  if-LoopInv false x y i j = j

  run_turns-LoopInv :
      (code : ℕ → Effect) (turns : List Turn) (l : Loop)
      → LoopInv l
      → LoopInv (run_turns hq code turns l).0
  unfolding run_turns
  run_turns-LoopInv code [] l i =
      if-LoopInv (l.is_running || ltb 0 (items_num l.handles l.scheduler)) (l, none)
        (l, some loop_stopped) i i
  run_turns-LoopInv code (turn ∷ turns) l i =
      let after = run_step-LoopInv code turn l i in
      let (m, r) = run_step hq code turn l in
      if-LoopInv (l.is_running || ltb 0 (items_num l.handles l.scheduler))
        (next_turn r m (run_turns hq code turns m)) (l, some loop_stopped)
        (next_turn-LoopInv r m (run_turns hq code turns m) after
          (run_turns-LoopInv code turns m after))
        i

  -- A run of the loop, over any turns and with any callbacks, keeps the scheduler's heap a heap
  -- whose ids are fresh, and each of its entries of a handle of the loop, with that handle's time.
  pub run_loop-LoopInv :
      (code : ℕ → Effect) (turns : List Turn) (l : Loop)
      → LoopInv l
      → LoopInv (run_loop hq code turns l).0
  unfolding run_loop
  run_loop-LoopInv code turns l i =
      let started = record l { is_running = true } in
      if-LoopInv l.is_running (l, some runtime_error) (run_turns hq code turns started) i
        (run_turns-LoopInv code turns started
          (record { queue = i.queue; timed = i.timed; known = i.known }))
