-- ===== src/Loop.antt =====
-- aio/loop/pure/impl.py: `BaseEventLoop` and `BaseLoopRunner`. What comes from outside is an
-- argument: the readings of the clock, what the selector returns, and what the callbacks do.
pub mod Inv
pub mod Wait
pub mod Leaves
pub mod Stop
pub mod Threads
pub mod Once
pub mod Prompt
pub mod New
pub mod Soon
use aio.Prelude.{
  ℕ, suc, ◌+◌, ◌-◌, Bool, true, false, Option, none, some, List, [], ◌∷◌, ◌++◌, if◌then◌else◌, ◌==◌,
  ◌||◌, ltb, update,
}
use aio.Exceptions.{Exc, is_exception, Result, ok, raised, loop_stopped, runtime_error}
use aio.World.{Callback, Args, Handle}
use aio.Scheduler.{PriorityQueue, enqueue, handle_priority, pop_pending, items_num, next_event}
use aio.Scheduler.Heap.{Heapq}

-- The loop with the handles that it made; `wakeups` counts the calls of `wakeup_thread_safe`,
-- `reported` holds what the exception handler was given, `called` the handles whose callbacks were
-- called, and `is_running` is the runner's `_run`.
pub record Loop : Type 0 where
  pub id : ℕ
  pub handles : ℕ → Handle
  pub next_handle : ℕ
  pub scheduler : PriorityQueue ℕ
  pub in_poll : Bool
  pub wakeups : ℕ
  pub reported : List Exc
  pub called : List ℕ
  pub is_running : Bool

-- `BaseEventLoop.__init__` and `BaseLoopRunner.__init__`: the loop `id`, with a scheduler or an empty one, when the handles
-- below `made` were made.
unfoldable pub new_loop : ℕ → (ℕ → Handle) → ℕ → Option (PriorityQueue ℕ) → Loop
new_loop id handles made scheduler = record {
  id = id;
  handles = handles;
  next_handle = made;
  scheduler = elim scheduler [
    | some q ↦ q
    | none ↦ record { next_id = 0; min_priority = []; prioritized = [] }
  ];
  in_poll = false;
  wakeups = 0;
  reported = [];
  called = [];
  is_running = false;
}

-- What a callback, or another thread while the selector polls, can do to the loop.
pub data LoopOp : Type 0 where
  calls_soon : Callback → Args → LoopOp
  calls_later : ℕ → ℕ → Callback → Args → LoopOp
  cancels_handle : ℕ → LoopOp
  stops : LoopOp

-- What a call of a callback does, the exception that leaves it, and the one that the exception
-- handler raises when it is told of that.
pub record Effect : Type 0 where
  pub ops : List LoopOp
  pub exc : Option Exc
  pub handler : Option Exc

-- One turn of the loop seen from outside: the readings of the clock, its resolution, what others do
-- while the selector polls, what `select` raises, if it does, and the callbacks of the events that it
-- returns.
pub record Turn : Type 0 where
  pub at_start : ℕ
  pub resolution : ℕ
  pub before_select : ℕ
  pub during_select : List LoopOp
  pub select_raises : Option Exc
  pub io : List Effect
  pub after_select : ℕ

-- How long the selector may wait: `none` is until an event.
unfoldable pub wait_events : List ℕ → Option ℕ → ℕ → Option ℕ
wait_events (h ∷ hs) next now = some 0
wait_events [] none now = none
wait_events [] (some t) now = some (if ltb t now then 0 else t - now)

-- After a turn: what it raised leaves the loop, and else the next turns follow.
abbrev pub next_turn : Result (Unit {0}) → Loop → Loop × Option Exc → Loop × Option Exc
next_turn (raised e) l rest = (l, some e)
next_turn (ok u) l rest = rest

module _ (hq : Heapq ℕ) where
  -- `_wakeup_selector_if_in_poll`.
  unfoldable pub wakeup_if_in_poll : Loop → Loop
  wakeup_if_in_poll l = if l.in_poll then record l { wakeups = suc l.wakeups } else l

  -- A new handle, enqueued.
  abbrev pub store_handle : Option ℕ → Callback → Args → Loop → Loop
  store_handle when cb args l =
      let handles : ℕ → Handle = update l.handles l.next_handle (record {
        when = when;
        loop = l.id;
        callback = cb;
        args = args;
        executed = false;
        is_cancelled = false;
      }) in
      record l {
        handles = handles;
        next_handle = suc l.next_handle;
        scheduler = enqueue hq (handle_priority handles) l.next_handle l.scheduler;
      }

  add_handle : Option ℕ → Callback → Args → Loop → Loop
  unfolding wakeup_if_in_poll
  add_handle when cb args l = wakeup_if_in_poll (store_handle when cb args l)

  -- `BaseEventLoop.call_soon`.
  unfoldable pub call_soon : Callback → Args → Loop → Loop
  unfolding add_handle
  call_soon cb args l = add_handle none cb args l

  -- `BaseEventLoop.call_later`, with the clock at `now`.
  unfoldable pub call_later : ℕ → ℕ → Callback → Args → Loop → Loop
  unfolding add_handle
  call_later now timeout cb args l =
      if timeout == 0 then call_soon cb args l else add_handle (some (now + timeout)) cb args l

  -- `Handle.cancel` and `BaseLoopRunner.stop_loop` too.
  unfoldable pub exec_op : LoopOp → Loop → Loop
  exec_op (calls_soon cb args) l = call_soon cb args l
  exec_op (calls_later now timeout cb args) l = call_later now timeout cb args l
  exec_op (cancels_handle h) l = record l {
    handles = update l.handles h (record (l.handles h) { is_cancelled = true });
  }
  exec_op stops l = record l { is_running = false }

  unfoldable pub exec_ops : List LoopOp → Loop → Loop
  exec_ops [] l = l
  exec_ops (o ∷ os) l = exec_ops os (exec_op o l)

  abbrev tell : Exc → Loop → Loop
  tell e l = record l { reported = l.reported ++ e ∷ [] }

  -- `_invoke_callback_within_context`: an exception goes to the handler, and one that is no
  -- `Exception` is raised again. What the handler raises itself leaves in place of it.
  report : Option Exc → Option Exc → Loop → Loop × Result (Unit {0})
  report handler none l = (l, ok tt)
  report none (some e) l = if is_exception e then (tell e l, ok tt) else (tell e l, raised e)
  report (some broken) (some e) l = (tell e l, raised broken)

  unfoldable pub invoke_callback : Effect → Loop → Loop × Result (Unit {0})
  unfolding report
  invoke_callback eff l = report eff.handler eff.exc (exec_ops eff.ops l)

  pub mark_executed : ℕ → Loop × Result (Unit {0}) → Loop × Result (Unit {0})
  mark_executed h (l, ok u) =
      (record l { handles = update l.handles h (record (l.handles h) { executed = true }) }, ok tt)
  mark_executed h (l, raised e) = (l, raised e)

  -- `_invoke_handle`; `code` says what the callback of each handle does.
  unfoldable pub invoke_handle : (ℕ → Effect) → ℕ → Loop → Loop × Result (Unit {0})
  unfolding mark_executed
  invoke_handle code h l =
      if (l.handles h).is_cancelled
      then (l, ok tt)
      else mark_executed h (invoke_callback (code h) (record l { called = l.called ++ h ∷ [] }))

  -- The `for` loops of `run_step`: an exception that is raised ends them.
  unfoldable pub invoke_handles : (ℕ → Effect) → List ℕ → Loop → Loop × Result (Unit {0})
  invoke_handles code [] l = (l, ok tt)
  invoke_handles code (h ∷ hs) l =
      let rest = invoke_handles code hs (invoke_handle code h l).0 in
      elim (invoke_handle code h l).1 [
        | raised e ↦ ((invoke_handle code h l).0, raised e)
        | ok u ↦ rest
      ]

  unfoldable pub invoke_events : List Effect → Loop → Loop × Result (Unit {0})
  invoke_events [] l = (l, ok tt)
  invoke_events (x ∷ xs) l =
      let rest = invoke_events xs (invoke_callback x l).0 in
      elim (invoke_callback x l).1 [ raised e ↦ ((invoke_callback x l).0, raised e) | ok u ↦ rest ]

  -- `pop_pending`, which changes the scheduler of the loop.
  pub pop : ℕ → Loop → Loop × List ℕ
  pop threshold l =
      let (q, hs) = pop_pending hq l.handles threshold l.scheduler in
      (record l { scheduler = q }, hs)

  -- The late callbacks: those that are due when the early ones and the events are done.
  pub late_part : (ℕ → Effect) → Turn → Loop × Result (Unit {0}) → Loop × Result (Unit {0})
  unfolding pop
  late_part code turn (l, raised e) = (l, raised e)
  late_part code turn (l, ok u) =
      let (l', late) = pop (turn.after_select + turn.resolution) l in invoke_handles code late l'

  pub events_part : Turn → Loop × Result (Unit {0}) → Loop × Result (Unit {0})
  events_part turn (l, raised e) = (l, raised e)
  events_part turn (l, ok u) = invoke_events turn.io l

  -- `self._selector_in_poll` is set for the time of the poll.
  pub poll : List LoopOp → Loop → Loop
  poll ops l = record (exec_ops ops (record l { in_poll = true })) { in_poll = false }

  -- The early callbacks are invoked unless `select` raises: then they are popped and lost.
  pub early_part : (ℕ → Effect) → List ℕ → Option Exc → Loop → Loop × Result (Unit {0})
  early_part code early none l = invoke_handles code early l
  early_part code early (some e) l = (l, raised e)

  -- The wait that `run_step` asks of the selector.
  unfoldable pub step_wait : Turn → Loop → Option ℕ
  unfolding pop
  step_wait turn l =
      let (l', early) = pop (turn.at_start + turn.resolution) l in
      wait_events early (next_event l'.handles l'.scheduler) turn.before_select

  -- `run_step`.
  unfoldable pub run_step : (ℕ → Effect) → Turn → Loop → Loop × Result (Unit {0})
  unfolding pop poll early_part events_part late_part
  run_step code turn l =
      let (l', early) = pop (turn.at_start + turn.resolution) l in
      late_part code turn
        (events_part turn (early_part code early turn.select_raises (poll turn.during_select l')))

  -- The loop of `run_loop`, over the turns that happen. It ends with `LoopStopped`, or with what a
  -- turn raises; `none` is that it goes on after the last of the turns given.
  run_turns : (ℕ → Effect) → List Turn → Loop → Loop × Option Exc
  run_turns code [] l =
      if l.is_running || ltb 0 (items_num l.handles l.scheduler)
      then (l, none)
      else (l, some loop_stopped)
  run_turns code (turn ∷ turns) l =
      let rest = run_turns code turns (run_step code turn l).0 in
      let next = next_turn (run_step code turn l).1 (run_step code turn l).0 rest in
      if l.is_running || ltb 0 (items_num l.handles l.scheduler)
      then next
      else (l, some loop_stopped)

  -- `BaseLoopRunner.run_loop`.
  unfoldable pub run_loop : (ℕ → Effect) → List Turn → Loop → Loop × Option Exc
  unfolding run_turns
  run_loop code turns l =
      if l.is_running
      then (l, some runtime_error)
      else run_turns code turns (record l { is_running = true })
