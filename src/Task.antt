-- ===== src/Task.antt =====
-- aio/future/pure.py: `Task`, and the coroutine that it drives.
pub mod Step
pub mod Protect
pub mod Cancel
pub mod Wake
pub mod Handles
use aio.Prelude.{
  ℕ, zero, suc, Bool, true, false, not, Option, none, some, List, [], ◌∷◌, if◌then◌else◌, ◌&&◌,
  ◌||◌, ◌==◌, update,
}
use aio.Exceptions.{
  Exc, is_cancel, is_caught, CancelArg, coerce_cancel_arg, Result, ok, raised, already_cancelling,
  future_finished_error, runtime_error, recursion_error, value_error, assertion_error,
  attribute_error, task_inner_error,
}
use aio.World.{
  Callback, step_of, closure, Args, no_args, with_none, Fut, FutState, pending, created, scheduled,
  cancelling, running, success, failed, CoroState, coro_created, coro_suspended, coro_running,
  coro_closed, Kind, plain_future, task_future, World, M, waiting_callbacks, is_done, is_task_state,
  set_state, set_coro, cancel_handle, call_soon,
}
use aio.Future.{
  state, is_finished, add_callback, remove_callback, set_result, future_cancel, create_promise,
  add_fut, promise_set_result, promise_set_exception,
}

-- How a coroutine is resumed: `send(None)` or `throw(exc)`.
pub data Resume : Type 0 where
  send : Resume
  throw : Exc → Resume

-- How a coroutine comes back: it yields a future or something else, it returns (`StopIteration`),
-- or an exception leaves it.
pub data CoroOut (V : Type 0) : Type 0 where
  yielded : ℕ → CoroOut V
  yielded_other : CoroOut V
  stopped : V → CoroOut V
  threw : Exc → CoroOut V

-- What the program can do to futures and tasks between two suspensions. Each of these may raise;
-- the program then goes on with another operation, or the segment ends.
pub data Op (V : Type 0) : Type 0 where
  adds_callback removes_callback : ℕ → ℕ → Op V
  sets_result : ℕ → V → Op V
  sets_exception : ℕ → Exc → Op V
  cancels : ℕ → CancelArg → Op V
  reads_result : ℕ → Op V
  creates_promise : ℕ → Op V
  creates_task : ℕ → Op V

-- One run of a coroutine's code, from a resumption to the next suspension or to its end.
pub record Segment (V : Type 0) : Type 0 where
  pub ops : List (Op V)
  pub out : CoroOut V

abbrev pub Code : Type 0 → Type 0
Code V = Resume → Segment V

-- The check of `_CancellingState.__post_init__`.
abbrev pub cancellable : CoroState → Bool
cancellable coro_created = true
cancellable coro_suspended = true
cancellable _ = false

abbrev pub is_running_coro : CoroState → Bool
is_running_coro coro_running = true
is_running_coro _ = false

abbrev pub is_suspended_coro : CoroState → Bool
is_suspended_coro coro_suspended = true
is_suspended_coro _ = false

abbrev pub is_created_coro : CoroState → Bool
is_created_coro coro_created = true
is_created_coro _ = false

abbrev is_inner_error : Exc → Bool
is_inner_error task_inner_error = true
is_inner_error _ = false

module _ {V : Type 0} where
  -- `_go_to_inner_cancellation`: the handle is made before the state is checked.
  go_to_inner_cancellation : List Callback → ℕ → CancelArg → M V (Unit {0})
  go_to_inner_cancellation cbs t arg w =
      let soon = call_soon w (w.futs t).loop (step_of t) with_none in
      if cancellable (w.futs t).coro
      then (set_state soon t (cancelling cbs w.next_handle (coerce_cancel_arg arg)), ok tt)
      else (soon, raised runtime_error)

  -- The `match` of `Task._cancel`; `inner` is the cancellation of the awaited future.
  cancel_in : FutState V → (ℕ → CancelArg → M V (Unit {0})) → ℕ → CancelArg → M V (Unit {0})
  unfolding go_to_inner_cancellation
  cancel_in (created cbs) inner t arg w = go_to_inner_cancellation cbs t arg w
  cancel_in (scheduled cbs h) inner t arg w =
      if (w.handles h).executed
      then (w, raised assertion_error)
      else go_to_inner_cancellation cbs t arg (cancel_handle w h)
  cancel_in (running cbs f) inner t arg w =
      if is_finished w f
      then go_to_inner_cancellation cbs t arg (remove_callback f (step_of t) w)
      else inner f arg w
  cancel_in (cancelling cbs h e) inner t arg w = (w, raised already_cancelling)
  cancel_in _ inner t arg w = (w, raised future_finished_error)

  -- `Task._cancel`.
  task_cancel : (ℕ → CancelArg → M V (Unit {0})) → ℕ → CancelArg → M V (Unit {0})
  unfolding cancel_in
  task_cancel inner t arg w =
      if not (is_task_state (state w t))
      then (w, raised future_finished_error)
      else if is_running_coro (w.futs t).coro
      then (w, raised (coerce_cancel_arg arg))
      else cancel_in (state w t) inner t arg w

  -- `cancel_future`: `_cancel` of the object's class. A task that waits passes the cancellation on,
  -- so the calls nest; the first argument is how deep they can before Python's `RecursionError`.
  unfoldable pub cancel_future : ℕ → ℕ → CancelArg → M V (Unit {0})
  unfolding task_cancel
  cancel_future zero f arg w = (w, raised recursion_error)
  cancel_future (suc n) f arg w = elim (w.futs f).kind [
    | plain_future ↦ future_cancel f arg w
    | task_future ↦ task_cancel (cancel_future n) f arg w
  ]

  schedule_in : FutState V → ℕ → M V (Unit {0})
  schedule_in (created cbs) t w =
      let soon = call_soon w (w.futs t).loop (step_of t) with_none in
      if is_created_coro (w.futs t).coro
      then (set_state soon t (scheduled cbs w.next_handle), ok tt)
      else (soon, raised runtime_error)
  schedule_in _ t w = (w, raised runtime_error)

  -- `_schedule_first_step`.
  unfoldable pub schedule_first_step : ℕ → M V (Unit {0})
  unfolding schedule_in
  schedule_first_step t w = schedule_in (state w t) t w

  -- `create_task` of a coroutine in the state `c`.
  unfoldable pub create_task : ℕ → CoroState → M V ℕ
  create_task l c w =
      let made =
        add_fut w (record { kind = task_future; loop = l; state = created []; coro = c }) in
      let (w', r) = schedule_first_step w.next_fut made in
      if is_created_coro c
      then (w', (elim r [ ok u ↦ ok w.next_fut | raised e ↦ raised e ]))
      else (w, raised runtime_error)
