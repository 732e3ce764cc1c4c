-- ===== src/Future.antt =====
-- aio/future/pure.py: `Future` and `FuturePromise`. The state of a task is finished by the same
-- code, behind the guards of `Task._set_result`.
pub mod Callbacks
pub mod Settle
use aio.Prelude.{
  ℕ, suc, Bool, true, false, not, Option, none, some, List, [], ◌∷◌, if◌then◌else◌, ◌&&◌, update,
}
use aio.Exceptions.{
  Exc, is_cancel, CancelArg, coerce_cancel_arg, Result, ok, raised, future_not_ready,
  future_finished_error, self_cancel_forbidden, runtime_error, type_error, value_error,
  assertion_error,
}
use aio.World.{
  Callback, Args, with_future, Fut, FutState, pending, created, scheduled, cancelling, running,
  success, failed, CoroState, coro_created, coro_suspended, coro_running, coro_closed, Kind,
  plain_future, task_future, World, M, waiting_callbacks, is_pending, is_done, is_task_state,
  with_callbacks, set_state, cancel_handle, call_soon, add_to, remove_from, handle_of, pop_from,
}

-- `Future.State`.
pub data State : Type 0 where
  state_created state_scheduled state_running state_cancelling state_finished : State

pub data Warning : Type 0 where
  never_finished never_retrieved : Warning

-- What `await` does next: hand the future to the loop, or end with the result.
pub data AwaitStep (V : Type 0) : Type 0 where
  yields : ℕ → AwaitStep V
  ends : Result V → AwaitStep V

unfoldable pub handles_from : ℕ → List Callback → List (Callback × ℕ)
handles_from n [] = []
handles_from n (cb ∷ cbs) = (cb, n) ∷ handles_from (suc n) cbs

abbrev is_coro_running : CoroState → Bool
is_coro_running coro_running = true
is_coro_running _ = false

abbrev is_coro_closed : CoroState → Bool
is_coro_closed coro_closed = true
is_coro_closed _ = false

is_some_cancel : Option Exc → Bool
is_some_cancel none = false
is_some_cancel (some e) = is_cancel e

-- `FuturePromise.__init__`: a promise is the number of the future that it controls.
promise_of : Kind → ℕ → Result ℕ
promise_of plain_future f = ok f
promise_of task_future f = raised type_error

module _ {V : Type 0} where
  -- `Task.state`, and `Future.state` for the states that are no task's.
  unfoldable pub state_of : FutState V → State
  state_of (created cbs) = state_created
  state_of (scheduled cbs h) = state_scheduled
  state_of (running cbs f) = state_running
  state_of (cancelling cbs h e) = state_cancelling
  state_of (pending cbs) = state_running
  state_of (success v s) = state_finished
  state_of (failed e r s) = state_finished

  abbrev pub state : World V → ℕ → FutState V
  state w f = (w.futs f).state

  unfoldable pub is_finished : World V → ℕ → Bool
  is_finished w f = is_done (state w f)

  is_cancelled_state : FutState V → Bool
  is_cancelled_state (failed e r s) = is_cancel e
  is_cancelled_state _ = false

  unfoldable pub is_cancelled : World V → ℕ → Bool
  unfolding is_cancelled_state
  is_cancelled w f = is_cancelled_state (state w f)

  -- A branch for each class of state; the states that are not finished are `_PendingState`s.
  result_in : FutState V → ℕ → M V V
  result_in (success v s) f w = (w, ok v)
  result_in (failed e r s) f w = (set_state w f (failed e true s), raised e)
  result_in _ f w = (w, raised future_not_ready)

  unfoldable pub result : ℕ → M V V
  unfolding result_in
  result f w = result_in (state w f) f w

  exception_in : FutState V → ℕ → M V (Option Exc)
  exception_in (success v s) f w = (w, ok none)
  exception_in (failed e r s) f w = (set_state w f (failed e true s), ok (some e))
  exception_in _ f w = (w, raised future_not_ready)

  unfoldable pub exception : ℕ → M V (Option Exc)
  unfolding exception_in
  exception f w = exception_in (state w f) f w

  unfoldable pub add_callback : ℕ → Callback → M V (Unit {0})
  add_callback f cb w = elim (waiting_callbacks (state w f)) [
    | none ↦ (w, raised future_finished_error)
    | some cbs ↦ (set_state w f (with_callbacks (state w f) (add_to cb cbs)), ok tt)
  ]

  -- `handle = cbs.pop(cb)` and `handle.cancel()`, unless there is no such key.
  cancel_popped : Option ℕ → World V → World V → World V
  cancel_popped none w popped = w
  cancel_popped (some h) w popped = cancel_handle popped h

  remove_callback_in : FutState V → ℕ → Callback → World V → World V
  unfolding cancel_popped
  remove_callback_in (success v s) f cb w =
      cancel_popped (handle_of cb s) w (set_state w f (success v (pop_from cb s)))
  remove_callback_in (failed e r s) f cb w =
      cancel_popped (handle_of cb s) w (set_state w f (failed e r (pop_from cb s)))
  remove_callback_in st f cb w = elim (waiting_callbacks st) [
    | none ↦ w
    | some cbs ↦ set_state w f (with_callbacks st (remove_from cb cbs))
  ]

  unfoldable pub remove_callback : ℕ → Callback → World V → World V
  unfolding remove_callback_in
  remove_callback f cb w = remove_callback_in (state w f) f cb w

  -- `{cb: self._loop.call_soon(cb, self) for cb in cbs}`: the calls, and the handles that they
  -- return, which are numbered from the next one on.
  unfoldable pub call_all : World V → ℕ → ℕ → List Callback → World V
  call_all w l f [] = w
  call_all w l f (cb ∷ cbs) = call_all (call_soon w l cb (with_future f)) l f cbs

  -- The end of `Future._set_result`: `val`, `exc`, or neither.
  finish : Option V → Option Exc → ℕ → List (Callback × ℕ) → M V (Unit {0})
  finish (some v) e f s w = (set_state w f (success v s), ok tt)
  finish none (some e) f s w = (set_state w f (failed e false s), ok tt)
  finish none none f s w = (w, raised assertion_error)

  both_given : Option V → Option Exc → Bool
  both_given (some v) (some e) = true
  both_given _ _ = false

  -- `Future._set_result`.
  unfoldable pub base_set_result : ℕ → Option V → Option Exc → M V (Unit {0})
  unfolding finish both_given
  base_set_result f val exc w =
      if both_given val exc
      then (w, raised value_error)
      else (elim (waiting_callbacks (state w f)) [
        | none ↦ (w, raised future_finished_error)
        | some cbs ↦
            finish val exc f (handles_from w.next_handle cbs) (call_all w (w.futs f).loop f cbs)
      ])

  -- `Task._set_result`.
  unfoldable pub task_set_result : ℕ → Option V → Option Exc → M V (Unit {0})
  unfolding is_some_cancel
  task_set_result t val exc w =
      if is_task_state (state w t)
      then if is_some_cancel exc && is_coro_running (w.futs t).coro
        then (w, raised self_cancel_forbidden)
        else if not (is_coro_closed (w.futs t).coro)
        then (w, raised runtime_error)
        else base_set_result t val exc w
      else base_set_result t val exc w

  -- `self._set_result`, by the class of `self`.
  set_result_of : Kind → ℕ → Option V → Option Exc → M V (Unit {0})
  set_result_of plain_future = base_set_result
  set_result_of task_future = task_set_result

  unfoldable pub set_result : ℕ → Option V → Option Exc → M V (Unit {0})
  unfolding set_result_of
  set_result f val exc w = set_result_of (w.futs f).kind f val exc w

  -- `Future._cancel`.
  unfoldable pub future_cancel : ℕ → CancelArg → M V (Unit {0})
  future_cancel f arg w = set_result f none (some (coerce_cancel_arg arg)) w

  unfoldable pub new_promise : ℕ → M V ℕ
  unfolding promise_of
  new_promise f w = (w, promise_of (w.futs f).kind f)

  unfoldable pub promise_set_result : ℕ → V → M V (Unit {0})
  promise_set_result f v w = set_result f (some v) none w

  unfoldable pub promise_set_exception : ℕ → Exc → M V (Unit {0})
  promise_set_exception f e w =
      if is_cancel e then (w, raised type_error) else set_result f none (some e) w

  unfoldable pub promise_cancel : ℕ → CancelArg → M V (Unit {0})
  promise_cancel f arg w = future_cancel f arg w

  abbrev pub add_fut : World V → Fut V → World V
  add_fut w x = record w { futs = update w.futs w.next_fut x; next_fut = suc w.next_fut }

  -- `create_promise`: a new future in the pending state, and its promise.
  unfoldable pub create_promise : ℕ → M V ℕ
  create_promise l w =
      new_promise w.next_fut (
        add_fut w
          (record { kind = plain_future; loop = l; state = pending []; coro = coro_closed }))

  -- `Future.__await__`, up to the `yield` and after it.
  unfoldable pub await_start : ℕ → World V → World V × AwaitStep V
  await_start f w =
      if is_pending (state w f) then (w, yields f) else (let (w', r) = result f w in (w', ends r))

  unfoldable pub await_resume : ℕ → M V V
  await_resume f w = if is_pending (state w f) then (w, raised runtime_error) else result f w

  -- `Future.__del__`: the warnings that it emits.
  not_retrieved : FutState V → List Warning
  not_retrieved (failed e false s) = never_retrieved ∷ []
  not_retrieved _ = []

  unfoldable pub del_warnings : World V → ℕ → List Warning
  unfolding not_retrieved
  del_warnings w f =
      if is_finished w f
      then not_retrieved (state w f)
      else never_finished ∷ not_retrieved (state w f)
