-- ===== src/Task/Step.antt =====
-- aio/future/pure.py: `Task._step` and `_send_to_coroutine_within_new_context`, with the part of
-- Python's coroutine protocol on which they rest.
pub mod Run
pub mod Wait
pub mod Raises
pub mod Wake
pub mod Turns
pub mod Runs
use aio.Prelude.{ℕ, Bool, true, false, not, Option, none, some, List, [], ◌∷◌, if◌then◌else◌, ◌==◌}
use aio.Exceptions.{
  Exc, is_caught, Result, ok, raised, runtime_error, value_error, attribute_error, task_inner_error,
}
use aio.World.{
  Callback, step_of, closure, FutState, scheduled, cancelling, running, CoroState, coro_created,
  coro_suspended, coro_running, coro_closed, World, M, waiting_callbacks, set_state, set_coro,
}
use aio.Future.{
  state, result, add_callback, remove_callback, set_result, new_promise, create_promise,
  promise_set_result, promise_set_exception,
}
use aio.Task.{
  Resume, send, throw, CoroOut, yielded, yielded_other, stopped, threw, Op, adds_callback,
  removes_callback, sets_result, sets_exception, cancels, reads_result, creates_promise,
  creates_task, Segment, Code, is_suspended_coro, is_inner_error, cancel_future, create_task,
}

-- After a segment the coroutine is suspended if it yielded, and closed if it ended.
abbrev pub coro_after : {V : Type 0} → CoroOut V → CoroState
coro_after (yielded f) = coro_suspended
coro_after yielded_other = coro_suspended
coro_after (stopped v) = coro_closed
coro_after (threw e) = coro_closed

module _ {V : Type 0} where
  -- A promise controls a plain future only.
  on_promise : Result ℕ → M V (Unit {0}) → World V → World V
  on_promise (ok p) m w = (m w).0
  on_promise (raised e) m w = w

  -- `n` bounds how deep cancellations nest.
  unfoldable pub exec_op : ℕ → Op V → World V → World V
  unfolding on_promise
  exec_op n (adds_callback f c) w = (add_callback f (closure c) w).0
  exec_op n (removes_callback f c) w = remove_callback f (closure c) w
  exec_op n (sets_result f v) w = on_promise (new_promise f w).1 (promise_set_result f v) w
  exec_op n (sets_exception f e) w = on_promise (new_promise f w).1 (promise_set_exception f e) w
  exec_op n (cancels f arg) w = (cancel_future n f arg w).0
  exec_op n (reads_result f) w = (result f w).0
  exec_op n (creates_promise l) w = (create_promise l w).0
  exec_op n (creates_task l) w = (create_task l coro_created w).0

  unfoldable pub exec_ops : ℕ → List (Op V) → World V → World V
  exec_ops n [] w = w
  exec_ops n (o ∷ os) w = exec_ops n os (exec_op n o w)

  -- A resumption that runs the code of the coroutine of `t`.
  run_segment : ℕ → ℕ → Segment V → World V → World V × CoroOut V
  run_segment n t seg w =
      (set_coro (exec_ops n seg.ops (set_coro w t coro_running)) t (coro_after seg.out), seg.out)

  -- `coroutine.send(None)` and `coroutine.throw(exc)`, by the coroutine's state: an exception
  -- thrown into a coroutine that has not started closes it, and none of its code runs.
  resume_coro : CoroState → Resume → ℕ → ℕ → Code V → World V → World V × CoroOut V
  unfolding run_segment
  resume_coro coro_created send n t code w = run_segment n t (code send) w
  resume_coro coro_created (throw e) n t code w = (set_coro w t coro_closed, threw e)
  resume_coro coro_suspended r n t code w = run_segment n t (code r) w
  resume_coro coro_running r n t code w = (w, threw value_error)
  resume_coro coro_closed send n t code w = (w, threw runtime_error)
  resume_coro coro_closed (throw e) n t code w = (w, threw runtime_error)

  -- How the `match` of `_send_to_coroutine_within_new_context` resumes the coroutine; a state that
  -- has no case is a `_TaskInnerError`.
  resume_by : FutState V → Option Resume
  resume_by (running cbs f) = some send
  resume_by (scheduled cbs h) = some send
  resume_by (cancelling cbs h e) = some (throw e)
  resume_by _ = none

  -- What is no future that the coroutine yields is a `_TaskInnerError` too.
  pub check_yielded : CoroOut V → CoroOut V
  check_yielded yielded_other = threw task_inner_error
  check_yielded out = out

  -- `_send_to_coroutine_within_new_context`; the current task is set for the time of the call.
  pub send_to_coroutine : ℕ → ℕ → Code V → World V → World V × CoroOut V
  unfolding resume_coro resume_by check_yielded
  send_to_coroutine n t code w = elim (resume_by (state w t)) [
    | none ↦ (w, threw task_inner_error)
    | some r ↦
        let (w', out) =
          resume_coro (w.futs t).coro r n t code (record w { current_task = some t }) in
        (record w' { current_task = w.current_task }, check_yielded out)
  ]

  -- The `finally` of `_step`.
  pub detach : ℕ → World V → World V
  detach t w = elim (state w t) [ running cbs f ↦ remove_callback f (step_of t) w | _ ↦ w ]

  -- The new `_RunningState`, whose check wants a suspended coroutine.
  run_on : Option (List Callback) → ℕ → ℕ → M V (Unit {0})
  run_on none t f w = (w, raised attribute_error)
  run_on (some cbs) t f w =
      if is_suspended_coro (w.futs t).coro
      then (set_state w t (running cbs f), ok tt)
      else (w, raised runtime_error)

  -- The rest of `_step` once the coroutine has yielded `f`.
  pub wait_on : ℕ → ℕ → M V (Unit {0})
  unfolding run_on
  wait_on t f w =
      if f == t
      then (w, raised runtime_error)
      else if not ((w.futs f).loop == (w.futs t).loop)
      then (w, raised runtime_error)
      else (let (w', r) = add_callback f (step_of t) w in
          elim r [
            | raised e ↦ (w', raised e)
            | ok u ↦ run_on (waiting_callbacks (state w' t)) t f w'
          ])

  pub settle_step : ℕ → Option V → Option Exc → M V (Unit {0})
  unfolding detach
  settle_step t val exc w = let (w', r) = set_result t val exc w in (detach t w', r)

  pub after_send : CoroOut V → ℕ → M V (Unit {0})
  unfolding detach wait_on settle_step
  after_send (threw e) t w =
      if is_inner_error e
      then (detach t w, raised e)
      else if is_caught e
      then settle_step t none (some e) w
      else (detach t w, raised e)
  after_send (stopped v) t w = settle_step t (some v) none w
  after_send (yielded f) t w = wait_on t f (detach t w)
  after_send yielded_other t w = (detach t w, raised task_inner_error)

  is_steppable : FutState V → Bool
  is_steppable (scheduled cbs h) = true
  is_steppable (running cbs f) = true
  is_steppable (cancelling cbs h e) = true
  is_steppable _ = false

  -- `Task._step` of the task `t`, whose coroutine runs `code` when it is resumed.
  unfoldable pub step : ℕ → ℕ → Code V → M V (Unit {0})
  unfolding send_to_coroutine after_send is_steppable
  step n t code w =
      if is_steppable (state w t)
      then (let (w', out) = send_to_coroutine n t code w in after_send out t w')
      else (w, raised runtime_error)
