-- ===== src/Executor.antt =====
-- aio/components/executor.py: calls that run outside of the loop. The standard library's executor
-- is an argument, `submit`: it takes a job and gives the number of its future, or raises.
pub mod Deliver
use aio.Prelude.{ℕ, Bool, true, false, Option, none, some, List, [], ◌∷◌, if◌then◌else◌}
use aio.Exceptions.{Exc, is_cancel, no_arg, Result, ok, raised}
use aio.World.{closure, no_args, World, M, call_soon}
use aio.Future.{create_promise, promise_set_result, promise_set_exception, promise_cancel}
use aio.Task.{Resume}
use aio.Promises.{leave_promise, await_promise}
use aio.Sleep.{pass_finished}

-- A future of the standard library that is done.
pub data DoneFuture (V : Type 0) : Type 0 where
  was_cancelled : DoneFuture V
  has_exception : Exc → DoneFuture V
  has_result : V → DoneFuture V

-- `submit(fn, *args)`: a function of the program with its arguments, or `cancel` of a future.
pub data Job (V : Type 0) : Type 0 where
  runs : ℕ → List V → Job V
  cancels : ℕ → Job V

-- The call that a thread hands to the loop, on the promise that waits.
pub data Delivery (V : Type 0) : Type 0 where
  cancels_waiter : Delivery V
  sets_exception : Exc → Delivery V
  sets_result : V → Delivery V

-- The standard executor that `concurrent_executor_factory` uses: its own, or the one it is given.
pub data StdExecutor : Type 0 where
  thread_pool : StdExecutor
  given : ℕ → StdExecutor

module _ {V : Type 0} where
  -- `_ignore_feature_finished_error(fn, *args)`.
  unfoldable pub run_delivery : ℕ → Delivery V → M V (Unit {0})
  run_delivery p cancels_waiter w = let (w', r) = promise_cancel p no_arg w in (w', pass_finished r)
  run_delivery p (sets_exception e) w =
      let (w', r) = promise_set_exception p e w in (w', pass_finished r)
  run_delivery p (sets_result v) w = let (w', r) = promise_set_result p v w in (w', pass_finished r)

  -- `thread_fn` of `_stupid_execute_on_thread`, by how the function ends.
  pub thread_delivery : V → Result V → Delivery V
  thread_delivery none_value (raised e) = sets_exception e
  thread_delivery none_value (ok v) = sets_result none_value

  -- `on_result_from_executor`: what it hands to the loop. The bound method `cfuture.result` is a
  -- value of its own, `method`.
  delivery_of : V → DoneFuture V → Delivery V
  delivery_of method was_cancelled = cancels_waiter
  delivery_of method (has_exception e) = sets_exception e
  delivery_of method (has_result v) = sets_result method

  -- `call_soon_thread_safe` is `call_soon`: a new handle of the loop `l`.
  unfoldable pub on_result : ℕ → ℕ → V → DoneFuture V → World V → World V × Delivery V
  unfolding delivery_of
  on_result l k method cf w = (call_soon w l (closure k) no_args, delivery_of method cf)

  wait_for : ℕ → World V × Result ℕ → World V × Result (ℕ × ℕ)
  wait_for c (w, raised e) = (w, raised e)
  wait_for c (w, ok p) = (w, ok (c, p))

  -- `execute_sync_callable`, up to its `await`: the future of the executor and the promise. All of
  -- the arguments are passed on as one, the tuple of them.
  unfoldable pub execute_start :
      (Job V → Result ℕ) → (List V → V) → ℕ → ℕ → List V → World V → World V × Result (ℕ × ℕ)
  unfolding wait_for
  execute_start submit tuple l fn args w = elim (submit (runs fn (tuple args ∷ []))) [
    | raised e ↦ (w, raised e)
    | ok c ↦ wait_for c (create_promise l w)
  ]

  -- `except Cancelled`: the future is cancelled on the executor, and the exception goes on.
  pub cancel_on : (Job V → Result ℕ) → ℕ → Result V → Result V
  cancel_on submit c (ok v) = ok v
  cancel_on submit c (raised e) =
      if is_cancel e
      then (elim (submit (cancels c)) [ raised x ↦ raised x | ok n ↦ raised e ])
      else raised e

  -- `execute_sync_callable`, from its `await` on.
  unfoldable pub execute_resume : (Job V → Result ℕ) → ℕ → ℕ → Resume → M V V
  unfolding cancel_on
  execute_resume submit c p how w =
      let (w', r) = await_promise p how w in (leave_promise p w', cancel_on submit c r)

  -- `thread_fn` of `_stupid_execute_on_thread`: the promise and what is called on it. The thread is started before the
  -- variable `waiter` is bound; if the function ends before that, the `NameError` ends the thread.
  unfoldable pub thread_fn : V → Option ℕ → Result V → Option (ℕ × Delivery V)
  thread_fn none_value none r = none
  thread_fn none_value (some p) r = some (p, thread_delivery none_value r)

  -- `_stupid_execute_on_thread`, up to its `await` and from there on. `started` is the end of the thread's function if it
  -- comes before the promise is made.
  unfoldable pub thread_start :
      V → ℕ → Option (Result V) → World V → (World V × Result ℕ) × Option (ℕ × Delivery V)
  thread_start none_value l started w =
      (create_promise l w, elim started [ none ↦ none | some r ↦ thread_fn none_value none r ])

  unfoldable pub thread_resume : V → ℕ → Resume → M V V
  thread_resume none_value p how w =
      let (w', r) = await_promise p how w in
      (leave_promise p w', elim r [ raised e ↦ raised e | ok v ↦ ok none_value ])

  -- `_close_std_executor`: `shutdown` on a thread of its own; `ended` is how it ends.
  unfoldable pub close_std_executor :
      V → ℕ → Option (Result V) → World V → (World V × Result ℕ) × Option (ℕ × Delivery V)
  close_std_executor none_value l ended w = thread_start none_value l ended w

-- `concurrent_executor_factory`: an executor that it is given is used in place of a new one, and is
-- not shut down at the end.
unfoldable pub make_executor : Option ℕ → StdExecutor
make_executor none = thread_pool
make_executor (some x) = given x

unfoldable pub shuts_down : Option ℕ → Bool
shuts_down none = true
shuts_down (some x) = false
