-- ===== src/Tests/Tasks.antt =====
-- Tasks at concrete inputs.
use aio.Prelude.{ℕ, ◌≡◌, refl, true, false, none, some, [], ◌∷◌, arith, ◌==◌, if◌then◌else◌}
use aio.Exceptions.{ok, raised, runtime_error, recursion_error, no_arg, coerce_cancel_arg}
use aio.World.{
  step_of, no_args, Fut, Handle, pending, scheduled, running, coro_created, coro_suspended,
  coro_closed, coro_running, plain_future, task_future, World,
}
use aio.Future.{is_finished, result, exception}
use aio.Future.Settle.{returns, raises, settled}
use aio.Task.{Code, stopped, yielded, cancels, creates_promise, sets_result, cancel_future}
use aio.Task.Step.{step, exec_ops}
use aio.Task.Protect.{Same, exec_ops-Same}
use aio.Task.Cancel.{WaitsThrough, here, next, cancel_reaches, cancel_too_deep, cancel_before_start}
use aio.Task.Step.Raises.{may_leave_step, step_raises_only}
use aio.Task.Step.Run.{IsReady, step_ends}

abbrev pub idle_handle : Handle
idle_handle = record {
  when = none;
  loop = 0;
  callback = step_of 2;
  args = no_args;
  executed = false;
  is_cancelled = false;
}

abbrev waiting_promise : Fut ℕ
waiting_promise = record {
  kind = plain_future;
  loop = 0;
  state = pending (step_of 1 ∷ []);
  coro = coro_closed;
}

abbrev task_on : ℕ → Fut ℕ
task_on f = record { kind = task_future; loop = 0; state = running [] f; coro = coro_suspended }

abbrev new_task : Fut ℕ
new_task = record { kind = task_future; loop = 0; state = scheduled [] 0; coro = coro_created }

-- Task 1 waits for the promise 0, task 2 for task 1; task 3 is scheduled.
abbrev three_tasks : World ℕ
three_tasks = record {
  futs = λ f.
      if f == 0
      then waiting_promise
      else if f == 1
      then task_on 0
      else if f == 2
      then task_on 1
      else new_task;
  next_fut = 4;
  handles = λ h. idle_handle;
  next_handle = 1;
  current_task = none;
}

-- Code that tries to cancel its own task, sets the promise, and returns.
abbrev busy : Code ℕ
busy how = record { ops = cancels 3 no_arg ∷ sets_result 0 5 ∷ []; out = stopped 9 }

new_task-IsReady : IsReady three_tasks 3
new_task-IsReady = record { is_task = refl; known = omega arith; ready = refl }

step_ends_example : (result 3 (step 5 3 busy three_tasks).0).1 ≡ ok 9
step_ends_example = (step_ends 5 3 busy three_tasks (returns 9) new_task-IsReady refl).2

abbrev running_task : World ℕ
running_task = record three_tasks { futs = λ f. record new_task { coro = coro_running } }

exec_ops-Same_example :
    Same running_task (exec_ops 5 (cancels 3 no_arg ∷ creates_promise 0 ∷ []) running_task) 3
exec_ops-Same_example =
    exec_ops-Same 5 (cancels 3 no_arg ∷ creates_promise 0 ∷ []) running_task 3
      (record { is_task = refl; is_running = refl; in_task_state = refl; known = omega arith })

two_to_promise : WaitsThrough three_tasks 0 2 2
unfolding is_finished
two_to_promise = next [] 1 refl refl refl refl (next [] 0 refl refl refl refl (here refl))

cancel_reaches_example :
    cancel_future 3 2 no_arg three_tasks
    ≡ (settled three_tasks 0 (raises (coerce_cancel_arg no_arg)) (step_of 1 ∷ []), ok tt)
cancel_reaches_example =
    cancel_reaches 2 3 2 0 (step_of 1 ∷ []) no_arg three_tasks two_to_promise (omega arith) refl
      refl

cancel_too_deep_example :
    cancel_future 2 2 no_arg three_tasks ≡ (three_tasks, raised recursion_error)
cancel_too_deep_example = cancel_too_deep 2 2 2 0 no_arg three_tasks two_to_promise (omega arith)

cancel_before_start_example :
    (exception 3 (step 5 3 busy (cancel_future 1 3 no_arg three_tasks).0).0).1
    ≡ ok (some (coerce_cancel_arg no_arg))
cancel_before_start_example =
    (cancel_before_start 5 0 3 0 [] no_arg busy three_tasks new_task-IsReady refl (omega arith)
      refl).5

-- A coroutine that yields its own task.
abbrev waits_on_itself : Code ℕ
waits_on_itself how = record { ops = []; out = yielded 3 }

itself_refused : (step 5 3 waits_on_itself three_tasks).1 ≡ raised runtime_error
unfolding step exec_ops
itself_refused = refl

step_raises_only_example :
    (may_leave_step runtime_error ≡ true)
    × (is_finished (step 5 3 waits_on_itself three_tasks).0 3 ≡ false)
step_raises_only_example =
    (step_raises_only 5 3 waits_on_itself three_tasks new_task-IsReady).0 runtime_error
      itself_refused
