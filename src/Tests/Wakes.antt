-- ===== src/Tests/Wakes.antt =====
-- A task that waits for a promise, from an empty store on.
use aio.Prelude.{ℕ, ◌<◌, ◌≡◌, refl, none, [], arith}
use aio.Exceptions.{ok}
use aio.World.{pending, coro_closed, plain_future, World}
use aio.Future.{create_promise, new_promise, add_callback}
use aio.Task.{
  create_task, schedule_first_step, Code, yielded, sets_result, creates_promise, creates_task,
}
use aio.Task.Step.{exec_op, exec_ops, step}
use aio.Task.Wake.{Live, Awake-finished}
use aio.Task.Step.Turns.{AllAwake, after_call}
use aio.Task.Step.Runs.{Runs, ends, turns, acts, Runs-AllAwake}
use aio.Tests.Tasks.{idle_handle}

abbrev pub empty_store : World ℕ
empty_store = record {
  futs = λ f. record { kind = plain_future; loop = 0; state = pending []; coro = coro_closed };
  next_fut = 0;
  handles = λ h. idle_handle;
  next_handle = 0;
  current_task = none;
}

pub empty_store-AllAwake : AllAwake empty_store
empty_store-AllAwake = record {
  tracked = record { tracked = λ f. tt };
  awake = λ u. Awake-finished empty_store u refl;
}

-- The promise 0 and the task 1.
abbrev made : World ℕ
made = exec_op 4 (creates_task 0) (exec_op 4 (creates_promise 0) empty_store)

abbrev pub awaits_promise : Code ℕ
awaits_promise how = record { ops = []; out = yielded 0 }

made-Live : Live made 1 0
unfolding exec_op create_task schedule_first_step create_promise new_promise
made-Live = record { known = omega arith; steps = refl; unused = refl; kept = refl }

made_steps : (step 4 1 awaits_promise made).1 ≡ ok tt
unfolding step exec_op create_task schedule_first_step create_promise new_promise exec_ops
    add_callback
made_steps = refl

made_known : 0 < (step 4 1 awaits_promise made).0.next_fut
unfolding step exec_op create_task schedule_first_step create_promise new_promise exec_ops
    add_callback
made_known = omega arith

-- The task waits, and the promise is set.
abbrev woken : World ℕ
woken = exec_op 4 (sets_result 0 5) (after_call (step 4 1 awaits_promise made).0 0)

waits_once : Runs empty_store woken
unfolding exec_op create_task schedule_first_step create_promise new_promise
waits_once = acts 4 (creates_promise 0) (
    acts 4 (creates_task 0)
      (turns 4 1 0 awaits_promise made-Live made_steps made_known (acts 4 (sets_result 0 5) ends)))

Runs-AllAwake_example : AllAwake woken
Runs-AllAwake_example = Runs-AllAwake waits_once empty_store-AllAwake
