-- ===== src/Tests/Runtimes.antt =====
-- A task that waits for a promise, on a loop.
use aio.Prelude.{ℕ, ◌≡◌, refl, ◌⊎◌, ◌+◌, true, false, [], ◌∷◌, arith}
use aio.World.{is_task_state, add_to}
use aio.Future.{
  state, create_promise, new_promise, add_callback, promise_set_result, set_result, base_set_result,
  call_all,
}
use aio.Scheduler.{enqueue, pop_pending, pop_below_priority, pop_low}
use aio.Scheduler.Sorted.{sorted_heapq}
use aio.Scheduler.Times.{times}
use aio.Task.{create_task, schedule_first_step, sets_result, creates_promise, creates_task}
use aio.Task.Step.{exec_op, exec_ops, step}
use aio.Task.Wake.{Live}
use aio.Runtime.{
  Runtime, enqueue_new, become, take, call_back, pass, invoke_next, GoesWell, Runs, acts, takes,
  calls, ends, then_runs,
}
use aio.Runtime.Run.{RuntimeInv, WaitsFor, run_steps, run-RuntimeInv}
use aio.Runtime.Turn.{run_turn_steps}
use aio.Tests.Wakes.{empty_store, empty_store-AllAwake, awaits_promise}

abbrev empty_runtime : Runtime ℕ
empty_runtime = record {
  world = empty_store;
  queues = λ l. record { next_id = 0; min_priority = []; prioritized = [] };
  batches = λ l. [];
}

empty_runtime-RuntimeInv : RuntimeInv empty_runtime
empty_runtime-RuntimeInv = record {
  awake = empty_store-AllAwake;
  places = record {
    heaps = λ l. record { ordered = λ k j a b e p q. absurd (cc) };
    once = λ l h. omega arith;
    placed = λ h b u c. absurd (omega arith);
    steps_soon = λ h t b e. absurd (omega arith);
  };
}

-- The promise 0 and the task 1, whose first step is enqueued.
abbrev with_task : Runtime ℕ
with_task =
    let made = become (sorted_heapq ℕ) (exec_op 4 (creates_promise 0) empty_store) empty_runtime in
    become (sorted_heapq ℕ) (exec_op 4 (creates_task 0) made.world) made

with_task-Runs : Runs (sorted_heapq ℕ) empty_runtime with_task
with_task-Runs = then_runs (acts 4 (creates_promise 0)) (then_runs (acts 4 (creates_task 0)) ends)

-- A turn of the loop takes the step.
abbrev taken : Runtime ℕ
taken = take (sorted_heapq ℕ) 0 10 with_task

taken_batch : taken.batches 0 ≡ 0 ∷ []
unfolding take pop_pending pop_below_priority become enqueue_new exec_op create_task
    schedule_first_step create_promise new_promise enqueue pop_low
taken_batch = refl

taken-GoesWell :
    (taken.world.handles 0).is_cancelled ≡ false
    → GoesWell 4 awaits_promise (taken.world.handles 0).callback taken.world
unfolding take pop_pending pop_below_priority become enqueue_new exec_op create_task
    schedule_first_step create_promise new_promise enqueue step exec_ops add_callback
taken-GoesWell c = (refl, omega arith)

-- The task has waited, and the promise is set.
abbrev stepped : Runtime ℕ
stepped = (invoke_next (sorted_heapq ℕ) 4 awaits_promise [] 0 taken).0

abbrev promise_set : Runtime ℕ
promise_set = become (sorted_heapq ℕ) (exec_op 4 (sets_result 0 5) stepped.world) stepped

turn-Runs : Runs (sorted_heapq ℕ) taken promise_set
turn-Runs =
    then_runs (calls 4 awaits_promise [] 0 0 [] taken_batch taken-GoesWell)
      (then_runs (acts 4 (sets_result 0 5)) ends)

still_a_task : is_task_state (state promise_set.world 1) ≡ true
unfolding take pop_pending pop_below_priority become enqueue_new exec_op create_task
    schedule_first_step create_promise new_promise enqueue step exec_ops add_callback invoke_next
    call_back pass promise_set_result set_result base_set_result call_all add_to
still_a_task = refl

none_taken : with_task.batches 0 ≡ []
unfolding become
none_taken = refl

run_steps_example :
    WaitsFor promise_set.world 1
    ⊎ ((h : ℕ) × Live promise_set.world 1 h
        × (let l = (promise_set.world.handles h).loop in
            times h (promise_set.batches l) + times h (promise_set.queues l).min_priority ≡ 1))
run_steps_example =
    run_steps (sorted_heapq ℕ)
      (then_runs (acts 4 (creates_promise 0))
        (then_runs (acts 4 (creates_task 0)) (then_runs (takes 0 10 none_taken) turn-Runs)))
      empty_runtime-RuntimeInv 1 still_a_task

was_a_task : is_task_state (state with_task.world 1) ≡ true
unfolding become exec_op create_task schedule_first_step create_promise new_promise
was_a_task = refl

all_passed : promise_set.batches 0 ≡ []
unfolding take pop_pending pop_below_priority become enqueue_new exec_op create_task
    schedule_first_step create_promise new_promise enqueue step exec_ops add_callback invoke_next
    call_back pass pop_low
all_passed = refl

run_turn_steps_example :
    WaitsFor with_task.world 1
    ⊎ ((h : ℕ) × Live with_task.world 1 h
        × ((with_task.world.handles h).loop ≡ 0
            → (times h (taken.batches 0) ≡ 1)
              × (((promise_set.world.handles h).executed ≡ true)
                  ⊎ ((promise_set.world.handles h).is_cancelled ≡ true))))
run_turn_steps_example =
    run_turn_steps (sorted_heapq ℕ) 0 10
      (run-RuntimeInv (sorted_heapq ℕ) with_task-Runs empty_runtime-RuntimeInv) none_taken turn-Runs
      all_passed 1 was_a_task
