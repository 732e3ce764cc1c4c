-- ===== src/Tests/Services.antt =====
-- The executor, the policy, the entry, gather and the waits of sockets at concrete inputs.
use aio.Prelude.{
  ℕ, ◌≡◌, refl, ap, true, false, none, some, Option, [], ◌∷◌, arith, ◌==◌, if◌then◌else◌,
}
use aio.Exceptions.{
  user, os_error, type_error, Result, ok, raised, runtime_error, future_finished_error,
}
use aio.World.{
  step_of, closure, no_args, Fut, FutState, pending, running, success, coro_suspended, coro_closed,
  plain_future, task_future, World,
}
use aio.Future.{is_finished}
use aio.Future.Settle.{raises, settled}
use aio.Task.{throw}
use aio.Task.Cancel.{here, next}
use aio.Executor.{Job}
use aio.Policy.{new_policy, loop_enter}
use aio.Policy.Share.{loop_enter_cases}
use aio.Entry.{on_keyboard_interrupt}
use aio.Entry.Interrupt.{keyboard, interrupt_cases}
use aio.Gather.{add_all, iter_enter}
use aio.Gather.Enter.{iter_enter_cases}
use aio.Selector.{Mask, Selector, get_key, add_watch}
use aio.Networking.Events.{Net, wait_resume}
use aio.Networking.Events.Watch.{wait_ends}

abbrev promise_with : FutState (Option ℕ) → Fut (Option ℕ)
promise_with s = record { kind = plain_future; loop = 0; state = s; coro = coro_closed }

-- The promise 0 is pending, the main task 1 waits for it, and the others are finished.
abbrev store : World (Option ℕ)
store = record {
  futs = λ f.
      if f == 0
      then promise_with (pending (step_of 1 ∷ []))
      else if f == 1
      then record { kind = task_future; loop = 0; state = running [] 0; coro = coro_suspended }
      else promise_with (success none []);
  next_fut = 3;
  handles = λ h. record {
    when = none;
    loop = 0;
    callback = closure 0;
    args = no_args;
    executed = false;
    is_cancelled = false;
  };
  next_handle = 0;
  current_task = none;
}

abbrev pool : Job (Option ℕ) → Result ℕ
pool job = ok 0

loop_enter_cases_example :
    (loop_enter (ok 1) (ok 2) (loop_enter (ok 4) (raised type_error) new_policy).0).1
    ≡ raised runtime_error
loop_enter_cases_example =
    ap (λ x. x.1) ((loop_enter_cases new_policy 4 5 type_error (ok 1) (ok 2)).2 refl).1

interrupt_cases_example :
    on_keyboard_interrupt 3 1 store ≡ (settled store 0 (raises keyboard) (step_of 1 ∷ []), ok tt)
unfolding is_finished
interrupt_cases_example =
    (interrupt_cases 1 3 1 0 (step_of 1 ∷ []) store).1 refl
      (next [] 0 refl refl refl refl (here refl)) (omega arith) refl refl

iter_enter_cases_example :
    iter_enter type_error 5 (0 ∷ 2 ∷ []) store
    ≡ ((add_all 5 (0 ∷ []) store).0, raised future_finished_error)
unfolding is_finished
iter_enter_cases_example = (iter_enter_cases type_error 5 2 [] (0 ∷ []) [] store).1 (refl, tt) refl

abbrev reads : Mask
reads = record { read = true; write = false }

abbrev no_keys : Selector
no_keys = record { keys = []; is_finalized = false }

wait_ends_example :
    let n : Net (Option ℕ) = record { world = store; selector = (add_watch 9 reads 4 no_keys).0 } in
    let (n', r) = wait_resume 9 reads 4 0 (throw (user 2)) n in
    (r ≡ raised (user 2)) × (n'.selector ≡ no_keys)
unfolding get_key
wait_ends_example =
    (wait_ends none 9 4 0 reads (some os_error) (user 2) store no_keys (step_of 1 ∷ []) refl refl
      refl refl refl refl).1
