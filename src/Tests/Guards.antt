-- ===== src/Tests/Guards.antt =====
-- Shields, sleeps and guarded tasks at concrete inputs.
use aio.Prelude.{ℕ, ◌≡◌, refl, false, none, some, [], ◌∷◌, arith, ◌==◌, if◌then◌else◌, update}
use aio.Exceptions.{user, CancelClass, cancelled, no_arg, message, ok, raised}
use aio.World.{
  step_of, closure, no_args, Fut, FutState, pending, running, success, failed, coro_suspended,
  coro_closed, plain_future, task_future, World, add_to, has_callback,
}
use aio.Future.{create_promise, new_promise, is_finished, add_callback}
use aio.Future.Settle.{returns}
use aio.Task.{send, throw, cancel_future}
use aio.Shield.{shield_start, shield_done, shield_resume}
use aio.Shield.Mirror.{shield_done_cases}
use aio.Shield.Protect.{shield_protects}
use aio.Sleep.{sleep_resume}
use aio.Sleep.Ends.{IsOver, sleep_ends}
use aio.Guard.{waits, guard_exit}
use aio.Guard.Exit.{guard_exit_cancels}

abbrev promise_with : FutState ℕ → Fut ℕ
promise_with s = record { kind = plain_future; loop = 0; state = s; coro = coro_closed }

abbrev child_task : Fut ℕ
child_task = record {
  kind = task_future;
  loop = 0;
  state = running (closure 3 ∷ []) 0;
  coro = coro_suspended;
}

-- Task 1 waits for the promise 0 and has the callback of its guard; the future 2 has failed; the
-- promise 3 is that of a shield or a sleep, on which the task 5 waits; the others have returned.
abbrev family : World ℕ
family = record {
  futs = λ f.
      if f == 0
      then promise_with (pending (step_of 1 ∷ []))
      else if f == 1
      then child_task
      else if f == 2
      then promise_with (failed (user 4) false [])
      else if f == 3
      then promise_with (pending (step_of 5 ∷ []))
      else promise_with (success 8 []);
  next_fut = 6;
  handles = λ h. record {
    when = some 20;
    loop = 0;
    callback = closure 2;
    args = no_args;
    executed = false;
    is_cancelled = false;
  };
  next_handle = 1;
  current_task = none;
}

shield_done_cases_example : (shield_resume 4 6 3 send (shield_done 4 3 family).0).1 ≡ ok 8
shield_done_cases_example =
    ((shield_done_cases family 4 6 3 (returns 8) [] refl refl refl).0 (step_of 5 ∷ []) refl).1

-- A task 5 that waits for the promise 6, in a store that has both.
abbrev five_waits : World ℕ → World ℕ
five_waits w = record w {
  futs =
      update (update w.futs 6 (record (w.futs 6) { state = pending (step_of 5 ∷ []) })) 5
        (record { kind = task_future; loop = 0; state = running [] 6; coro = coro_suspended });
}

abbrev in_shield : World ℕ
in_shield = five_waits (shield_start 0 1 4 family).0

shield_protects_example :
    (shield_resume 1 4 6 send (cancel_future 2 5 (message "stop") in_shield).0).1
    ≡ raised (cancelled CancelClass.plain (some "stop"))
unfolding shield_start create_promise new_promise is_finished add_callback add_to has_callback
shield_protects_example =
    (shield_protects 0 0 1 4 6 5 (message "stop") family in_shield (closure 3 ∷ closure 4 ∷ []) []
      (step_of 5 ∷ []) (omega arith) refl refl refl refl refl refl refl).1

sleep_ends_example :
    let (w', r) = sleep_resume 3 0 (throw (user 1)) family in
    (r ≡ raised (user 1)) × IsOver 8 3 0 w'
sleep_ends_example =
    (sleep_ends 8 family 0 3 0 no_arg (user 1) (step_of 5 ∷ []) refl refl (omega arith)).2

guard_exit_cancels_example :
    (guard_exit 0 2 1 3 6 none (raised (user 9)) family).1 ≡ waits 6 (some (user 9))
guard_exit_cancels_example =
    (guard_exit_cancels 0 0 1 3 6 0 none (user 9) family (closure 3 ∷ []) (step_of 1 ∷ []) refl
      (omega arith) (omega arith) refl refl refl refl refl refl).0

abbrev at_exit : World ℕ
at_exit = five_waits (guard_exit 0 2 1 3 4 none (ok tt) family).0
