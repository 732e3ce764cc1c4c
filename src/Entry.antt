-- ===== src/Entry.antt =====
-- aio/loop/entry.py: `run`. The loop runs between `start` and the end; `root` is the number of the
-- main task, and `k` that of the function `receive_result`.
pub mod Interrupt
use aio.Prelude.{ℕ, Bool, true, Option, none, some, if◌then◌else◌}
use aio.Exceptions.{
  CancelClass, cancelled, instance_of, Result, ok, raised, self_cancel_forbidden, assertion_error,
  attribute_error,
}
use aio.World.{closure, coro_created, World, M}
use aio.Future.{is_finished, result, add_callback}
use aio.Task.{cancel_future, create_task}

-- `received_fut`, and whether `stop_loop` was called.
pub record Received : Type 0 where
  pub future : Option ℕ
  pub is_stopped : Bool

-- `receive_result`.
unfoldable pub receive_result : ℕ → Received → Received
receive_result f s = record { future = some f; is_stopped = true }

-- `except SelfCancelForbidden`.
keyboard_error : Result (Unit {0}) → Result (Unit {0})
keyboard_error (raised self_cancel_forbidden) = raised (cancelled CancelClass.keyboard none)
keyboard_error r = r

module _ {V : Type 0} where
  watch_root : ℕ → World V × Result ℕ → World V × Result ℕ
  watch_root k (w, raised e) = (w, raised e)
  watch_root k (w, ok root) = elim (add_callback root (closure k) w).1 [
    | raised e ↦ ((add_callback root (closure k) w).0, raised e)
    | ok u ↦ ((add_callback root (closure k) w).0, ok root)
  ]

  -- The main task, and the callback on it.
  unfoldable pub run_start : ℕ → ℕ → M V ℕ
  unfolding watch_root
  run_start l k w = watch_root k (create_task l coro_created w)

  -- `on_keyboard_interrupt`; `n` is how deep the calls of `cancel_future` can nest.
  unfoldable pub on_keyboard_interrupt : ℕ → ℕ → M V (Unit {0})
  unfolding keyboard_error
  on_keyboard_interrupt n root w =
      if is_finished w root
      then (w, ok tt)
      else (let (w', r) = cancel_future n root (instance_of CancelClass.keyboard none) w in
          (w', keyboard_error r))

  received_result : Option ℕ → M V V
  received_result none w = (w, raised attribute_error)
  received_result (some f) w = result f w

  -- The end of `run`, when the loop has stopped.
  unfoldable pub run_end : ℕ → Received → M V V
  unfolding received_result
  run_end root s w =
      if is_finished w root then received_result s.future w else (w, raised assertion_error)
