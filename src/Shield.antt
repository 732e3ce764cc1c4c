-- ===== src/Shield.antt =====
-- aio/funcs.py: `shield`. `k` is the number of its function `future_done_cb`.
pub mod Mirror
pub mod Protect
use aio.Prelude.{ℕ, Option, none, some, if◌then◌else◌}
use aio.Exceptions.{
  Exc, cancelled, is_cancel, CancelArg, no_arg, instance_of, Result, ok, raised, assertion_error,
}
use aio.World.{closure, World, M}
use aio.Future.{
  is_finished, result, exception, add_callback, remove_callback, create_promise, promise_set_result,
  promise_set_exception, promise_cancel,
}
use aio.Task.{Resume}
use aio.Promises.{Started, at_once, waiting, leave_promise, await_promise}

-- The exception as the argument of `cancel`.
abbrev pub cancel_arg_of : Exc → CancelArg
cancel_arg_of (cancelled c m) = instance_of c m
cancel_arg_of _ = no_arg

module _ {V : Type 0} where
  deliver_value : ℕ → World V × Result V → World V × Result (Unit {0})
  deliver_value p (w, ok v) = promise_set_result p v w
  deliver_value p (w, raised e) = (w, raised e)

  -- The `match` on the exception of the future.
  deliver : ℕ → ℕ → World V × Result (Option Exc) → World V × Result (Unit {0})
  unfolding deliver_value
  deliver f p (w, raised e) = (w, raised e)
  deliver f p (w, ok none) = deliver_value p (result f w)
  deliver f p (w, ok (some e)) =
      if is_cancel e then promise_cancel p (cancel_arg_of e) w else promise_set_exception p e w

  -- `future_done_cb`, with the future `f` and the promise `p` of its closure.
  unfoldable pub shield_done : ℕ → ℕ → M V (Unit {0})
  unfolding deliver
  shield_done f p w =
      if is_finished w f then deliver f p (exception f w) else (w, raised assertion_error)

  pub start_value : World V × Result V → World V × Result (Started V)
  start_value (w, ok v) = (w, ok (at_once v))
  start_value (w, raised e) = (w, raised e)

  pub watch : ℕ → ℕ → World V × Result ℕ → World V × Result (Started V)
  watch f k (w, raised e) = (w, raised e)
  watch f k (w, ok p) = elim (add_callback f (closure k) w).1 [
    | ok u ↦ ((add_callback f (closure k) w).0, ok (waiting p))
    | raised e ↦ (leave_promise p w, raised e)
  ]

  -- `shield`, up to its `await`, on the loop `l`.
  unfoldable pub shield_start : ℕ → ℕ → ℕ → World V → World V × Result (Started V)
  unfolding start_value watch
  shield_start l f k w =
      if is_finished w f then start_value (result f w) else watch f k (create_promise l w)

  -- `shield`, from its `await` on: the `finally`, and the end of the `async with`.
  unfoldable pub shield_resume : ℕ → ℕ → ℕ → Resume → M V V
  shield_resume f k p how w =
      let (w', r) = await_promise p how w in (leave_promise p (remove_callback f (closure k) w'), r)
