-- ===== src/Sleep.antt =====
-- aio/funcs.py: `sleep`. Times are clock ticks; `none_value` is `None` and `k` the number of the
-- function `on_timeout`.
pub mod Ends
use aio.Prelude.{ℕ, suc, ◌+◌, false, Option, none, some, ◌==◌, if◌then◌else◌, update}
use aio.Exceptions.{Result, ok, raised, future_finished_error}
use aio.World.{closure, no_args, World, M, cancel_handle}
use aio.Future.{create_promise, promise_set_result}
use aio.Task.{Resume}
use aio.Promises.{leave_promise, await_promise}

-- `_ignore_feature_finished_error` of aio/components/executor.py too: `except FutureFinishedError:
-- pass`.
abbrev pub pass_finished : Result (Unit {0}) → Result (Unit {0})
pass_finished (raised future_finished_error) = ok tt
pass_finished r = r

module _ {V : Type 0} where
  -- The handle that `call_soon` or `call_later` makes.
  unfoldable pub timer : Option ℕ → ℕ → ℕ → World V → World V
  timer when l k w = record w {
    handles = update w.handles w.next_handle (record {
      when = when;
      loop = l;
      callback = closure k;
      args = no_args;
      executed = false;
      is_cancelled = false;
    });
    next_handle = suc w.next_handle;
  }

  set_timer : ℕ → ℕ → ℕ → ℕ → World V × Result ℕ → World V × Result (ℕ × ℕ)
  unfolding timer
  set_timer l now sec k (w, raised e) = (w, raised e)
  set_timer l now sec k (w, ok p) =
      (timer (if sec == 0 then none else some (now + sec)) l k w, ok (p, w.next_handle))

  -- `sleep`, up to its `await`, on the loop `l` at the time `now`: the promise and the handle.
  unfoldable pub sleep_start : ℕ → ℕ → ℕ → ℕ → World V → World V × Result (ℕ × ℕ)
  unfolding set_timer
  sleep_start l now sec k w = set_timer l now sec k (create_promise l w)

  -- `on_timeout`.
  unfoldable pub on_timeout : V → ℕ → M V (Unit {0})
  on_timeout none_value p w =
      let (w', r) = promise_set_result p none_value w in (w', pass_finished r)

  -- `sleep`, from its `await` on: the `finally`, and the end of the `async with`.
  unfoldable pub sleep_resume : ℕ → ℕ → Resume → M V V
  sleep_resume p h how w =
      let (w', r) = await_promise p how w in (leave_promise p (cancel_handle w' h), r)

-- `guard_async_gen`: how it ends, by how `aclose` and the body end. An exception of `aclose` takes the place of the other.
unfoldable pub guard_agen_exit : {A : Type 0} → Result (Unit {0}) → Result A → Result A
guard_agen_exit (raised e) body = raised e
guard_agen_exit (ok u) body = body
