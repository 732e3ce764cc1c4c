-- ===== src/Promises.antt =====
-- aio/future/_factories.py: `create_promise` as a context manager, and the wait for its promise. An
-- `async` function that waits once is two functions, one up to its `await` and one from there on.
use aio.Prelude.{ℕ, if◌then◌else◌}
use aio.Exceptions.{no_arg, Result, raised}
use aio.World.{World}
use aio.Future.{is_finished, await_resume, promise_cancel}
use aio.Task.{Resume, send, throw}

-- What an `async` function does first: it ends at once, or it waits for a promise.
pub data Started (A : Type 0) : Type 0 where
  at_once : A → Started A
  waiting : ℕ → Started A

module _ {V : Type 0} where
  -- The end of `async with create_promise(...)`.
  unfoldable pub leave_promise : ℕ → World V → World V
  leave_promise p w = if is_finished w p then w else (promise_cancel p no_arg w).0

  -- How an `await` of the promise `p` ends: by its result, or by an exception thrown in.
  unfoldable pub await_promise : ℕ → Resume → World V → World V × Result V
  await_promise p send w = await_resume p w
  await_promise p (throw e) w = (w, raised e)
