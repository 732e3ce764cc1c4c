-- ===== src/Channel/Async.antt =====
-- aio/channel.py: the `async` methods of `_Queue`, its iterator, `close`, and `create`.
use aio.Prelude.{ℕ, true, Option, none, some, List, [], ◌∷◌, ◌++◌, if◌then◌else◌}
use aio.Exceptions.{
  Result, ok, raised, channel_closed, channel_empty, channel_overflowed, stop_async_iteration,
  assertion_error,
}
use aio.World.{World}
use aio.Future.{is_finished, create_promise, promise_set_exception}
use aio.Task.{Resume}
use aio.Promises.{Started, at_once, waiting, await_promise, leave_promise}
use aio.Channel.{Queue, Chan, new_queue, remove_waiter, remove_writer, get_no_wait, put_no_wait}

abbrev pub stop_if_closed {ℓ} : {A : Type ℓ} → Result A → Result A
stop_if_closed (raised channel_closed) = raised stop_async_iteration
stop_if_closed r = r

module _ {T : Type 0} where
  -- A new promise, put where `q` says, and the wait for it.
  unfoldable pub wait_with :
      {A : Type 0}
      → World (Option T) × Result ℕ
      → (ℕ → Queue T)
      → Chan T
      → Chan T × Result (Started A)
  wait_with (w, ok p) q c = (record { world = w; queue = q p }, ok (waiting p))
  wait_with (w, raised e) q c = (record c { world = w }, raised e)

  unfoldable pub get_after : Chan T × Result T → ℕ → Chan T × Result (Started T)
  unfolding wait_with
  get_after (c, ok e) l = (c, ok (at_once e))
  get_after (c, raised channel_empty) l =
      wait_with (create_promise l c.world)
        (λ p. record (c.queue) { read_waiters = c.queue.read_waiters ++ p ∷ [] }) c
  get_after (c, raised e) l = (c, raised e)

  -- `get`, up to its `await`, on the loop `l`.
  unfoldable pub get_start : ℕ → Chan T → Chan T × Result (Started T)
  unfolding get_after
  get_start l c = get_after (get_no_wait c) l

  -- `get`, from its `await` on: the `finally`, and the end of the `async with`.
  unfoldable pub get_resume : ℕ → Resume → Chan T → Chan T × Result (Option T)
  get_resume p how c =
      let (w, r) = await_promise p how c.world in
      (
        record {
          world = leave_promise p w;
          queue = record (c.queue) { read_waiters = remove_waiter p c.queue.read_waiters };
        },
        r,
      )

  unfoldable pub put_bounded : Option ℕ → T → ℕ → Chan T → Chan T × Result (Started (Unit {0}))
  unfolding wait_with
  put_bounded none e l c = (c, raised assertion_error)
  put_bounded (some m) e l c =
      wait_with (create_promise l c.world)
        (λ p. record (c.queue) { write_waiters = c.queue.write_waiters ++ (e, p) ∷ [] }) c

  unfoldable pub put_after :
      Chan T × Result (Unit {0}) → T → ℕ → Chan T × Result (Started (Unit {0}))
  unfolding put_bounded
  put_after (c, ok u) e l = (c, ok (at_once tt))
  put_after (c, raised channel_overflowed) e l = put_bounded c.queue.max_capacity e l c
  put_after (c, raised x) e l = (c, raised x)

  -- `put`, up to its `await`.
  unfoldable pub put_start : ℕ → T → Chan T → Chan T × Result (Started (Unit {0}))
  unfolding put_after
  put_start l e c = put_after (put_no_wait e c) e l

  forget_value : Result (Option T) → Result (Unit {0})
  forget_value (ok v) = ok tt
  forget_value (raised e) = raised e

  -- `put`, from its `await` on.
  unfoldable pub put_resume : ℕ → Resume → Chan T → Chan T × Result (Unit {0})
  unfolding forget_value
  put_resume p how c =
      let (w, r) = await_promise p how c.world in
      (
        record {
          world = leave_promise p w;
          queue = record (c.queue) { write_waiters = remove_writer p c.queue.write_waiters };
        },
        forget_value r,
      )

  -- A loop of `close`: a waiter that is finished already is passed over.
  unfoldable pub close_all : List ℕ → World (Option T) → World (Option T)
  close_all [] w = w
  close_all (p ∷ ps) w =
      close_all ps (if is_finished w p then w else (promise_set_exception p channel_closed w).0)

  abbrev pub promises_of : List (T × ℕ) → List ℕ
  promises_of [] = []
  promises_of ((x, p) ∷ ws) = p ∷ promises_of ws

  -- `close`: the putters that wait first, then the getters.
  unfoldable pub close : Chan T → Chan T
  unfolding close_all
  close c = record {
    world = close_all c.queue.read_waiters (close_all (promises_of c.queue.write_waiters) c.world);
    queue = record (c.queue) { closed = true };
  }

  -- `_QueueAsyncIterator.__anext__`.
  unfoldable pub anext_start : ℕ → Chan T → Chan T × Result (Started T)
  anext_start l c = let (c', r) = get_start l c in (c', stop_if_closed r)

  unfoldable pub anext_resume : ℕ → Resume → Chan T → Chan T × Result (Option T)
  anext_resume p how c = let (c', r) = get_resume p how c in (c', stop_if_closed r)

  -- `create`, as a context manager: a new queue, and `close` when it is left, however the body ended.
  unfoldable pub create_enter : List T → Option ℕ → World (Option T) → Chan T
  create_enter prepopulate max_capacity w = record {
    world = w;
    queue = new_queue prepopulate max_capacity;
  }

  unfoldable pub create_exit : {A : Type 0} → Result A → Chan T → Chan T × Result A
  create_exit r c = (close c, r)
