-- ===== src/Channel/Waiters.antt =====
-- aio/channel.py: those who wait at a channel: how a getter is served, what `close` does, and what
-- a waiter that was finished from elsewhere does to the others.
use aio.Prelude.{ℕ, ◌≡◌, refl, ap, ◌∙◌, true, false, Option, some, List, ◌∷◌, arith}
use aio.Exceptions.{Result, ok, raised, future_finished_error}
use aio.World.{World, pending, plain_future, Callback}
use aio.Future.{promise_set_result, state, is_finished, await_resume, handles_from}
use aio.Future.Settle.{returns, settled, set_result-pending, finished_once, result-finished_by}
use aio.Task.{send}
use aio.Promises.{at_once}
use aio.Channel.{Chan, put_to, put_no_wait}
use aio.Promises.{await_promise}
use aio.Channel.Async.{put_after, put_start, get_resume}
use aio.Channel.Invariant.{Inv}
use aio.Channel.Fifo.{contents}

module _ {T : Type 0} where
  -- With a getter waiting the container is empty, so a capacity that is not 0 leaves room.
  put_no_wait-waiter :
      (e : T) (c : Chan T) (p : ℕ) (ps : List ℕ)
      → Inv c.queue
      → c.queue.closed ≡ false
      → c.queue.read_waiters ≡ p ∷ ps
      → put_no_wait e c ≡ (
        record {
          world = (promise_set_result p (some e) c.world).0;
          queue = record (c.queue) { read_waiters = ps };
        },
        (promise_set_result p (some e) c.world).1,
      )
  unfolding put_no_wait put_to
  put_no_wait-waiter e c p ps i open_ h = ground (arith, i.bounded, i.readers)

  put_start-ok :
      (l : ℕ) (e : T) (c : Chan T) (d : Chan T)
      → put_no_wait e c ≡ (d, ok tt)
      → put_start l e c ≡ (d, ok (at_once tt))
  unfolding put_start put_after
  put_start-ok l e c d h = rw (h, put_start)

  put_start-raised :
      (l : ℕ) (e : T) (c : Chan T) (d : Chan T)
      → put_no_wait e c ≡ (d, raised future_finished_error)
      → put_start l e c ≡ (d, raised future_finished_error)
  unfolding put_start put_after
  put_start-raised l e c d h = rw (h, put_start)

  -- The channel and the result after a promise was given the element.
  abbrev served :
      Chan T → List ℕ → World (Option T) × Result (Unit {0}) → Chan T × Result (Unit {0})
  served c ps m = (record { world = m.0; queue = record (c.queue) { read_waiters = ps } }, m.1)

  -- A getter that waits first in the line is handed the element of the next `put`: the `put`
  -- returns at once, the channel holds what it held, the getter leaves the line, and its `get`
  -- returns the element.
  pub put_serves_getter :
      (l : ℕ) (e : T) (c : Chan T) (p : ℕ) (ps : List ℕ) (cbs : List Callback)
      → Inv c.queue
      → c.queue.closed ≡ false
      → c.queue.read_waiters ≡ p ∷ ps
      → (c.world.futs p).kind ≡ plain_future
      → state c.world p ≡ pending cbs
      → let (c', r) = put_start l e c in
        (r ≡ ok (at_once tt))
        × (contents c'.queue ≡ contents c.queue)
        × (c'.queue.read_waiters ≡ ps)
        × ((get_resume p send c').1 ≡ ok (some e))
  unfolding get_resume await_promise await_resume promise_set_result
  put_serves_getter l e c p ps cbs i open_ h k s =
      let done = set_result-pending c.world p (returns (some e)) cbs k s in
      let w' = settled c.world p (returns (some e)) cbs in
      let eq = put_no_wait-waiter e c p ps i open_ h ∙ ap (served c ps) done in
      rw
        (put_start-ok l e c (record { world = w'; queue = record (c.queue) { read_waiters = ps } })
          eq)
        (
          refl,
          refl,
          refl,
          ground (
            arith,
            result-finished_by w' p (returns (some e)) (handles_from c.world.next_handle cbs),
          ),
        )

  -- A getter whose promise was finished from elsewhere, as a cancellation of its task does, stays
  -- in the line until its task has run. If it is first there, a `put` takes it off and raises
  -- `FutureFinishedError`, and its element is in the channel no more than before.
  pub put_finished_getter :
      (l : ℕ) (e : T) (c : Chan T) (p : ℕ) (ps : List ℕ)
      → Inv c.queue
      → c.queue.closed ≡ false
      → c.queue.read_waiters ≡ p ∷ ps
      → is_finished c.world p ≡ true
      → put_start l e c ≡ (
        record c { queue = record (c.queue) { read_waiters = ps } },
        raised future_finished_error,
      )
  unfolding promise_set_result
  put_finished_getter l e c p ps i open_ h d = put_start-raised l e c _ (
      put_no_wait-waiter e c p ps i open_ h
      ∙ ap (served c ps) (finished_once c.world p (returns (some e)) d))
