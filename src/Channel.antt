-- ===== src/Channel.antt =====
-- aio/channel.py: `_Queue`. A method that is `async` is two functions, one up to its `await` and
-- one from there on; the promises are those of the store of futures. A promise of a getter holds
-- the element, one of a putter holds `None`: the values of the store are `Option T`.
pub mod Async
pub mod Errors
pub mod Invariant
pub mod Fifo
pub mod Waiters
pub mod Close
pub mod Spec
pub mod Refine
use aio.Prelude.{
  ℕ, suc, Bool, true, false, not, Option, none, some, List, [], ◌∷◌, ◌++◌, map, if◌then◌else◌, ◌==◌,
  leb, length,
}
use aio.Exceptions.{
  Exc, no_arg, Result, ok, raised, channel_closed, channel_empty, channel_overflowed,
  assertion_error, stop_async_iteration,
}
use aio.World.{World}
use aio.Future.{
  is_finished, await_resume, create_promise, promise_set_result, promise_set_exception,
  promise_cancel,
}
use aio.Task.{Resume, send, throw}

pub record Queue (T : Type 0) : Type 0 where
  pub container : List T
  pub read_waiters : List ℕ
  pub write_waiters : List (T × ℕ)
  pub max_capacity : Option ℕ
  pub closed : Bool

-- A channel with the store in which its promises live.
pub record Chan (T : Type 0) : Type 0 where
  pub world : World (Option T)
  pub queue : Queue T

-- `deque.remove`, by the identity of the promise; a missing one is passed over.
pub remove_waiter : ℕ → List ℕ → List ℕ
remove_waiter p [] = []
remove_waiter p (q ∷ ps) = if q == p then ps else q ∷ remove_waiter p ps

abbrev pub is_empty {ℓ} : {A : Type ℓ} → List A → Bool
is_empty [] = true
is_empty (x ∷ xs) = false

module _ {T : Type 0} where
  pub remove_writer : ℕ → List (T × ℕ) → List (T × ℕ)
  remove_writer p [] = []
  remove_writer p ((x, q) ∷ ps) = if q == p then ps else (x, q) ∷ remove_writer p ps

  -- `_Queue.__init__`.
  pub new_queue : List T → Option ℕ → Queue T
  new_queue prepopulate cap = record {
    container = prepopulate;
    read_waiters = [];
    write_waiters = [];
    max_capacity = cap;
    closed = false;
  }

  abbrev pub with_queue : Chan T → Queue T → Chan T
  with_queue c q = record c { queue = q }

  -- A putter waits and the capacity is bounded: its element takes the place of the one returned.
  -- `set_result` comes first, and an exception of it leaves the container as it was.
  pub get_refilled : T → List T → T → ℕ → List (T × ℕ) → ℕ → Chan T → Chan T × Result T
  get_refilled e rest x p ws m c =
      if length (e ∷ rest) == m
      then (let (w, r) = promise_set_result p none c.world in
          elim r [
            | ok u ↦ (
              record {
                world = w;
                queue = record (c.queue) { container = rest ++ x ∷ []; write_waiters = ws };
              },
              ok e,
            )
            | raised err ↦
                (record { world = w; queue = record (c.queue) { write_waiters = ws } }, raised err)
          ])
      else (c, raised assertion_error)

  pub get_taken : T → List T → List (T × ℕ) → Option ℕ → Chan T → Chan T × Result T
  unfolding get_refilled
  get_taken e rest ((x, p) ∷ ws) (some m) c = get_refilled e rest x p ws m c
  get_taken e rest _ _ c = (with_queue c (record (c.queue) { container = rest }), ok e)

  pub get_from : List T → Chan T → Chan T × Result T
  unfolding get_taken
  get_from [] c = if c.queue.closed then (c, raised channel_closed) else (c, raised channel_empty)
  get_from (e ∷ rest) c =
      if is_empty c.queue.read_waiters
      then get_taken e rest c.queue.write_waiters c.queue.max_capacity c
      else (c, raised assertion_error)

  -- `get_no_wait`.
  unfoldable pub get_no_wait : Chan T → Chan T × Result T
  unfolding get_from
  get_no_wait c = get_from c.queue.container c

  abbrev pub over_capacity : Option ℕ → List T → Bool
  over_capacity none xs = false
  over_capacity (some m) xs = leb m (length xs)

  -- The first getter that waits is handed the element.
  pub put_to : List ℕ → T → Chan T → Chan T × Result (Unit {0})
  put_to [] e c =
      (with_queue c (record (c.queue) { container = c.queue.container ++ e ∷ [] }), ok tt)
  put_to (p ∷ ps) e c =
      if is_empty c.queue.container
      then (let (w, r) = promise_set_result p (some e) c.world in
          (record { world = w; queue = record (c.queue) { read_waiters = ps } }, r))
      else (c, raised assertion_error)

  -- `put_no_wait`.
  unfoldable pub put_no_wait : T → Chan T → Chan T × Result (Unit {0})
  unfolding put_to
  put_no_wait e c =
      if c.queue.closed
      then (c, raised channel_closed)
      else if over_capacity c.queue.max_capacity c.queue.container
      then if is_empty c.queue.read_waiters
        then (c, raised channel_overflowed)
        else (c, raised assertion_error)
      else put_to c.queue.read_waiters e c
