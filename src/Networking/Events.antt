-- ===== src/Networking/Events.antt =====
-- aio/loop/pure/networking.py: `_wait_sock_events` and `wait_sock_event`, a wait for the events of
-- a descriptor. `k` is the number of the function `done_cb`, `none_value` is `None`.
pub mod Watch
use aio.Prelude.{ℕ, Bool, true, false, Option, none, some, List, [], ◌∷◌, if◌then◌else◌}
use aio.Exceptions.{Exc, Result, ok, raised}
use aio.World.{World, M}
use aio.Future.{is_finished, create_promise, promise_set_result, promise_set_exception}
use aio.Task.{Resume}
use aio.Promises.{leave_promise, await_promise}
use aio.Selector.{Mask, Selector, add_watch, stop_watch}

-- The names of events that `wait_sock_event` takes, and the mask of them.
pub data EventName : Type 0 where
  reading writing : EventName

has_reading : List EventName → Bool
has_reading [] = false
has_reading (reading ∷ es) = true
has_reading (writing ∷ es) = has_reading es

has_writing : List EventName → Bool
has_writing [] = false
has_writing (writing ∷ es) = true
has_writing (reading ∷ es) = has_writing es

unfoldable pub int_events : List EventName → Mask
unfolding has_reading has_writing
int_events es = record { read = has_reading es; write = has_writing es }

-- The store with the selector of the loop.
pub record Net (V : Type 0) : Type 0 where
  pub world : World V
  pub selector : Selector

module _ {V : Type 0} where
  -- `done_cb`, with the promise `p` of its closure.
  unfoldable pub done_cb : V → ℕ → Option Exc → M V (Unit {0})
  done_cb none_value p exc w = if is_finished w p then (w, ok tt) else (elim exc [
    | none ↦ promise_set_result p none_value w
    | some e ↦ promise_set_exception p e w
  ])

  watch_with : ℕ → World V → Selector × Result (Unit {0}) → Net V × Result ℕ
  watch_with p w (s, ok u) = (record { world = w; selector = s }, ok p)
  watch_with p w (s, raised e) = (record { world = leave_promise p w; selector = s }, raised e)

  watch_for : ℕ → Mask → ℕ → Selector → World V × Result ℕ → Net V × Result ℕ
  unfolding watch_with
  watch_for fd events k s (w, raised e) = (record { world = w; selector = s }, raised e)
  watch_for fd events k s (w, ok p) = watch_with p w (add_watch fd events k s)

  -- `_wait_sock_events`, up to its `await`, on the loop `l`.
  unfoldable pub wait_start : ℕ → ℕ → Mask → ℕ → Net V → Net V × Result ℕ
  unfolding watch_for
  wait_start l fd events k n = watch_for fd events k n.selector (create_promise l n.world)

  -- An exception of the `finally` takes the place of how the `await` ended.
  after_stop : Result (Unit {0}) → Result V → Result V
  after_stop (ok u) r = r
  after_stop (raised e) r = raised e

  -- From the `await` on: the `finally`, and the end of the `async with`.
  unfoldable pub wait_resume : ℕ → Mask → ℕ → ℕ → Resume → Net V → Net V × Result V
  unfolding after_stop
  wait_resume fd events k p how n =
      let (w, r) = await_promise p how n.world in
      let (s, stopped) = stop_watch fd (some events) (some k) n.selector in
      (record { world = leave_promise p w; selector = s }, after_stop stopped r)
