-- ===== src/Gather.antt =====
-- aio/gather.py: `iter_done_futures`. The futures are those of the store in which the channel
-- lives; `k` is the number of the function `on_future_done`. That function is not modelled: since the
-- context manager can not be entered, it never has a channel.
pub mod Enter
use aio.Prelude.{ℕ, List, [], ◌∷◌}
use aio.Exceptions.{Exc, Result, ok, raised}
use aio.World.{closure, World, M}
use aio.Future.{add_callback, remove_callback}

module _ {V : Type 0} where
  -- `for fut in futures: fut.add_callback(on_future_done)`.
  unfoldable pub add_all : ℕ → List ℕ → M V (Unit {0})
  add_all k [] w = (w, ok tt)
  add_all k (f ∷ fs) w =
      let rest = add_all k fs (add_callback f (closure k) w).0 in
      elim (add_callback f (closure k) w).1 [
        | raised e ↦ ((add_callback f (closure k) w).0, raised e)
        | ok u ↦ rest
      ]

  unfoldable pub remove_all : ℕ → List ℕ → World V → World V
  remove_all k [] w = w
  remove_all k (f ∷ fs) w = remove_all k fs (remove_callback f (closure k) w)

  after_adding : ℕ → List ℕ → Exc → World V × Result (Unit {0}) → World V × Result (Unit {0})
  after_adding k fs no_protocol (w, raised e) = (w, raised e)
  after_adding k fs no_protocol (w, ok u) = (remove_all k fs w, raised no_protocol)

  -- The context manager, entered. `channel.create` gives an asynchronous context manager, which a
  -- plain `with` refuses: `no_protocol` is the exception, an AttributeError before Python 3.11 and
  -- a TypeError since.
  unfoldable pub iter_enter : Exc → ℕ → List ℕ → M V (Unit {0})
  unfolding after_adding
  iter_enter no_protocol k fs w = after_adding k fs no_protocol (add_all k fs w)
