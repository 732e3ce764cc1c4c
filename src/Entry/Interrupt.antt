-- ===== src/Entry/Interrupt.antt =====
-- aio/loop/entry.py: what a keyboard interrupt does, and what `run` returns.
use aio.Prelude.{ℕ, suc, ◌<◌, ◌≡◌, refl, true, false, none, List, arith}
use aio.Exceptions.{Exc, CancelClass, cancelled, instance_of, ok, raised}
use aio.World.{Callback, pending, coro_running, plain_future, task_future, World, is_task_state}
use aio.Future.{state, is_finished}
use aio.Future.Settle.{
  Outcome, raises, settled, finished_by, read_back, result-finished_by, is_finished_by,
}
use aio.Task.{cancel_future}
use aio.Task.Cancel.{WaitsThrough, cancel_reaches}
use aio.Entry.{Received, receive_result, on_keyboard_interrupt, run_end}

abbrev pub keyboard : Exc
keyboard = cancelled CancelClass.keyboard none

module _ {V : Type 0} where
  running_raises :
      (n root : ℕ) (w : World V)
      → (w.futs root).kind ≡ task_future
      → is_task_state (state w root) ≡ true
      → (w.futs root).coro ≡ coro_running
      → cancel_future (suc n) root (instance_of CancelClass.keyboard none) w ≡ (w, raised keyboard)
  unfolding cancel_future
  running_raises n root w k s c = ground arith

  -- A keyboard interrupt does nothing once the main task is finished. If the main task waits,
  -- through any number of tasks, for a pending future, that future is finished with
  -- `KeyboardCancelled`; and if the interrupt comes while the main task runs, `KeyboardCancelled`
  -- is raised there and then.
  pub interrupt_cases :
      (n d root g : ℕ) (cbs : List Callback) (w : World V)
      → (is_finished w root ≡ true → on_keyboard_interrupt d root w ≡ (w, ok tt))
        × (is_finished w root ≡ false
            → WaitsThrough w g n root
            → n < d
            → (w.futs g).kind ≡ plain_future
            → state w g ≡ pending cbs
            → on_keyboard_interrupt d root w ≡ (settled w g (raises keyboard) cbs, ok tt))
        × (is_finished w root ≡ false
            → (w.futs root).kind ≡ task_future
            → is_task_state (state w root) ≡ true
            → (w.futs root).coro ≡ coro_running
            → on_keyboard_interrupt (suc d) root w ≡ (w, raised keyboard))
  unfolding on_keyboard_interrupt
  interrupt_cases n d root g cbs w = (
    (λ f. rw (f, on_keyboard_interrupt) refl),
    (λ f c lt k p.
        rw (f, on_keyboard_interrupt)
          (rw (cancel_reaches n d root g cbs (instance_of CancelClass.keyboard none) w c lt k p)
            refl)),
    (λ f k s c. rw (f, on_keyboard_interrupt) (rw (running_raises d root w k s c) refl)),
  )

  -- When the main task is finished with an outcome and its callback was called, `run` returns the
  -- value or raises the exception, and the loop was told to stop.
  pub run_returns :
      (root : ℕ) (o : Outcome V) (s : List (Callback × ℕ)) (r : Received) (w : World V)
      → state w root ≡ finished_by o s
      → ((run_end root (receive_result root r) w).1 ≡ read_back o)
        × ((receive_result root r).is_stopped ≡ true)
  unfolding run_end receive_result
  run_returns root o s r w h =
      (rw (is_finished_by w root o s h, run_end) (result-finished_by w root o s h), refl)
