-- ===== src/Loop/Stop.antt =====
-- aio/loop/pure/impl.py: how `run_loop` ends, and which handles are called.
use aio.Prelude.{ℕ, ◌≡◌, true, false, Option, none, some, [], ◌∷◌, ◌++◌, arith, ◌⊎◌}
use aio.Exceptions.{Exc, ok, loop_stopped}
use aio.Scheduler.{items_num}
use aio.Scheduler.Heap.{Heapq}
use aio.Loop.{Loop, Effect, invoke_callback, mark_executed, invoke_handle}
use aio.Loop.Leaves.{Leaves}

module _ (hq : Heapq ℕ) where
  -- How a run ends: `none` goes on, `LoopStopped` only when it was told to stop and nothing is
  -- left, and else by an exception of one of `P`.
  abbrev pub EndsWell : (Exc → Type 0) → Loop × Option Exc → Type 0
  EndsWell P (l, none) = Unit {0}
  EndsWell P (l, some e) =
      ((e ≡ loop_stopped) × (l.is_running ≡ false) × (items_num l.handles l.scheduler ≡ 0)) ⊎ P e

  -- A handle that `run_step` comes to is called unless it is cancelled: a cancelled one is passed
  -- over and nothing changes, and any other is called, and marked as executed afterwards if the
  -- call raises nothing that ends the loop.
  pub invoke_handle_cases :
      (code : ℕ → Effect) (h : ℕ) (l : Loop)
      → ((l.handles h).is_cancelled ≡ true → invoke_handle hq code h l ≡ (l, ok tt))
        × ((l.handles h).is_cancelled ≡ false
            → (invoke_handle hq code h l).1 ≡ ok tt
            → (((invoke_handle hq code h l).0.handles h).executed ≡ true)
              × ((invoke_handle hq code h l).0.reported
                  ≡ (invoke_callback hq
                      (code h)
                      (record l { called = l.called ++ h ∷ [] })).0.reported)
              × ((invoke_handle hq code h l).0.scheduler
                  ≡ (invoke_callback hq
                      (code h)
                      (record l { called = l.called ++ h ∷ [] })).0.scheduler))
  unfolding invoke_handle mark_executed
  invoke_handle_cases code h l = ((λ c. ground arith), (λ c e. ground arith))
