-- ===== src/Loop/New.antt =====
-- aio/loop/pure/impl.py: what holds of a new loop.
use aio.Prelude.{
  ℕ, ◌+◌, ◌≤◌, ◌<◌, ◌≡◌, ap, none, some, List, [], ◌∷◌, arith, inl, inr, ◌⊎◌, if◌then◌else◌, ltb,
}
use aio.Exceptions.{ok, raised, value_error}
use aio.World.{Handle}
use aio.Scheduler.{PriorityQueue, new_scheduler}
use aio.Scheduler.Heap.{Entry, Heapq, All}
use aio.Scheduler.Pop.{items}
use aio.Scheduler.New.{HaveNoTime, HaveTimes, IsFilled, new_scheduler_cases}
use aio.Scheduler.Sorted.{IsSorted-IsHeap}
use aio.Scheduler.Times.{times, times-Perm}
use aio.Loop.{new_loop}
use aio.Loop.Inv.{LoopInv}
use aio.Loop.Once.{AtMostOnce}

-- The handles given to a scheduler are of the loop, and are given once.
abbrev pub AreGiven : ℕ → List ℕ → List ℕ → Type 0
AreGiven made pending enqueued =
    (h : ℕ) → times h pending + times h enqueued ≤ (if ltb h made then 1 else 0)

module _ (hq : Heapq ℕ) (handles : ℕ → Handle) (made : ℕ) where
  known_items :
      (es : List (Entry ℕ))
      → ((h : ℕ) → times h (items es) ≤ (if ltb h made then 1 else 0))
      → All (λ e. e.item < made) es
  known_items [] k = tt
  known_items (e ∷ es) k = (ground (arith, k e.item), known_items es (λ h. omega (arith, k h)))

  starts :
      (id : ℕ) (pending enqueued : List ℕ) (q : PriorityQueue ℕ)
      → AreGiven made pending enqueued
      → IsFilled hq handles pending enqueued q
      → LoopInv (new_loop id handles made (some q))
        × AtMostOnce [] (new_loop id handles made (some q))
  unfolding new_loop
  starts id pending enqueued q g n = (
    record {
      queue = record { heap = n.queue.heap; fresh = n.queue.fresh };
      timed = n.all_timed;
      known = known_items q.prioritized (λ h. omega (arith, g h, times-Perm h n.later));
    },
    (λ h. omega (arith, g h, times-Perm h n.later, ap (times h) n.soon)),
  )

  empty_starts :
      (id : ℕ)
      → LoopInv (new_loop id handles made none) × AtMostOnce [] (new_loop id handles made none)
  unfolding new_loop
  empty_starts id = (
    record { queue = record { heap = IsSorted-IsHeap [] tt; fresh = tt }; timed = tt; known = tt },
    (λ h. ground arith),
  )

  -- Handles that were made before are given to a `Scheduler`, each at most once. If those to be
  -- called soon have no time and the others have one, a loop with that scheduler starts with a heap of handles under
  -- their times and each handle at most at one place, none called. Otherwise the scheduler raises a `ValueError`. A
  -- loop that is given no scheduler starts so too.
  pub new_loop_starts :
      (id : ℕ) (pending enqueued : List ℕ)
      → AreGiven made pending enqueued
      → (LoopInv (new_loop id handles made none) × AtMostOnce [] (new_loop id handles made none))
        × (((q : PriorityQueue ℕ) × (new_scheduler hq handles pending enqueued ≡ ok q)
              × LoopInv (new_loop id handles made (some q))
              × AtMostOnce [] (new_loop id handles made (some q))
              × HaveNoTime handles pending
              × HaveTimes handles enqueued)
            ⊎ ((new_scheduler hq handles pending enqueued ≡ raised value_error)
                × ¬ (HaveNoTime handles pending × HaveTimes handles enqueued)))
  new_loop_starts id pending enqueued g = (
    empty_starts id,
    elim (new_scheduler_cases hq handles pending enqueued) [
      | inl (q, e, n, soon, later) ↦
          let (inv, once) = starts id pending enqueued q g n in inl (q, e, inv, once, soon, later)
      | inr e ↦ inr e
    ],
  )
