-- ===== src/Loop/Wait.antt =====
-- aio/loop/pure/impl.py: how long a turn of the loop waits.
use mathlib.Core.Path.{ap₂}
use mathlib.Core.List.Perm
use aio.Prelude.{
  sym, ℕ, ◌+◌, ◌-◌, ◌≤◌, ◌≡◌, refl, ap, ◌∙◌, true, false, Option, none, some, List, [], ◌∷◌, ltb,
  if◌then◌else◌,
}
use aio.Scheduler.{PriorityQueue, next_event, is_live}
use aio.Scheduler.Heap.{Entry, IsHeap, Heapq, All, All-append, All-Perm}
use aio.Scheduler.Pending.{pop_pending-Popped, AreTimed, next_event_earliest, next_event_cases}
use aio.Loop.{Loop, Turn, pop, wait_events, step_wait}

module _ (hq : Heapq ℕ) where
  -- The early callbacks of a turn, and the scheduler without them.
  abbrev pub early_callbacks : Turn → Loop → List ℕ
  early_callbacks turn l = (pop hq (turn.at_start + turn.resolution) l).1

  abbrev pub after_early : Turn → Loop → PriorityQueue ℕ
  after_early turn l = (pop hq (turn.at_start + turn.resolution) l).0.scheduler

  after_early-Popped :
      (turn : Turn) (l : Loop)
      → IsHeap l.scheduler.prioritized
      → AreTimed l.handles l.scheduler.prioritized
      → IsHeap (after_early turn l).prioritized
        × AreTimed l.handles (after_early turn l).prioritized
  unfolding pop
  after_early-Popped turn l i t =
      let (ready, _, _, popped) =
        pop_pending-Popped hq l.handles (turn.at_start + turn.resolution) l.scheduler i in
      (
        popped.still_heap,
        (All-append _ popped.entries _ (
            All-Perm (λ e. (l.handles e.item).when ≡ some e.priority) (λ e. hlevel)
              (Perm.symm popped.together) t)).1,
      )

  wait_events-none :
      (hs : List ℕ) (next : Option ℕ) (now : ℕ)
      → wait_events hs next now ≡ none
      → (hs ≡ []) × (next ≡ none)
  unfolding wait_events
  wait_events-none [] none now e = (refl, refl)
  wait_events-none [] (some t) now e = cc
  wait_events-none (h ∷ hs) next now e = cc

  step_wait_eq :
      (turn : Turn) (l : Loop)
      → step_wait hq turn l
        ≡ wait_events
            (early_callbacks turn l)
            (next_event l.handles (after_early turn l))
            turn.before_select
  unfolding step_wait pop
  step_wait_eq turn l = refl

  -- What a turn asks the selector to wait, when the heap is a heap and its entries have the times
  -- of their handles. With early callbacks to invoke it does not wait. Without, and with the first
  -- of the heap live, it waits until the time of that handle, which is the earliest of the heap,
  -- and not at all if that is past. It waits without a limit only if there is no early callback and
  -- no live handle in the heap.
  pub step_wait_cases :
      (turn : Turn) (l : Loop)
      → IsHeap l.scheduler.prioritized
      → AreTimed l.handles l.scheduler.prioritized
      → ((h : ℕ) (hs : List ℕ) → early_callbacks turn l ≡ h ∷ hs → step_wait hq turn l ≡ some 0)
        × ((e : Entry ℕ) (es : List (Entry ℕ))
            → early_callbacks turn l ≡ []
            → (after_early turn l).prioritized ≡ e ∷ es
            → is_live l.handles e.item ≡ true
            → (step_wait hq turn l
                ≡ some (
                    if ltb e.priority turn.before_select
                    then 0
                    else e.priority - turn.before_select))
              × All (λ x. e.priority ≤ x.priority) es)
        × (step_wait hq turn l ≡ none
            → (early_callbacks turn l ≡ [])
              × All (λ x. is_live l.handles x.item ≡ false) (after_early turn l).prioritized)
  unfolding wait_events
  step_wait_cases turn l i t =
      let (heap, timed) = after_early-Popped turn l i t in
      (
        (λ h hs e.
            step_wait_eq turn l
            ∙ ap (λ r. wait_events r (next_event l.handles (after_early turn l)) turn.before_select)
                e),
        (λ e es none_early first live.
            let (next, least) =
              next_event_earliest l.handles (after_early turn l) e es first heap timed live in
            (
              step_wait_eq turn l ∙ ap₂ (λ r n. wait_events r n turn.before_select) none_early next,
              least,
            )),
        (λ e.
            let (empty, next) =
              wait_events-none _ _ turn.before_select (sym (step_wait_eq turn l) ∙ e) in
            (empty, (next_event_cases l.handles (after_early turn l) timed).0 next)),
      )
