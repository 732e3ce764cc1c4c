-- ===== src/Scheduler.antt =====
-- aio/loop/pure/scheduler.py: `PriorityQueue`, generic in its items, and `Scheduler`, whose items
-- are the handles of a store. heapq is an interface, an argument of what uses it.
pub mod Heap
pub mod Pop
pub mod Pending
pub mod Sorted
pub mod Agree
pub mod Times
pub mod New
use aio.Prelude.{
  ℕ, zero, suc, ◌+◌, Bool, true, false, not, Option, none, some, List, [], ◌∷◌, ◌++◌, map,
  if◌then◌else◌, leb, length,
}
use aio.Exceptions.{Result, ok, raised, value_error}
use aio.World.{Handle}
use Heap.{Entry, Heapq}

-- `_ids_generator` is the next number that it gives.
pub record PriorityQueue (T : Type 0) : Type 0 where
  pub next_id : ℕ
  pub min_priority : List T
  pub prioritized : List (Entry T)

module _ {T : Type 0} (hq : Heapq T) (priority_fn : T → Option ℕ) where
  -- `_wrap_item`: `none` is the sentinel of the least priority.
  wrap_item_as : Option ℕ → T → ℕ → Result (Entry T)
  wrap_item_as none x n = raised value_error
  wrap_item_as (some p) x n = ok (record { priority = p; seq = n; item = x })

  pub wrap_item : T → ℕ → Result (Entry T)
  unfolding wrap_item_as
  wrap_item x n = wrap_item_as (priority_fn x) x n

  -- The comprehension of `__init__`.
  wrap_all : List T → ℕ → Result (List (Entry T))
  wrap_all [] n = ok []
  wrap_all (x ∷ xs) n =
      let rest = wrap_all xs (suc n) in
      elim (wrap_item x n) [
        | raised e ↦ raised e
        | ok w ↦ (elim rest [ raised e ↦ raised e | ok ws ↦ ok (w ∷ ws) ])
      ]

  -- `PriorityQueue.__init__`.
  pub new_priority_queue : List T → List T → Result (PriorityQueue T)
  unfolding wrap_all
  new_priority_queue least xs = elim (wrap_all xs 0) [
    | raised e ↦ raised e
    | ok ws ↦ ok (record { next_id = length xs; min_priority = least; prioritized = hq.heapify ws })
  ]

  enqueue_as : Option ℕ → T → PriorityQueue T → PriorityQueue T
  enqueue_as none x q = record q { min_priority = q.min_priority ++ x ∷ [] }
  enqueue_as (some p) x q = record q {
    next_id = suc q.next_id;
    prioritized = hq.heappush q.prioritized (record { priority = p; seq = q.next_id; item = x });
  }

  -- `enqueue`: an item with the sentinel goes to the queue of the least priority, any other is
  -- wrapped and pushed on the heap.
  unfoldable pub enqueue : T → PriorityQueue T → PriorityQueue T
  unfolding enqueue_as
  enqueue x q = enqueue_as (priority_fn x) x q

-- The loop of `_pop_prioritized_low`; each round takes one entry off the heap, so its length is
-- enough fuel. A `heappop` of what is not empty gives something.
unfoldable pub pop_low : {T : Type 0} → Heapq T → ℕ → List (Entry T) → ℕ → List T × List (Entry T)
pop_low hq zero h threshold = ([], h)
pop_low hq (suc fuel) [] threshold = ([], [])
pop_low hq (suc fuel) (e ∷ h) threshold = elim (leb e.priority threshold) [
  | false ↦ ([], e ∷ h)
  | true ↦ (elim (hq.heappop (e ∷ h)) [
    | none ↦ ([], e ∷ h)
    | some (root, rest) ↦
        (e.item ∷ (pop_low hq fuel rest threshold).0, (pop_low hq fuel rest threshold).1)
  ])
]

module _ {T : Type 0} (hq : Heapq T) where
  -- `pop_below_priority`.
  unfoldable pub pop_below_priority : ℕ → PriorityQueue T → PriorityQueue T × List T
  pop_below_priority threshold q =
      let (ready, rest) = pop_low hq (length q.prioritized) q.prioritized threshold in
      (record q { min_priority = []; prioritized = rest }, q.min_priority ++ ready)

-- `get_items`.
pub get_items : {T : Type 0} → PriorityQueue T → List T
get_items q = q.min_priority ++ map (λ e. e.item) q.prioritized

-- `_handle_priority_getter`: the least priority is that of a handle with no time.
abbrev pub handle_priority : (ℕ → Handle) → ℕ → Option ℕ
handle_priority handles h = (handles h).when

abbrev pub is_live : (ℕ → Handle) → ℕ → Bool
is_live handles h = not (handles h).is_cancelled

-- `[handle for handle in hs if not handle.cancelled]`.
abbrev pub live_of : (ℕ → Handle) → List ℕ → List ℕ
live_of handles [] = []
live_of handles (h ∷ hs) = if is_live handles h then h ∷ live_of handles hs else live_of handles hs

-- `any(handle.when is not None for handle in pending)`.
any_timed : (ℕ → Handle) → List ℕ → Bool
any_timed handles [] = false
any_timed handles (h ∷ hs) = elim (handles h).when [ some t ↦ true | none ↦ any_timed handles hs ]

-- `Scheduler.__init__`.
unfoldable pub new_scheduler : Heapq ℕ → (ℕ → Handle) → List ℕ → List ℕ → Result (PriorityQueue ℕ)
unfolding any_timed new_priority_queue
new_scheduler hq handles pending enqueued =
    if any_timed handles pending
    then raised value_error
    else new_priority_queue hq (handle_priority handles) pending enqueued

-- `Scheduler.pop_pending`.
unfoldable pub pop_pending : Heapq ℕ → (ℕ → Handle) → ℕ → PriorityQueue ℕ → PriorityQueue ℕ × List ℕ
pop_pending hq handles threshold q =
    let (q', hs) = pop_below_priority hq threshold q in (q', live_of handles hs)

-- `Scheduler.items_num`.
pub items_num : (ℕ → Handle) → PriorityQueue ℕ → ℕ
items_num handles q =
    length (live_of handles q.min_priority)
    + length (live_of handles (map (λ e. e.item) q.prioritized))

-- `Scheduler.next_event`: the time of the first handle in the array of the heap that is live.
unfoldable pub next_live : (ℕ → Handle) → List (Entry ℕ) → Option ℕ
next_live handles [] = none
next_live handles (e ∷ es) =
    if is_live handles e.item then (handles e.item).when else next_live handles es

unfoldable pub next_event : (ℕ → Handle) → PriorityQueue ℕ → Option ℕ
unfolding next_live
next_event handles q = next_live handles q.prioritized
