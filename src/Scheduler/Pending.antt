-- ===== src/Scheduler/Pending.antt =====
-- aio/loop/pure/scheduler.py: enqueueing, and the handles that `Scheduler` gives out.
use native.Mathlib.Bridge.{le_prop}
use mathlib.Core.List.Perm
use mathlib.Core.List.{perm_middle, append_assoc}
use aio.Prelude.{
  subst, ℕ, suc, ◌≤◌, ◌<◌, ◌≡◌, refl, ap, ◌∙◌, true, false, Option, none, some, List, [], ◌∷◌, ◌++◌,
  Perm, arith, Bool-cases, inl, inr, get_elem?,
}
use aio.World.{Handle}
use aio.Scheduler.{
  PriorityQueue, enqueue, enqueue_as, get_items, pop_pending, is_live, live_of, next_live,
  next_event,
}
use aio.Scheduler.Heap.{Entry, EntryLe, IsHeap, Heapq, All, All-Perm, root_first}
use aio.Scheduler.Pop.{items, Popped, pop_below_priority-Popped}

-- The heap is a heap, and its ids are below the next one, so that what is enqueued later is behind
-- what has the same time.
pub record QueueInv {T : Type 0} (q : PriorityQueue T) : Type 0 where
  pub heap : IsHeap q.prioritized
  pub fresh : All (λ e. e.seq < q.next_id) q.prioritized

fresh_more :
    {T : Type 0} (es : List (Entry T)) (n : ℕ)
    → All (λ e. e.seq < n) es
    → All (λ e. e.seq < suc n) es
fresh_more [] n h = tt
fresh_more (e ∷ es) n h = (omega arith, fresh_more es n h.1)

module _ {T : Type 0} (hq : Heapq T) (priority_fn : T → Option ℕ) where
  enqueue_as-QueueInv :
      (p : Option ℕ) (x : T) (q : PriorityQueue T)
      → QueueInv q
      → QueueInv (enqueue_as hq priority_fn p x q)
        × Perm (get_items (enqueue_as hq priority_fn p x q)) (x ∷ get_items q)
  unfolding enqueue_as get_items
  enqueue_as-QueueInv none x q i = (
    record { heap = i.heap; fresh = i.fresh },
    rw append_assoc (perm_middle q.min_priority (items q.prioritized)),
  )
  enqueue_as-QueueInv (some p) x q i = (
    record {
      heap =
          hq.heappush-IsHeap q.prioritized (record { priority = p; seq = q.next_id; item = x })
            i.heap;
      fresh =
          All-Perm (λ e. e.seq < suc q.next_id) (λ e. le_prop)
            (Perm.symm
              (hq.heappush-perm q.prioritized (record { priority = p; seq = q.next_id; item = x })))
            (omega arith, fresh_more q.prioritized q.next_id i.fresh);
    },
    Perm.trans
        (Perm.append (Perm.refl q.min_priority) (
          Perm.map (λ e. e.item)
            (hq.heappush-perm q.prioritized (record { priority = p; seq = q.next_id; item = x }))))
        (perm_middle q.min_priority (items q.prioritized)),
  )

  pub prioritized-enqueue-none :
      (x : T) (q : PriorityQueue T)
      → priority_fn x ≡ none
      → (enqueue hq priority_fn x q).prioritized ≡ q.prioritized
  unfolding enqueue enqueue_as
  prioritized-enqueue-none x q e = rw (e, enqueue)

  pub prioritized-enqueue-some :
      (x : T) (p : ℕ) (q : PriorityQueue T)
      → priority_fn x ≡ some p
      → (enqueue hq priority_fn x q).prioritized
        ≡ hq.heappush q.prioritized (record { priority = p; seq = q.next_id; item = x })
  unfolding enqueue enqueue_as
  prioritized-enqueue-some x p q e = rw (e, enqueue)

  -- `enqueue` adds its item to the queue and nothing else, and keeps the heap and the ids in order.
  pub enqueue-QueueInv :
      (x : T) (q : PriorityQueue T)
      → QueueInv q
      → QueueInv (enqueue hq priority_fn x q)
        × Perm (get_items (enqueue hq priority_fn x q)) (x ∷ get_items q)
  unfolding enqueue
  enqueue-QueueInv x q i = enqueue_as-QueueInv (priority_fn x) x q i

least_times :
    (e : Entry ℕ) (es : List (Entry ℕ)) → All (EntryLe e) es → All (λ x. e.priority ≤ x.priority) es
least_times e [] h = tt
least_times e (x ∷ es) h = (ground arith, least_times e es h.1)

module _ (hq : Heapq ℕ) (handles : ℕ → Handle) where
  live_of-append :
      (xs ys : List ℕ) → live_of handles (xs ++ ys) ≡ live_of handles xs ++ live_of handles ys
  live_of-append [] ys = refl
  live_of-append (x ∷ xs) ys = ground (arith, live_of-append xs ys)

  -- `pop_pending` returns the live handles of those that are to be called soon, in the order in
  -- which they were enqueued, and then the live handles whose time has come, in the order of their
  -- times.
  pub pop_pending-Popped :
      (threshold : ℕ) (q : PriorityQueue ℕ)
      → IsHeap q.prioritized
      → let (q', taken) = pop_pending hq handles threshold q in
        (ready : List ℕ) × (taken ≡ live_of handles q.min_priority ++ live_of handles ready)
        × (q'.min_priority ≡ [])
        × Popped threshold q.prioritized ready q'.prioritized
  unfolding pop_pending
  pop_pending-Popped threshold q i =
      let (ready, eq, empty, popped) = pop_below_priority-Popped hq threshold q i in
      (ready, ap (live_of handles) eq ∙ live_of-append q.min_priority ready, empty, popped)

module _ (handles : ℕ → Handle) where
  -- Every entry has the time of its handle.
  abbrev pub AreTimed : List (Entry ℕ) → Type 0
  AreTimed = All (λ e. (handles e.item).when ≡ some e.priority)

  next_live_cases :
      (es : List (Entry ℕ))
      → AreTimed es
      → (next_live handles es ≡ none → All (λ e. is_live handles e.item ≡ false) es)
        × ((t : ℕ)
            → next_live handles es ≡ some t
            → (j : ℕ) × (e : Entry ℕ) × (get_elem? es j ≡ some e)
              × (is_live handles e.item ≡ true)
              × (e.priority ≡ t))
  unfolding next_live
  next_live_cases [] h = ((λ _. tt), (λ t e. cc))
  next_live_cases (x ∷ es) h = elim (Bool-cases (is_live handles x.item)) [
    | inl live ↦
        ((λ e. absurd (ground (arith, h.0))), (λ t e. (0, x, refl, live, ground (arith, h.0))))
    | inr gone ↦
        let (nothing, found) = next_live_cases es h.1 in
        (
          (λ e. (gone, nothing (ground arith))),
          (λ t e. let (j, y, at, live, eq) = found t (ground arith) in (suc j, y, at, live, eq)),
        )
  ]

  -- The earliest time of a live handle, when the first of the heap is live.
  pub next_event_earliest :
      (q : PriorityQueue ℕ) (e : Entry ℕ) (es : List (Entry ℕ))
      → q.prioritized ≡ e ∷ es
      → IsHeap q.prioritized
      → AreTimed q.prioritized
      → is_live handles e.item ≡ true
      → (next_event handles q ≡ some e.priority) × All (λ x. e.priority ≤ x.priority) es
  unfolding next_event next_live
  next_event_earliest q e es h i t l =
      (ground (arith, t), least_times e es (root_first e es (subst IsHeap h i)))

  -- `next_event` is none only if no handle of the heap is live, and else the time of one that is.
  pub next_event_cases :
      (q : PriorityQueue ℕ)
      → AreTimed q.prioritized
      → (next_event handles q ≡ none → All (λ e. is_live handles e.item ≡ false) q.prioritized)
        × ((t : ℕ)
            → next_event handles q ≡ some t
            → (j : ℕ) × (e : Entry ℕ) × (get_elem? q.prioritized j ≡ some e)
              × (is_live handles e.item ≡ true)
              × (e.priority ≡ t))
  unfolding next_event
  next_event_cases q h = next_live_cases q.prioritized h

  -- When the first of the heap is cancelled, the handle at the next place of the array decides. So
  -- whenever the second and the third of the array are live and the third is earlier, `next_event`
  -- is later than the time of a live handle.
  pub next_event_late :
      (q : PriorityQueue ℕ) (c a b : Entry ℕ) (es : List (Entry ℕ))
      → q.prioritized ≡ c ∷ a ∷ b ∷ es
      → AreTimed q.prioritized
      → is_live handles c.item ≡ false
      → is_live handles a.item ≡ true
      → is_live handles b.item ≡ true
      → b.priority < a.priority
      → (t : ℕ) × (next_event handles q ≡ some t) × (b.priority < t)
  unfolding next_event next_live
  next_event_late q c a b es h t gone la lb lt = (a.priority, late (subst AreTimed h t), lt)
    where
      late : AreTimed (c ∷ a ∷ b ∷ es) → next_live handles q.prioritized ≡ some a.priority
      late timed = ground (arith, timed.1.0)
