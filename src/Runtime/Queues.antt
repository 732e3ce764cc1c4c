-- ===== src/Runtime/Queues.antt =====
-- aio/loop/pure/scheduler.py: where handles stand in the schedulers of the loops.
use aio.Prelude.{
  ℕ, zero, suc, ◌+◌, ◌≤◌, ◌≡◌, refl, true, Option, none, some, arith, if◌then◌else◌, ◌==◌, ==_iff,
  Bool-cases, Option-cases, inl, inr, update, ltb, leb, ◌&&◌,
}
use aio.World.{Handle}
use aio.Scheduler.{PriorityQueue, enqueue, handle_priority, pop_pending, is_live}
use aio.Scheduler.Heap.{Heapq, IsHeap}
use aio.Scheduler.Times.{
  times, waiting, waiting-enqueue, soon-enqueue, soon-enqueue-none, waiting-pop_pending-is_live,
  pop_pending-takes,
}
use aio.Scheduler.Pending.{prioritized-enqueue-none, prioritized-enqueue-some}
use aio.Runtime.{enqueue_new}

-- Whether `h` is one of the `count` handles from `first` on, and of the loop `l`.
abbrev pub made : (ℕ → Handle) → ℕ → ℕ → ℕ → ℕ → ℕ
made handles count first l h =
    if leb first h && (ltb h (first + count) && ((handles h).loop == l)) then 1 else 0

-- Where a handle of this time stands in a scheduler: with no time, among those to be called soon.
abbrev pub place : Option ℕ → ℕ → PriorityQueue ℕ → ℕ
place none h q = times h q.min_priority
place (some t) h q = waiting h q

pub place-le : (h : ℕ) (when : Option ℕ) (q : PriorityQueue ℕ) → place when h q ≤ waiting h q
place-le h none q = omega arith
place-le h (some t) q = omega arith

module _ (hq : Heapq ℕ) (handles : ℕ → Handle) where
  made-suc :
      (count first l h : ℕ)
      → made handles (suc count) first l h
        ≡ (if first == h then (if (handles first).loop == l then 1 else 0) else 0)
          + made handles count (suc first) l h
  made-suc count first l h = elim (Bool-cases (first == h)) [
    | inl e ↦ rw (e, ← (==_iff first h).0 e) (ground arith)
    | inr e ↦ ground (arith, ==_iff first h)
  ]

  -- The handle `h` is enqueued in the scheduler of its loop.
  abbrev with_first : ℕ → (ℕ → PriorityQueue ℕ) → (ℕ → PriorityQueue ℕ)
  with_first first queues =
      let l = (handles first).loop in
      update queues l (enqueue hq (handle_priority handles) first (queues l))

  abbrev first_in : ℕ → ℕ → ℕ → ℕ
  first_in first l h = if first == h then (if (handles first).loop == l then 1 else 0) else 0

  module _ (h : ℕ) (count_in : PriorityQueue ℕ → ℕ)
      (grows : (x : ℕ) (q : PriorityQueue ℕ)
        → (if x == h then 1 else 0) + count_in q
          ≤ count_in (enqueue hq (handle_priority handles) x q)) where
    grows-with_first :
        (first l : ℕ) (queues : ℕ → PriorityQueue ℕ)
        → first_in first l h + count_in (queues l) ≤ count_in (with_first first queues l)
    grows-with_first first l queues = elim (Bool-cases ((handles first).loop == l)) [
      | inl e ↦ rw (e, (==_iff (handles first).loop l).0 e) (ground (arith, grows first (queues l)))
      | inr e ↦ rw e (ground arith)
    ]

    -- What `count_in` says of the queue of a loop counts each new handle of the loop.
    pub grows-enqueue_new :
        (count first l : ℕ) (queues : ℕ → PriorityQueue ℕ)
        → made handles count first l h + count_in (queues l)
          ≤ count_in (enqueue_new hq count first handles queues l)
    unfolding enqueue_new
    grows-enqueue_new zero first l queues = ground arith
    grows-enqueue_new (suc count) first l queues = omega (
      arith,
      made-suc count first l h,
      grows-with_first first l queues,
      grows-enqueue_new count (suc first) l (with_first first queues),
    )

  waiting-with_first :
      (first l h : ℕ) (queues : ℕ → PriorityQueue ℕ)
      → waiting h (with_first first queues l) ≡ first_in first l h + waiting h (queues l)
  waiting-with_first first l h queues = elim (Bool-cases ((handles first).loop == l)) [
    | inl e ↦
        rw (e, (==_iff (handles first).loop l).0 e)
          (waiting-enqueue hq (handle_priority handles) first h (queues l))
    | inr e ↦ rw e (ground arith)
  ]

  -- Each new handle is once more in the scheduler of its loop.
  pub waiting-enqueue_new :
      (count first l h : ℕ) (queues : ℕ → PriorityQueue ℕ)
      → waiting h (enqueue_new hq count first handles queues l)
        ≡ made handles count first l h + waiting h (queues l)
  unfolding enqueue_new
  waiting-enqueue_new zero first l h queues = ground arith
  waiting-enqueue_new (suc count) first l h queues = omega (
    arith,
    made-suc count first l h,
    waiting-with_first first l h queues,
    waiting-enqueue_new count (suc first) l h (with_first first queues),
  )

  place_grows :
      (h : ℕ) (when : Option ℕ)
      → (handles h).when ≡ when
      → (x : ℕ) (q : PriorityQueue ℕ)
      → (if x == h then 1 else 0) + place when h q
        ≤ place when h (enqueue hq (handle_priority handles) x q)
  place_grows h none e x q = elim (Bool-cases (x == h)) [
    | inl same ↦
        rw ((==_iff x h).0 same)
          (ground (arith, ==_iff h h, soon-enqueue-none hq (handle_priority handles) h q e))
    | inr other ↦ rw other (omega (arith, soon-enqueue hq (handle_priority handles) x h q))
  ]
  place_grows h (some t) e x q = omega (arith, waiting-enqueue hq (handle_priority handles) x h q)

  -- A new handle is where its time says, and the others are where they were.
  pub place-enqueue_new :
      (count first l h : ℕ) (queues : ℕ → PriorityQueue ℕ)
      → made handles count first l h + place (handles h).when h (queues l)
        ≤ place (handles h).when h (enqueue_new hq count first handles queues l)
  place-enqueue_new count first l h queues =
      grows-enqueue_new h (place (handles h).when h) (place_grows h (handles h).when refl) count
        first l queues

  enqueue-IsHeap :
      (x : ℕ) (q : PriorityQueue ℕ)
      → IsHeap q.prioritized
      → IsHeap (enqueue hq (handle_priority handles) x q).prioritized
  enqueue-IsHeap x q i = elim (Option-cases (handle_priority handles x)) [
    | inl e ↦ rw (prioritized-enqueue-none hq (handle_priority handles) x q e) i
    | inr (p, e) ↦
        rw (prioritized-enqueue-some hq (handle_priority handles) x p q e)
          (hq.heappush-IsHeap q.prioritized _ i)
  ]

  pub enqueue_new-IsHeap :
      (count first : ℕ) (queues : ℕ → PriorityQueue ℕ)
      → ((l : ℕ) → IsHeap (queues l).prioritized)
      → (l : ℕ) → IsHeap (enqueue_new hq count first handles queues l).prioritized
  unfolding enqueue_new
  enqueue_new-IsHeap zero first queues i = i
  enqueue_new-IsHeap (suc count) first queues i =
      enqueue_new-IsHeap count (suc first) (with_first first queues) (λ l.
        elim (Bool-cases ((handles first).loop == l)) [
          | inl e ↦ rw e (enqueue-IsHeap first (queues (handles first).loop) (i _))
          | inr e ↦ rw e (i l)
        ])

module _ (hq : Heapq ℕ) where
  -- What is live and stands in a scheduler is taken, or still stands where it did.
  pub place-pop_pending :
      (handles : ℕ → Handle) (threshold h : ℕ) (q : PriorityQueue ℕ) (when : Option ℕ)
      → IsHeap q.prioritized
      → is_live handles h ≡ true
      → let (q', taken) = pop_pending hq handles threshold q in
        place when h q ≤ times h taken + place when h q'
  place-pop_pending handles threshold h q none i live =
      omega (arith, pop_pending-takes threshold h hq handles q i live)
  place-pop_pending handles threshold h q (some t) i live =
      omega (arith, waiting-pop_pending-is_live hq handles threshold h q i live)
