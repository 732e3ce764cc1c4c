-- ===== src/Scheduler/Pop.antt =====
-- aio/loop/pure/scheduler.py: what `pop_below_priority` takes off a queue, and what it leaves.
use mathlib.Core.List.Perm
use aio.Prelude.{
  ℕ, zero, suc, ◌≤◌, ◌<◌, ◌≡◌, refl, ap, List, [], ◌∷◌, ◌++◌, map, Perm, arith, length, leb,
  Bool-cases, inl, inr,
}
use aio.Scheduler.{PriorityQueue, pop_low, pop_below_priority}
use aio.Scheduler.Heap.{
  Entry, EntryLe, IsHeap, Heapq, All, All-append, All-Perm, IsSorted, root_first,
}

abbrev pub items : {T : Type 0} → List (Entry T) → List T
items = map (λ e. e.item)

-- What a run of the loop took off the heap `h` and what it left, `rest`.
pub record Popped {T : Type 0} (threshold : ℕ) (h : List (Entry T)) (ready : List T)
    (rest : List (Entry T)) : Type 0 where
  pub entries : List (Entry T)
  pub ready_items : ready ≡ items entries
  pub due : All (λ e. e.priority ≤ threshold) entries
  pub sorted : IsSorted entries
  pub later : All (λ e. threshold < e.priority) rest
  pub still_heap : IsHeap rest
  pub together : Perm (entries ++ rest) h

EntryLe-prop : {T : Type 0} (a b : Entry T) → IsProp (EntryLe a b)
EntryLe-prop a b = hlevel

module _ {T : Type 0} (hq : Heapq T) (threshold : ℕ) where
  nothing-Popped :
      (h : List (Entry T))
      → All (λ e. threshold < e.priority) h
      → IsHeap h
      → Popped threshold h [] h
  nothing-Popped h l i = record {
    entries = [];
    ready_items = refl;
    due = tt;
    sorted = tt;
    later = l;
    still_heap = i;
    together = Perm.refl h;
  }

  All-later :
      (e : Entry T) (es : List (Entry T))
      → threshold < e.priority
      → All (EntryLe e) es
      → All (λ x. threshold < x.priority) es
  All-later e [] lt a = tt
  All-later e (x ∷ es) lt a = (ground arith, All-later e es lt a.1)

  pop_low-Popped :
      (fuel : ℕ) (h : List (Entry T))
      → length h ≤ fuel
      → IsHeap h
      → Popped threshold h (pop_low hq fuel h threshold).0 (pop_low hq fuel h threshold).1
  unfolding pop_low
  pop_low-Popped zero [] le i = nothing-Popped [] tt i
  pop_low-Popped zero (e ∷ h) le i = absurd (omega arith)
  pop_low-Popped (suc fuel) [] le i = nothing-Popped [] tt i
  pop_low-Popped (suc fuel) (e ∷ h) le i = elim (Bool-cases (leb e.priority threshold)) [
    | inr late ↦
        rw (late, pop_low)
          (nothing-Popped (e ∷ h) (ground arith, All-later e h (ground arith) (root_first e h i)) i)
    | inl now ↦
        let (rest, popped, perm, heap, len) = hq.heappop_root e h i in
        let p = pop_low-Popped fuel rest (omega arith) heap in
        rw (now, pop_low)
          (rw (popped, pop_low)
            (record {
              entries = e ∷ p.entries;
              ready_items = ap (λ r. e.item ∷ r) p.ready_items;
              due = (ground arith, p.due);
              sorted = (
                (All-append (EntryLe e) p.entries _ (
                    All-Perm (EntryLe e) (EntryLe-prop e) (Perm.symm (Perm.trans p.together perm))
                      (root_first e h i))).0,
                p.sorted,
              );
              later = p.later;
              still_heap = p.still_heap;
              together = Perm.cons e (Perm.trans p.together perm);
            }))
  ]

  -- `pop_below_priority` of a queue that keeps its heap returns the items of the least priority in
  -- the order in which they were enqueued, and after them those whose time has come, in the order
  -- of the times, and of enqueueing where the times are equal. It leaves exactly the items whose
  -- time is later, in a heap; none is lost or made up.
  pub pop_below_priority-Popped :
      (q : PriorityQueue T)
      → IsHeap q.prioritized
      → let (q', taken) = pop_below_priority hq threshold q in
        (ready : List T) × (taken ≡ q.min_priority ++ ready)
        × (q'.min_priority ≡ [])
        × Popped threshold q.prioritized ready q'.prioritized
  unfolding pop_below_priority
  pop_below_priority-Popped q i = (
    (pop_low hq (length q.prioritized) q.prioritized threshold).0,
    refl,
    refl,
    pop_low-Popped (length q.prioritized) q.prioritized (omega arith) i,
  )
