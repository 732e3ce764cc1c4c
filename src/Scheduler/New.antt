-- ===== src/Scheduler/New.antt =====
-- aio/loop/pure/scheduler.py: the queue that a new `Scheduler` has.
use native.Mathlib.Bridge.{le_prop}
use mathlib.Core.List.Perm
use aio.Prelude.{
  true, false, none, ℕ, suc, ◌+◌, ◌<◌, ◌≡◌, refl, ap, some, List, [], ◌∷◌, arith, length,
  Option-cases, Bool-cases, inl, inr, ◌⊎◌, subst, Perm,
}
use aio.Exceptions.{ok, raised, value_error}
use aio.World.{Handle}
use aio.Scheduler.{
  PriorityQueue, wrap_item, wrap_item_as, wrap_all, new_priority_queue, any_timed, new_scheduler,
  handle_priority,
}
use aio.Scheduler.Heap.{Entry, Heapq, All, All-Perm}
use aio.Scheduler.Pop.{items}
use aio.Scheduler.Pending.{QueueInv, AreTimed}

module _ (handles : ℕ → Handle) where
  -- Handles with no time, and handles that have one.
  abbrev pub HaveNoTime : List ℕ → Type 0
  HaveNoTime [] = Unit {0}
  HaveNoTime (x ∷ xs) = ((handles x).when ≡ none) × HaveNoTime xs

  abbrev pub HaveTimes : List ℕ → Type 0
  HaveTimes [] = Unit {0}
  HaveTimes (x ∷ xs) = ((t : ℕ) × ((handles x).when ≡ some t)) × HaveTimes xs

  any_timed_cases :
      (xs : List ℕ)
      → (any_timed handles xs ≡ false → HaveNoTime xs)
        × (any_timed handles xs ≡ true → ¬ (HaveNoTime xs))
  unfolding any_timed
  any_timed_cases [] = ((λ e. tt), (λ e h. absurd (cc e)))
  any_timed_cases (x ∷ xs) = elim (Option-cases (handles x).when) [
    | inl none_ ↦ (
      (λ e. (none_, (any_timed_cases xs).0 (rw (none_, any_timed) at e))),
      (λ e h. (any_timed_cases xs).1 (rw (none_, any_timed) at e) h.1),
    )
    | inr (t, at) ↦ ((λ e. absurd (cc (rw (at, any_timed) at e))), (λ e h. absurd (cc (h.0, at))))
  ]

module _ (hq : Heapq ℕ) (handles : ℕ → Handle) where
  -- The entries of the handles, under their times, with ids below `m`.
  pub record Wraps (xs : List ℕ) (m : ℕ) (ws : List (Entry ℕ)) : Type 0 where
    pub same_items : items ws ≡ xs
    pub fresh : All (λ e. e.seq < m) ws
    pub timed : AreTimed handles ws

  -- What comes of the comprehension: the entries, or the `ValueError` of a handle with no time.
  wrap_all_cases :
      (xs : List ℕ) (n : ℕ)
      → ((ws : List (Entry ℕ)) × (wrap_all hq (handle_priority handles) xs n ≡ ok ws)
          × Wraps xs (n + length xs) ws
          × HaveTimes handles xs)
        ⊎ ((wrap_all hq (handle_priority handles) xs n ≡ raised value_error)
            × ¬ (HaveTimes handles xs))
  unfolding wrap_all wrap_item wrap_item_as
  wrap_all_cases [] n = inl ([], refl, record { same_items = refl; fresh = tt; timed = tt }, tt)
  wrap_all_cases (x ∷ xs) n = elim (Option-cases (handles x).when) [
    | inl none_ ↦ inr (ground (arith, none_), (λ h. absurd (cc (h.0.1, none_))))
    | inr (t, at) ↦ (elim (wrap_all_cases xs (suc n)) [
      | inr (e, out) ↦ inr (ground (arith, at, e), (λ h. out h.1))
      | inl (ws, e, w, all) ↦ inl (
        (record { priority = t; seq = n; item = x }) ∷ ws,
        ground (arith, at, e),
        record {
          same_items = ap (λ r. x ∷ r) w.same_items;
          fresh = (omega arith, subst (λ m. All (λ y. y.seq < m) ws) (omega arith) w.fresh);
          timed = (at, w.timed);
        },
        ((t, at), all),
      )
    ])
  ]

  -- The queue that the scheduler starts with.
  pub record IsFilled (pending enqueued : List ℕ) (q : PriorityQueue ℕ) : Type 0 where
    pub queue : QueueInv q
    pub all_timed : AreTimed handles q.prioritized
    pub soon : q.min_priority ≡ pending
    pub later : Perm (items q.prioritized) enqueued

  new_priority_queue-IsFilled :
      (pending enqueued : List ℕ) (ws : List (Entry ℕ))
      → Wraps enqueued (0 + length enqueued) ws
      → IsFilled pending enqueued (record {
        next_id = length enqueued;
        min_priority = pending;
        prioritized = hq.heapify ws;
      })
  new_priority_queue-IsFilled pending enqueued ws w =
      let back = Perm.symm (hq.heapify-perm ws) in
      record {
        queue = record {
          heap = hq.heapify-IsHeap ws;
          fresh =
              All-Perm (λ e. e.seq < length enqueued) (λ e. le_prop) back
                (subst (λ m. All (λ y. y.seq < m) ws) (omega arith) w.fresh);
        };
        all_timed =
            All-Perm (λ e. (handles e.item).when ≡ some e.priority) (λ e. hlevel) back w.timed;
        soon = refl;
        later =
            subst (λ r. Perm (items (hq.heapify ws)) r) w.same_items
              (Perm.map (λ e. e.item) (hq.heapify-perm ws));
      }

  pub new_scheduler_cases :
      (pending enqueued : List ℕ)
      → ((q : PriorityQueue ℕ) × (new_scheduler hq handles pending enqueued ≡ ok q)
          × IsFilled pending enqueued q
          × HaveNoTime handles pending
          × HaveTimes handles enqueued)
        ⊎ ((new_scheduler hq handles pending enqueued ≡ raised value_error)
            × ¬ (HaveNoTime handles pending × HaveTimes handles enqueued))
  unfolding new_scheduler new_priority_queue
  new_scheduler_cases pending enqueued = elim (Bool-cases (any_timed handles pending)) [
    | inl e ↦ inr (rw (e, new_scheduler) refl, (λ h. (any_timed_cases handles pending).1 e h.0))
    | inr e ↦ (elim (wrap_all_cases enqueued 0) [
      | inr (r, out) ↦ inr (rw (e, new_scheduler) (rw (r, new_priority_queue) refl), (λ h. out h.1))
      | inl (ws, r, w, all) ↦ inl (
        _,
        rw (e, new_scheduler) (rw (r, new_priority_queue) refl),
        new_priority_queue-IsFilled pending enqueued ws w,
        (any_timed_cases handles pending).0 e,
        all,
      )
    ])
  ]
