-- ===== src/Runtime/Inv.antt =====
-- aio/loop/pure/impl.py: each handle that is still to be called stands at one place of its loop.
use aio.Prelude.{
  ℕ, ◌+◌, ◌-◌, ◌≤◌, ◌<◌, ◌≡◌, refl, sym, ap, ◌∙◌, Bool, true, false, not, none, List, [], ◌∷◌,
  arith, if◌then◌else◌, ◌==◌, ==_iff, Bool-cases, inl, inr, update, ltb, ◌&&◌,
}
use aio.World.{step_of, World}
use aio.Scheduler.{pop_pending}
use aio.Scheduler.Heap.{Heapq, IsHeap}
use aio.Scheduler.Pending.{pop_pending-Popped}
use aio.Scheduler.Times.{times, waiting, waiting-pop_pending}
use aio.Task.Handles.{HandlesKept}
use aio.Runtime.{Runtime, become, take, pass}
use aio.Runtime.Queues.{
  place, waiting-enqueue_new, place-enqueue_new, enqueue_new-IsHeap, place-pop_pending,
}

module _ {V : Type 0} where
  -- Whether `h` is a handle of the loop `l` that was not called.
  abbrev pub uncalled : World V → ℕ → ℕ → ℕ
  uncalled w l h =
      if ltb h w.next_handle && (((w.handles h).loop == l) && not (w.handles h).executed)
      then 1
      else 0

  -- How often `h` stands where its loop can call it in time.
  abbrev pub standing : Runtime V → ℕ → ℕ
  standing s h =
      let l = (s.world.handles h).loop in
      times h (s.batches l) + place (s.world.handles h).when h (s.queues l)

  -- A handle is in the scheduler or the batch of a loop at most once, and only if it is the loop's
  -- and was not called; and a handle that is to be called is there.
  pub record Placed (s : Runtime V) : Type 0 where
    pub heaps : (l : ℕ) → IsHeap (s.queues l).prioritized
    pub once : (l h : ℕ) → times h (s.batches l) + waiting h (s.queues l) ≤ uncalled s.world l h
    pub placed :
        (h : ℕ)
        → h < s.world.next_handle
        → (s.world.handles h).executed ≡ false
        → (s.world.handles h).is_cancelled ≡ false
        → 1 ≤ standing s h
    pub steps_soon :
        (h t : ℕ)
        → h < s.world.next_handle
        → (s.world.handles h).callback ≡ step_of t
        → (s.world.handles h).when ≡ none

not_before : (x y : Bool) → (x ≡ true → y ≡ true) → y ≡ false → x ≡ false
not_before true y f e = absurd (cc (f refl))
not_before false y f e = refl

module _ {V : Type 0} where
  module _ (l h : ℕ) (hs : List ℕ) (s : Runtime V) (e : s.batches l ≡ h ∷ hs) (p : Placed s) where
    -- The handle that is called was not, and it stands nowhere else.
    pub head_uncalled :
        (h < s.world.next_handle)
        × ((s.world.handles h).loop ≡ l)
        × ((s.world.handles h).executed ≡ false)
        × (times h hs + waiting h (s.queues l) ≡ 0)
    head_uncalled = ground (arith, p.once l h, ap (times h) e, ==_iff h h)

    rest_times : (j x : ℕ) → times x (update s.batches l hs j) ≤ times x (s.batches j)
    rest_times j x = elim (Bool-cases (l == j)) [
      | inl i ↦ rw (i, ← (==_iff l j).0 i) (omega (arith, ap (times x) e))
      | inr i ↦ rw i (omega arith)
    ]

    rest_times-other :
        (j x : ℕ) → (h == x) ≡ false → times x (update s.batches l hs j) ≡ times x (s.batches j)
    rest_times-other j x o = elim (Bool-cases (l == j)) [
      | inl i ↦ rw (i, ← (==_iff l j).0 i, e, o) (omega arith)
      | inr i ↦ rw i refl
    ]

    -- A handle that is cancelled is passed over.
    pub pass_cancelled-Placed :
        (s.world.handles h).is_cancelled ≡ true → Placed (pass l h hs false s)
    unfolding pass
    pass_cancelled-Placed c = record {
      heaps = p.heaps;
      once = λ j x. omega (arith, p.once j x, rest_times j x);
      placed = λ x b u k.
          let other : (h == x) ≡ false = ground (arith, ==_iff h x) in
          omega (arith, p.placed x b u k, rest_times-other (s.world.handles x).loop x other);
      steps_soon = p.steps_soon;
    }

    -- The handle that was called stands nowhere.
    nowhere : (j : ℕ) → times h (update s.batches l hs j) + waiting h (s.queues j) ≡ 0
    nowhere j =
        let (_, loop, _, none_left) = head_uncalled in
        elim (Bool-cases (l == j)) [
          | inl i ↦ rw (i, ← (==_iff l j).0 i) none_left
          | inr i ↦ ground (arith, p.once j h)
        ]

    pub pass_called-Placed : Placed (pass l h hs true s)
    unfolding pass
    pass_called-Placed = record {
      heaps = p.heaps;
      once = λ j x. elim (Bool-cases (h == x)) [
        | inl same ↦ rw (← (==_iff h x).0 same) (omega (arith, nowhere j))
        | inr other ↦ rw other (omega (arith, p.once j x, rest_times j x))
      ];
      placed = λ x b u k. elim (Bool-cases (h == x)) [
        | inl same ↦ absurd (ground arith)
        | inr other ↦ rw other (
            omega (
              arith,
              p.placed x b (ground arith) (ground arith),
              rest_times-other (s.world.handles x).loop x other,
            ))
      ];
      steps_soon = λ x t b c. ground (arith, p.steps_soon x t, ==_iff h x);
    }

module _ (hq : Heapq ℕ) {V : Type 0} where
  -- The new handles are placed.
  pub become-Placed :
      (w : World V) (s : Runtime V)
      → HandlesKept s.world.next_handle s.world.handles w.next_handle w.handles
      → Placed s
      → Placed (become hq w s)
  unfolding become
  become-Placed w s k p =
      let n = s.world.next_handle in
      let c = w.next_handle - n in
      record {
        heaps = enqueue_new-IsHeap hq w.handles c n s.queues p.heaps;
        once = λ l h.
            let grown = waiting-enqueue_new hq w.handles c n l h s.queues in
            elim (Bool-cases (ltb h n)) [
              | inl e ↦
                  let o = k.old h (ground arith) in
                  ground (arith, grown, o.loop_eq, o.executed_eq, p.once l h)
              | inr e ↦ (elim (Bool-cases (ltb h w.next_handle)) [
                | inl i ↦
                    ground
                      (arith, grown, p.once l h, (k.fresh h (ground arith) (ground arith)).unused)
                | inr i ↦ ground (arith, grown, p.once l h)
              ])
            ];
        placed = λ h b u q.
            let grown = place-enqueue_new hq w.handles c n (w.handles h).loop h s.queues in
            elim (Bool-cases (ltb h n)) [
              | inl e ↦
                  let o = k.old h (ground arith) in
                  let was : 1
                      ≤ times h (s.batches (w.handles h).loop)
                        + place (w.handles h).when h (s.queues (w.handles h).loop) =
                    rw (o.loop_eq, o.when_eq)
                      (p.placed h (ground arith) (sym o.executed_eq ∙ u)
                        (not_before _ _ o.stays_cancelled q)) in
                  omega (arith, was, grown)
              | inr e ↦ ground (arith, grown)
            ];
        steps_soon = λ h t b e. elim (Bool-cases (ltb h n)) [
          | inl i ↦
              let o = k.old h (ground arith) in
              o.when_eq ∙ p.steps_soon h t (ground arith) (sym o.callback_eq ∙ e)
          | inr i ↦ (k.fresh h (ground arith) b).step_soon t e
        ];
      }

  -- A turn takes what is due.
  pub take-Placed :
      (l threshold : ℕ) (s : Runtime V)
      → s.batches l ≡ []
      → Placed s
      → Placed (take hq l threshold s)
  unfolding take
  take-Placed l threshold s e p =
      let hs = s.world.handles in
      let taken = pop_pending hq hs threshold (s.queues l) in
      let (ready, _, _, popped) = pop_pending-Popped hq hs threshold (s.queues l) (p.heaps l) in
      record {
        heaps = λ j. elim (Bool-cases (l == j)) [
          | inl c ↦ rw c popped.still_heap
          | inr c ↦ rw c (p.heaps j)
        ];
        once = λ j h. elim (Bool-cases (l == j)) [
          | inl c ↦
              rw (c, ← (==_iff l j).0 c)
                (omega (
                  arith,
                  p.once l h,
                  waiting-pop_pending hq hs threshold h (s.queues l) (p.heaps l),
                ))
          | inr c ↦ rw c (p.once j h)
        ];
        placed = λ h b u k. elim (Bool-cases (l == (hs h).loop)) [
          | inl c ↦
              let was : 1 ≤ times h (s.batches l) + place (hs h).when h (s.queues l) =
                rw ((==_iff l (hs h).loop).0 c) (p.placed h b u k) in
              rw c (
                omega (
                  arith,
                  was,
                  ap (times h) e,
                  place-pop_pending hq hs threshold h (s.queues l) (hs h).when (p.heaps l)
                      (ground arith),
                ))
          | inr c ↦ rw c (p.placed h b u k)
        ];
        steps_soon = p.steps_soon;
      }
