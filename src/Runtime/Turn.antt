-- ===== src/Runtime/Turn.antt =====
-- aio/future/pure.py on aio/loop/pure/impl.py: a turn of a loop steps the tasks that are not
-- waiting.
use aio.Prelude.{
  ℕ, ◌+◌, ◌-◌, ◌<◌, ◌≤◌, ◌≡◌, subst, ap, ◌∙◌, ◌⊎◌, inl, inr, true, List, [], arith, Bool-cases,
  ==_iff, ◌==◌,
}
use aio.World.{World, is_task_state}
use aio.Future.{state}
use aio.Scheduler.Heap.{Heapq}
use aio.Scheduler.Times.{times, waiting, waiting-pop_pending}
use aio.Task.Step.Runs.{act-Calls}
use aio.Task.Wake.{Live, Calls}
use aio.Runtime.{
  Runtime, become, take, call_back, pass, pass_called, invoke_taken, invoke_next, Occurs, acts,
  delays, drops, takes, calls, Runs, ends, then_runs,
}
use aio.Runtime.Queues.{place, place-le, waiting-enqueue_new}
use aio.Runtime.Inv.{Placed, head_uncalled}
use aio.Runtime.Changes.{timer-Moves, dropped-Moves}
use aio.Runtime.Run.{
  RuntimeInv, WaitsFor, Awake-cases, call_back-Called, event-RuntimeInv, run-RuntimeInv, taken_once,
}

module _ {V : Type 0} (l h : ℕ) where
  -- The handle `h` of the loop `l` left the scheduler.
  record Left (s : Runtime V) : Type 0 where
    known : h < s.world.next_handle
    its : (s.world.handles h).loop ≡ l
    gone : waiting h (s.queues l) ≡ 0

  pass-Left : (j x : ℕ) (hs : List ℕ) (s : Runtime V) → Left s → Left (pass j x hs true s)
  unfolding pass
  pass-Left j x hs s g = record {
    known = g.known;
    its = ground (arith, g.its, ==_iff x h);
    gone = g.gone;
  }

  -- What left is called or cancelled, once the batch is done.
  done_with :
      (s : Runtime V)
      → Placed s
      → Left s
      → s.batches l ≡ []
      → ((s.world.handles h).executed ≡ true) ⊎ ((s.world.handles h).is_cancelled ≡ true)
  done_with s p g e = elim (Bool-cases (s.world.handles h).executed) [
    | inl x ↦ inl x
    | inr x ↦ elim (Bool-cases (s.world.handles h).is_cancelled) [
      | inl c ↦ inr c
      | inr c ↦
          let there : 1 ≤ times h (s.batches l) + place (s.world.handles h).when h (s.queues l) =
            subst (λ m. 1 ≤ times h (s.batches m) + place (s.world.handles h).when h (s.queues m))
              g.its (p.placed h g.known x c) in
          absurd (
            omega (
              arith,
              there,
              ap (times h) e,
              g.gone,
              place-le h (s.world.handles h).when (s.queues l),
            ))
    ]
  ]

  module _ (hq : Heapq ℕ) where
    become-Left : (w : World V) (s : Runtime V) → Calls s.world w → Left s → Left (become hq w s)
    unfolding become
    become-Left w s k g =
        let n = s.world.next_handle in
        let b = g.known in
        record {
          known = omega (arith, b, k.more);
          its = (k.old h b).loop_eq ∙ g.its;
          gone = ground (
            arith,
            waiting-enqueue_new hq w.handles (w.next_handle - n) n l h s.queues,
            b,
            g.gone,
          );
        }

    event-Left : {s x : Runtime V} → Occurs hq s x → RuntimeInv s → Left s → Left x
    unfolding invoke_next take pass invoke_taken pass_called
    event-Left (acts {s} n o) i g = become-Left _ s (act-Calls n o s.world i.awake) g
    event-Left (delays {s} when j k) i g =
        become-Left _ s (timer-Moves 0 when j k s.world i.awake).calls g
    event-Left (drops {s} x k e) i g =
        become-Left _ s (dropped-Moves 0 x k s.world e i.awake).calls g
    event-Left (takes {s} j threshold e) i g = record {
      known = g.known;
      its = g.its;
      gone = elim (Bool-cases (j == l)) [
        | inl c ↦
            rw (c, (==_iff j l).0 c)
              (omega (
                arith,
                g.gone,
                waiting-pop_pending hq s.world.handles threshold h (s.queues l) (i.places.heaps l),
              ))
        | inr c ↦ rw c g.gone
      ];
    }
    event-Left (calls {s} n code ops j x hs e f) i g =
        elim (Bool-cases (s.world.handles x).is_cancelled) [
          | inl c ↦ rw (invoke_next, e, c) (record { known = g.known; its = g.its; gone = g.gone })
          | inr c ↦
              let (b, _, u, _) = head_uncalled j x hs s e i.places in
              let called = call_back-Called n code ops x s.world b u c (f c) i.awake in
              let w = (call_back n code ops (s.world.handles x).callback s.world).0 in
              rw (invoke_next, e, c, called.fine)
                (pass-Left j x hs (become hq w s) (become-Left w s called.keeps g))
        ]

    run-Left : {s x : Runtime V} → Runs hq s x → RuntimeInv s → Left s → Left x
    run-Left ends i g = g
    run-Left (then_runs v r) i g = run-Left r (event-RuntimeInv hq v i) (event-Left v i g)

    take-Left :
        (threshold u : ℕ) (s : Runtime V)
        → RuntimeInv s
        → s.batches l ≡ []
        → Live s.world u h
        → (s.world.handles h).loop ≡ l
        → Left (take hq l threshold s)
    unfolding take
    take-Left threshold u s i e v same =
        let here : (l == l) ≡ true = ground (arith, ==_iff l l) in
        record {
          known = v.known;
          its = same;
          gone = rw here (
              ground (
                arith,
                taken_once hq l threshold s u h i e v same,
                waiting-pop_pending hq s.world.handles threshold h (s.queues l) (i.places.heaps l),
                i.places.once l h,
                here,
              ));
        }

module _ (hq : Heapq ℕ) {V : Type 0} where
  -- From a runtime in which every task is awake and the handles are placed, a turn of the loop `l`
  -- takes what is due, however early, and after it, whatever else happens meanwhile, the loop has
  -- passed all that it took, as long as steps raise nothing and coroutines yield futures that
  -- exist: each task that was not finished then waited for a future that was not finished and has
  -- the task's step among its callbacks, or it had a live handle that steps it, and that, if it is
  -- of that loop, was taken once by the turn and was called or cancelled by its end.
  pub run_turn_steps :
      {x y : Runtime V} (l threshold : ℕ)
      → RuntimeInv x
      → x.batches l ≡ []
      → Runs hq (take hq l threshold x) y
      → y.batches l ≡ []
      → (u : ℕ) → is_task_state (state x.world u) ≡ true
      → WaitsFor x.world u
        ⊎ ((h : ℕ) × Live x.world u h
            × ((x.world.handles h).loop ≡ l
                → (times h ((take hq l threshold x).batches l) ≡ 1)
                  × (((y.world.handles h).executed ≡ true)
                      ⊎ ((y.world.handles h).is_cancelled ≡ true))))
  run_turn_steps {x} {y} l threshold i e r d u t =
      elim (Awake-cases x.world u (i.awake.awake u) t) [
        | inl w ↦ inl w
        | inr (h, v) ↦ inr (
          h,
          v,
          λ same.
              let j = event-RuntimeInv hq (takes l threshold e) i in
              (
                taken_once hq l threshold x u h i e v same,
                done_with l h y (run-RuntimeInv hq r j).places
                    (run-Left l h hq r j (take-Left l h hq threshold u x i e v same)) d,
              ),
        )
      ]
