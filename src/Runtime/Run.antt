-- ===== src/Runtime/Run.antt =====
-- aio/future/pure.py on aio/loop/pure/impl.py: every task that is not finished waits for a future
-- that is not, or its loop will step it.
use aio.Prelude.{
  ℕ, ◌+◌, ◌<◌, ◌≤◌, ◌≡◌, refl, subst, ap, ◌∙◌, ◌⊎◌, inl, inr, true, false, some, none, List, [],
  ◌∷◌, arith, Bool-cases, ==_iff, ◌==◌,
}
use aio.Exceptions.{ok}
use aio.World.{
  Callback, step_of, closure, FutState, pending, created, scheduled, cancelling, running, success,
  failed, World, waiting_callbacks, is_task_state, has_callback,
}
use aio.Future.{state}
use aio.Scheduler.Heap.{Heapq}
use aio.Scheduler.Times.{times, waiting-pop_pending, pop_pending-takes}
use aio.Task.{Op, Code}
use aio.Task.Step.{exec_op, exec_ops}
use aio.Task.Step.Runs.{act-AllAwake, act-Calls, mark_closure-AllAwake}
use aio.Task.Step.Turns.{AllAwake, after_call, step-Calls, turn-AllAwake}
use aio.Task.Wake.{AwakeIn, Awake, Live, Calls, Moves}
use aio.Runtime.{
  Runtime, become, take, call_back, pass, pass_called, invoke_taken, invoke_next, GoesWell, Occurs,
  acts, delays, drops, takes, calls, Runs, ends, then_runs,
}
use aio.Runtime.Inv.{
  Placed, become-Placed, take-Placed, head_uncalled, pass_cancelled-Placed, pass_called-Placed,
}
use aio.Runtime.Queues.{place}
use aio.Runtime.Changes.{
  Moves-AllAwake, exec_ops-AllAwake, exec_ops-Calls, timer-Moves, dropped-Moves,
}

module _ {V : Type 0} where
  -- Every task is awake, and every handle that is to be called stands where its loop finds it.
  pub record RuntimeInv (s : Runtime V) : Type 0 where
    pub awake : AllAwake s.world
    pub places : Placed s

  -- The task `u` waits for a future that is not finished and that will wake it.
  abbrev pub WaitsFor : World V → ℕ → Type 0
  WaitsFor w u =
      (f : ℕ) × (f < w.next_fut)
      × ((cbs : List Callback) × (waiting_callbacks (state w f) ≡ some cbs)
          × (has_callback (step_of u) cbs ≡ true))

  pub Awake-cases :
      (w : World V) (u : ℕ)
      → Awake w u
      → is_task_state (state w u) ≡ true
      → WaitsFor w u ⊎ ((h : ℕ) × Live w u h)
  Awake-cases w u a i = go (state w u) refl a.awake
    where
      go : (s : FutState V) → state w u ≡ s → AwakeIn w u s → WaitsFor w u ⊎ ((h : ℕ) × Live w u h)
      go (scheduled cbs h) e l = inr (h, l)
      go (cancelling cbs h x) e l = inr (h, l)
      go (running cbs f) e (b, inl x) = inl (f, b, x)
      go (running cbs f) e (b, inr (h, _, l)) = inr (h, l)
      go (created cbs) e l = absurd (ground (arith, (a.ready i).ready))
      go (pending cbs) e l = absurd (ground arith)
      go (success v s) e l = absurd (ground arith)
      go (failed x r s) e l = absurd (ground arith)

  -- A call that keeps the handles and goes well.
  pub record Called (n : ℕ) (code : Code V) (ops : List (Op V)) (h : ℕ) (w : World V) : Type 0 where
    pub fine : (call_back n code ops (w.handles h).callback w).1 ≡ ok tt
    pub keeps : Calls w (call_back n code ops (w.handles h).callback w).0
    pub after : AllAwake (after_call (call_back n code ops (w.handles h).callback w).0 h)

  pub call_back-Called :
      (n : ℕ) (code : Code V) (ops : List (Op V)) (h : ℕ) (w : World V)
      → h < w.next_handle
      → (w.handles h).executed ≡ false
      → (w.handles h).is_cancelled ≡ false
      → GoesWell n code (w.handles h).callback w
      → AllAwake w
      → Called n code ops h w
  unfolding call_back
  call_back-Called n code ops h w b u c g k = go (w.handles h).callback refl g
    where
      go :
          (cb : Callback)
          → (w.handles h).callback ≡ cb
          → GoesWell n code cb w
          → Called n code ops h w
      go (step_of t) e (fine, known) = record {
        fine = rw e fine;
        keeps = rw e (step-Calls n t code w k fine);
        after = rw e (
            turn-AllAwake n t h code w k (record { known = b; steps = e; unused = u; kept = c })
              fine known);
      }
      go (closure j) e g =
          let kept = exec_ops-Calls n ops w k in
          record {
            fine = rw e refl;
            keeps = rw e kept;
            after = rw e (
                mark_closure-AllAwake h j (exec_ops n ops w) (exec_ops-AllAwake n ops w k)
                  ((kept.old h b).callback_eq ∙ e));
          }

module _ (hq : Heapq ℕ) {V : Type 0} where
  become-RuntimeInv :
      (w : World V) (s : Runtime V)
      → Calls s.world w
      → AllAwake w
      → Placed s
      → RuntimeInv (become hq w s)
  unfolding become
  become-RuntimeInv w s k a p = record { awake = a; places = become-Placed hq w s k p }

  moved-RuntimeInv :
      (w : World V) (s : Runtime V)
      → ((t : ℕ) → Moves t s.world w)
      → RuntimeInv s
      → RuntimeInv (become hq w s)
  moved-RuntimeInv w s m i = become-RuntimeInv w s (m 0).calls (Moves-AllAwake m i.awake) i.places

  -- The next handle of the batch is called.
  called-RuntimeInv :
      (n : ℕ) (code : Code V) (ops : List (Op V)) (l h : ℕ) (hs : List ℕ) (s : Runtime V)
      → s.batches l ≡ h ∷ hs
      → (s.world.handles h).is_cancelled ≡ false
      → GoesWell n code (s.world.handles h).callback s.world
      → RuntimeInv s
      → RuntimeInv (invoke_taken hq n code ops l h hs s).0
  unfolding invoke_taken pass_called
  called-RuntimeInv n code ops l h hs s e c g i =
      let (b, _, u, _) = head_uncalled l h hs s e i.places in
      let called = call_back-Called n code ops h s.world b u c g i.awake in
      let w = (call_back n code ops (s.world.handles h).callback s.world).0 in
      rw (c, called.fine)
        (record {
          awake = called.after;
          places =
              pass_called-Placed l h hs (become hq w s) e
                (become-Placed hq w s called.keeps i.places);
        })

  pub event-RuntimeInv : {s x : Runtime V} → Occurs hq s x → RuntimeInv s → RuntimeInv x
  unfolding invoke_next take pass invoke_taken
  event-RuntimeInv (acts {s} n o) i =
      become-RuntimeInv (exec_op n o s.world) s (act-Calls n o s.world i.awake)
        (act-AllAwake n o s.world i.awake) i.places
  event-RuntimeInv (delays {s} when l k) i =
      moved-RuntimeInv _ s (λ t. timer-Moves t when l k s.world i.awake) i
  event-RuntimeInv (drops {s} h k e) i =
      moved-RuntimeInv _ s (λ t. dropped-Moves t h k s.world e i.awake) i
  event-RuntimeInv (takes {s} l threshold e) i = record {
    awake = i.awake;
    places = take-Placed hq l threshold s e i.places;
  }
  event-RuntimeInv (calls {s} n code ops l h hs e g) i =
      elim (Bool-cases (s.world.handles h).is_cancelled) [
        | inl c ↦
            rw (invoke_next, e, c)
              (record { awake = i.awake; places = pass_cancelled-Placed l h hs s e i.places c })
        | inr c ↦ rw (invoke_next, e) (called-RuntimeInv n code ops l h hs s e c (g c) i)
      ]

  pub run-RuntimeInv : {s x : Runtime V} → Runs hq s x → RuntimeInv s → RuntimeInv x
  run-RuntimeInv ends i = i
  run-RuntimeInv (then_runs v r) i = run-RuntimeInv r (event-RuntimeInv v i)

  -- The live handle of a task stands once at its loop, in the batch or to be called soon.
  stands_once :
      (s : Runtime V) (u h : ℕ)
      → RuntimeInv s
      → Live s.world u h
      → let l = (s.world.handles h).loop in
        times h (s.batches l) + times h (s.queues l).min_priority ≡ 1
  stands_once s u h i v =
      let l = (s.world.handles h).loop in
      let soon = i.places.steps_soon h u v.known v.steps in
      let there : 1 ≤ times h (s.batches l) + place none h (s.queues l) =
        subst (λ w. 1 ≤ times h (s.batches l) + place w h (s.queues l)) soon
          (i.places.placed h v.known v.unused v.kept) in
      ground (arith, there, i.places.once l h)

  -- It is taken by any turn.
  pub taken_once :
      (l threshold : ℕ) (s : Runtime V) (u h : ℕ)
      → RuntimeInv s
      → s.batches l ≡ []
      → Live s.world u h
      → (s.world.handles h).loop ≡ l
      → times h ((take hq l threshold s).batches l) ≡ 1
  unfolding take
  taken_once l threshold s u h i e v same =
      let hs = s.world.handles in
      let heap = i.places.heaps l in
      let here : (l == l) ≡ true = ground (arith, ==_iff l l) in
      let once : times h (s.batches l) + times h (s.queues l).min_priority ≡ 1 =
        subst (λ m. times h (s.batches m) + times h (s.queues m).min_priority ≡ 1) same
          (stands_once s u h i v) in
      rw here (
        ground (
          arith,
          once,
          ap (times h) e,
          pop_pending-takes threshold h hq hs (s.queues l) heap (ground (arith, v.kept)),
          waiting-pop_pending hq hs threshold h (s.queues l) heap,
          i.places.once l h,
        ))

  -- From a runtime in which every task is awake and the handles are placed, whatever is done to
  -- futures, timers and handles and in whatever order the loops take and call their handles, as
  -- long as steps raise nothing and coroutines yield futures that exist: a task that is not
  -- finished waits for a future that is not finished and has the task's step among its callbacks,
  -- or it has a live handle that steps it, and that stands exactly once with its loop: among the
  -- handles that the turn has taken and not passed, or among those to be called soon.
  pub run_steps :
      {s x : Runtime V}
      → Runs hq s x
      → RuntimeInv s
      → (u : ℕ) → is_task_state (state x.world u) ≡ true
      → WaitsFor x.world u
        ⊎ ((h : ℕ) × Live x.world u h
            × (let l = (x.world.handles h).loop in
                times h (x.batches l) + times h (x.queues l).min_priority ≡ 1))
  run_steps {s} {x} r i u t =
      let j = run-RuntimeInv r i in
      elim (Awake-cases x.world u (j.awake.awake u) t) [
        | inl w ↦ inl w
        | inr (h, v) ↦ inr (h, v, stands_once x u h j v)
      ]
