-- ===== src/Task/Wake/Ops.antt =====
-- aio/future/pure.py: what a program does to futures and tasks leaves every task awake but the one
-- that does it.
use aio.Prelude.{
  ℕ, ◌<◌, ◌≡◌, refl, subst, sym, ◌⊎◌, inl, inr, true, false, Option, none, List, [], arith, ◌==◌,
  ==_iff, Bool-cases, Option-cases,
}
use aio.World.{
  Callback, step_of, FutState, created, scheduled, World, waiting_callbacks, is_task_state,
  set_state, call_soon, Fut,
}
use aio.Exceptions.{raised, future_finished_error, Exc}
use aio.Future.Settle.{Outcome, returns, raises, finished_by}
use aio.Future.{handles_from, state, add_fut}
use aio.Future.{set_result, base_set_result, task_set_result, create_promise, new_promise}
use aio.Future.Settle.{val_of, exc_of, base_set_result_lem}
use aio.World.{task_future, with_none, coro_created}
use aio.Task.Step.Run.{ready_state}
use aio.Task.{create_task, schedule_first_step}
use aio.Task.Handles.{HandlesKept-refl}
use aio.Task.Wake.{
  AwakeIn, settled_of, Live, Tracked, Moves, Moves-trans, Awake, Wakeful, Awake-finished,
  Wakeful-move,
}
use aio.Task.Wake.Changes.{set_state-Moves}
use aio.Task.Wake.Handles.{call_soon-Moves, Wakes-Live}
use aio.Task.Wake.Callbacks.{settled-Moves}

module _ {V : Type 0} where
  finished_by-is_task_state :
      (o : Outcome V) (s : List (Callback × ℕ)) → is_task_state (finished_by o s) ≡ false
  finished_by-is_task_state (returns v) s = refl
  finished_by-is_task_state (raises e) s = refl

  base_set_result_finished :
      (w : World V) (f : ℕ) (o : Outcome V)
      → waiting_callbacks (state w f) ≡ none
      → base_set_result f (val_of o) (exc_of o) w ≡ (w, raised future_finished_error)
  unfolding base_set_result
  base_set_result_finished w f (returns v) h = rw (h, base_set_result)
  base_set_result_finished w f (raises e) h = rw (h, base_set_result)

  set_result_world :
      (f : ℕ) (val : Option V) (exc : Option Exc) (w : World V)
      → ((set_result f val exc w).0 ≡ w)
        ⊎ ((set_result f val exc w).0 ≡ (base_set_result f val exc w).0)
  unfolding set_result task_set_result
  set_result_world f val exc w = ground arith

  add_fut-Live : (w : World V) (x : Fut V) (u h : ℕ) → Live w u h → Live (add_fut w x) u h
  add_fut-Live w x u h l = record {
    known = l.known;
    steps = l.steps;
    unused = l.unused;
    kept = l.kept;
  }

  add_fut-Moves :
      (w : World V) (x : Fut V)
      → settled_of x.state ≡ []
      → Tracked w
      → Moves w.next_fut w (add_fut w x)
  add_fut-Moves w x e k = record {
    frame = λ u ne. record {
      kind_eq = ground (arith, ==_iff w.next_fut u, ==_iff u w.next_fut);
      coro_eq = ground (arith, ==_iff w.next_fut u, ==_iff u w.next_fut);
      core_eq = ground (arith, ==_iff w.next_fut u, ==_iff u w.next_fut);
      live = add_fut-Live w x u;
      wakes = λ g y z.
          let other : (w.next_fut == g) ≡ false = ground (arith, ==_iff w.next_fut g) in
          Wakes-Live u _ (add_fut-Live w x u) (rw (state, other) z);
      grows = omega arith;
    };
    still = record {
      tracked = λ g. elim (Bool-cases (w.next_fut == g)) [
        | inl new ↦ rw (state, new) (rw e tt)
        | inr old ↦ rw (state, old) (k.tracked g)
      ];
    };
    calls = HandlesKept-refl w.next_handle w.handles;
  }

  -- The task `t` goes into the state `s`, which waits for a new handle that steps it.
  abbrev pub called : World V → ℕ → FutState V → World V
  called w t s = set_state (call_soon w (w.futs t).loop (step_of t) with_none) t s

  schedule_created :
      (t : ℕ) (w : World V) (cbs : List Callback)
      → state w t ≡ created cbs
      → (w.futs t).coro ≡ coro_created
      → (schedule_first_step t w).0 ≡ called w t (scheduled cbs w.next_handle)
  unfolding schedule_first_step
  schedule_created t w cbs e c = ground arith

  pub called-Awake :
      (t : ℕ) (w : World V) (s : FutState V)
      → t < w.next_fut
      → (w.futs t).kind ≡ task_future
      → ready_state s (w.futs t).coro ≡ true
      → (Live (called w t s) t w.next_handle → AwakeIn (called w t s) t s)
      → Awake (called w t s) t
  called-Awake t w s b k c a =
      let now : state (called w t s) t ≡ s = ground arith in
      record {
        ready = λ i. record { is_task = ground arith; known = b; ready = ground arith };
        awake = subst (AwakeIn (called w t s) t) (sym now) (
            a (record {
              known = omega arith;
              steps = ground arith;
              unused = ground arith;
              kept = ground arith;
            }));
      }

module _ {V : Type 0} {base : World V} where
  base_set_result-Wakeful :
      (t f : ℕ) (o : Outcome V) (w : World V)
      → Wakeful base t w
      → Wakeful base t (base_set_result f (val_of o) (exc_of o) w).0
  unfolding base_set_result
  base_set_result-Wakeful t f o w k = elim (Option-cases (waiting_callbacks (state w f))) [
    | inl e ↦ subst (λ m. Wakeful base t m.0) (sym (base_set_result_finished w f o e)) k
    | inr (cbs, e) ↦ rw (base_set_result_lem w f o cbs e) (
        Wakeful-move k (settled-Moves w f o cbs e k.tracked) (λ ne.
          Awake-finished _ f
            (ground (arith, finished_by-is_task_state o (handles_from w.next_handle cbs)))))
  ]

  pub set_result-Wakeful :
      (t f : ℕ) (o : Outcome V) (w : World V)
      → Wakeful base t w
      → Wakeful base t (set_result f (val_of o) (exc_of o) w).0
  set_result-Wakeful t f o w k = elim (set_result_world f (val_of o) (exc_of o) w) [
    | inl e ↦ rw e k
    | inr e ↦ rw e (base_set_result-Wakeful t f o w k)
  ]

  pub create_promise-Wakeful :
      (t l : ℕ) (w : World V) → Wakeful base t w → Wakeful base t (create_promise l w).0
  unfolding create_promise new_promise
  create_promise-Wakeful t l w k =
      Wakeful-move k (add_fut-Moves w _ refl k.tracked)
        (λ ne. Awake-finished _ w.next_fut (ground arith))

  pub create_task-Wakeful :
      (t l : ℕ) (w : World V) → Wakeful base t w → Wakeful base t (create_task l coro_created w).0
  unfolding create_task
  create_task-Wakeful t l w k =
      let n = w.next_fut in
      let made =
        add_fut w
          (record { kind = task_future; loop = l; state = created []; coro = coro_created }) in
      let first = add_fut-Moves w _ refl k.tracked in
      let second = call_soon-Moves n made (made.futs n).loop (step_of n) with_none first.still in
      rw (schedule_created n made [] (ground arith) (ground arith)) (
        Wakeful-move k
          (Moves-trans n first (
            Moves-trans n second (
              set_state-Moves n _ (scheduled [] w.next_handle) [] (ground arith) refl
                second.still)))
          (λ ne.
            called-Awake n made (scheduled [] w.next_handle) (omega arith) (ground arith)
              (ground arith) (λ x. x)))
