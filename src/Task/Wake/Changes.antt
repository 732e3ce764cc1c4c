-- ===== src/Task/Wake/Changes.antt =====
-- aio/future/pure.py: what the changes of single objects leave to the tasks that they are not
-- about.
use aio.Prelude.{
  ℕ, ◌≡◌, refl, subst, sym, inl, inr, true, false, Option, some, List, [], arith, ◌==◌, ==_iff,
  Bool-cases, update,
}
use aio.World.{
  Callback, step_of, FutState, World, waiting_callbacks, has_callback, handle_of, set_state,
  set_coro, Fut, CoroState,
}
use aio.Future.{state}
use aio.Task.Handles.{HandlesKept-refl}
use aio.Task.Wake.{settled_of, core, Live, Wakes, Tracked, Tracks, Moves}
use aio.Task.Wake.Handles.{Wakes-Live}

module _ {V : Type 0} where
  abbrev with_fut : World V → ℕ → Fut V → World V
  with_fut w f x = record w { futs = update w.futs f x }

  with_fut-Live :
      (w : World V) (f : ℕ) (x : Fut V) (u h : ℕ) → Live w u h → Live (with_fut w f x) u h
  with_fut-Live w f x u h l = record {
    known = l.known;
    steps = l.steps;
    unused = l.unused;
    kept = l.kept;
  }

  -- A future in the place of another, of which tasks other than `t` can expect what they could.
  pub fut_changed-Moves :
      (t : ℕ) (w : World V) (f : ℕ) (x : Fut V)
      → ((f == t) ≡ false
          → (x.kind ≡ (w.futs f).kind)
            × (x.coro ≡ (w.futs f).coro)
            × (core x.state ≡ core (state w f)))
      → ((u : ℕ) → (u == t) ≡ false → Wakes w u (state w f) → Wakes w u x.state)
      → Tracks w.next_handle w.handles (settled_of x.state)
      → Tracked w
      → Moves t w (with_fut w f x)
  fut_changed-Moves t w f x own wakes track k = record {
    frame = λ u ne. record {
      kind_eq = ground (arith, ==_iff f u, ==_iff u f);
      coro_eq = ground (arith, ==_iff f u, ==_iff u f);
      core_eq = ground (arith, ==_iff f u, ==_iff u f);
      live = with_fut-Live w f x u;
      wakes = λ g y z. Wakes-Live u _ (with_fut-Live w f x u) (elim (Bool-cases (f == g)) [
        | inl e ↦
            rw (state, e)
              (wakes u ne (subst (λ i. Wakes w u (state w i)) (sym ((==_iff f g).0 e)) z))
        | inr e ↦ rw (state, e) z
      ]);
      grows = omega arith;
    };
    still = record { tracked = λ g. ground (arith, k.tracked g) };
    calls = HandlesKept-refl w.next_handle w.handles;
  }

  pub unsettled :
      (s : FutState V) {cbs : List Callback} → waiting_callbacks s ≡ some cbs → settled_of s ≡ []
  unsettled s e = ground arith

  pub Wakes-waiting :
      (w : World V) (u : ℕ) (s : FutState V) {cbs : List Callback}
      → waiting_callbacks s ≡ some cbs
      → Wakes w u s
      → has_callback (step_of u) cbs ≡ true
  unfolding handle_of
  Wakes-waiting w u s e z = ground (arith, unsettled s e)

  -- A future that is not finished goes into another such state.
  pub pending_changed-Moves :
      (t : ℕ) (w : World V) (f : ℕ) (s : FutState V) (cbs cbs' : List Callback)
      → waiting_callbacks (state w f) ≡ some cbs
      → waiting_callbacks s ≡ some cbs'
      → ((f == t) ≡ false → core s ≡ core (state w f))
      → ((u : ℕ)
          → (u == t) ≡ false
          → has_callback (step_of u) cbs ≡ true
          → has_callback (step_of u) cbs' ≡ true)
      → Tracked w
      → Moves t w (set_state w f s)
  pending_changed-Moves t w f s cbs cbs' e e' own m k =
      fut_changed-Moves t w f _ (λ ne. (refl, refl, own ne))
        (λ u ne z. inl (cbs', e', m u ne (Wakes-waiting w u (state w f) e z)))
        (rw (unsettled s e') tt) k

  -- A task that is not finished goes into another state with the same set of callbacks.
  pub set_state-Moves :
      (t : ℕ) (w : World V) (s : FutState V) (cbs : List Callback)
      → waiting_callbacks (state w t) ≡ some cbs
      → waiting_callbacks s ≡ some cbs
      → Tracked w
      → Moves t w (set_state w t s)
  set_state-Moves t w s cbs e e' k =
      pending_changed-Moves t w t s cbs cbs e e' (λ ne. absurd (ground arith)) (λ u ne h. h) k

  pub set_coro-Moves :
      (t : ℕ) (w : World V) (c : CoroState) → Tracked w → Moves t w (set_coro w t c)
  set_coro-Moves t w c k =
      fut_changed-Moves t w t _ (λ ne. absurd (ground arith)) (λ u ne z. z) (k.tracked t) k

  pub current_task-Moves :
      (t : ℕ) (w : World V) (c : Option ℕ) → Tracked w → Moves t w (record w { current_task = c })
  current_task-Moves t w c k = record {
    frame = λ u ne. record {
      kind_eq = refl;
      coro_eq = refl;
      core_eq = refl;
      live = current_live u;
      wakes = λ f y z. Wakes-Live u (state w f) (current_live u) z;
      grows = omega arith;
    };
    still = record { tracked = k.tracked };
    calls = HandlesKept-refl w.next_handle w.handles;
  }
    where
      current_live : (u h : ℕ) → Live w u h → Live (record w { current_task = c }) u h
      current_live u h l = record {
        known = l.known;
        steps = l.steps;
        unused = l.unused;
        kept = l.kept;
      }
