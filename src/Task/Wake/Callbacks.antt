-- ===== src/Task/Wake/Callbacks.antt =====
-- aio/future/pure.py: what the methods of a future leave to the tasks that wait for it or for
-- others.
use aio.Prelude.{
  ℕ, ◌≡◌, refl, subst, sym, ap, ◌∙◌, inl, inr, Bool, true, false, none, some, List, [], ◌∷◌, arith,
  ◌==◌, Option-cases,
}
use aio.World.{
  Callback, step_of, same_callback, FutState, pending, created, scheduled, cancelling, running,
  success, failed, World, waiting_callbacks, has_callback, handle_of, pop_from, remove_from, add_to,
  with_callbacks, set_state, cancel_handle, call_soon,
}
use aio.Exceptions.{Exc}
use aio.Future.Settle.{Outcome, returns, raises, finished_by, settled}
use aio.World.{with_future}
use aio.Future.{call_all, handles_from, state, add_callback, remove_callback, result}
use aio.Future.Callbacks.{
  next_handle-call_all, handles-call_all, futs-call_all, handle_of-handles_from,
  has_callback-add_to, has_callback-remove_from, handle_of-pop_from,
}
use aio.Task.Handles.{cancelled-Keeps}
use aio.Task.Wake.{settled_of, core, Wakes, Tracked, Tracks, Moves, Moves-refl, Moves-trans}
use aio.Task.Handles.{cancelled-Keeps}
use aio.Task.Wake.Changes.{fut_changed-Moves, Wakes-waiting, pending_changed-Moves}
use aio.Task.Wake.Handles.{call_soon-Moves, pop_from-Tracks, handle_of-Tracks, handle_changed-Moves}

module _ {V : Type 0} where
  with_waiting :
      (s : FutState V) {cbs : List Callback} (cbs' : List Callback)
      → waiting_callbacks s ≡ some cbs
      → (waiting_callbacks (with_callbacks s cbs') ≡ some cbs')
        × (core (with_callbacks s cbs') ≡ core s)
  with_waiting s cbs' e = ground arith

  pub add_callback-Moves :
      (t : ℕ) (w : World V) (f : ℕ) (cb : Callback) → Tracked w → Moves t w (add_callback f cb w).0
  unfolding add_callback
  add_callback-Moves t w f cb k = elim (Option-cases (waiting_callbacks (state w f))) [
    | inl e ↦ rw (add_callback, e) (Moves-refl t w k)
    | inr (cbs, e) ↦
        let (p, q) = with_waiting (state w f) (add_to cb cbs) e in
        rw (add_callback, e)
          (pending_changed-Moves t w f _ cbs (add_to cb cbs) e p (λ ne. q)
            (λ u ne h. ground (arith, has_callback-add_to (step_of u) cb cbs)) k)
  ]

  removed_waiting-Moves :
      (t : ℕ) (w : World V) (f : ℕ) (cb : Callback) (s : FutState V) (cbs : List Callback)
      → ((u : ℕ) → (u == t) ≡ false → same_callback cb (step_of u) ≡ false)
      → Tracked w
      → state w f ≡ s
      → waiting_callbacks s ≡ some cbs
      → Moves t w (set_state w f (with_callbacks s (remove_from cb cbs)))
  removed_waiting-Moves t w f cb s cbs o k e h =
      let (p, q) = with_waiting s (remove_from cb cbs) h in
      pending_changed-Moves t w f _ cbs (remove_from cb cbs) (ap waiting_callbacks e ∙ h) p
        (λ ne. q ∙ ap core (sym e))
        (λ u ne m. has_callback-remove_from (step_of u) cb cbs (o u ne) ∙ m) k

  read-Wakes :
      {w : World V} {u : ℕ} (x : Exc) (r : Bool) (s : List (Callback × ℕ))
      → Wakes w u (failed x r s)
      → Wakes w u (failed x true s)
  read-Wakes x r s (inl (cbs, e, h)) = cc
  read-Wakes x r s (inr y) = inr y

  popped-Wakes :
      {w : World V} {u : ℕ} (cb : Callback) (s s' : FutState V)
      → settled_of s' ≡ pop_from cb (settled_of s)
      → waiting_callbacks s ≡ none
      → same_callback cb (step_of u) ≡ false
      → Wakes w u s
      → Wakes w u s'
  popped-Wakes cb s s' p q o (inl (cbs, e, h)) = cc
  popped-Wakes {w} {u} cb s s' p q o (inr (h, e, x)) =
      inr (
        h,
        ap (handle_of (step_of u)) p ∙ handle_of-pop_from (step_of u) cb (settled_of s) o ∙ e,
        x,
      )

  popped-Moves :
      (t : ℕ) (w : World V) (f : ℕ) (cb : Callback) (s s' : FutState V) (h : ℕ)
      → ((u : ℕ) → (u == t) ≡ false → same_callback cb (step_of u) ≡ false)
      → Tracked w
      → state w f ≡ s
      → settled_of s' ≡ pop_from cb (settled_of s)
      → waiting_callbacks s ≡ none
      → core s' ≡ core s
      → handle_of cb (settled_of s) ≡ some h
      → Moves t w (cancel_handle (set_state w f s') h)
  popped-Moves t w f cb s s' h o k e p q c m =
      let known : _ = subst (λ x. Tracks w.next_handle w.handles (settled_of x)) e (k.tracked f) in
      let mine : _ = handle_of-Tracks w.next_handle w.handles cb (settled_of s) known m in
      let first : Moves t w (set_state w f s') =
        fut_changed-Moves t w f _ (λ ne. (refl, refl, c ∙ ap core (sym e)))
          (λ u ne z. popped-Wakes cb s s' p q (o u ne) (subst (Wakes w u) e z))
          (rw p (pop_from-Tracks w.next_handle w.handles cb (settled_of s) known)) k in
      Moves-trans t first (
        handle_changed-Moves t (set_state w f s') h _ (cancelled-Keeps (w.handles h))
          (λ u ne. rw (mine.1) (o u ne)) first.still)

  pub remove_callback-Moves :
      (t : ℕ) (w : World V) (f : ℕ) (cb : Callback)
      → ((u : ℕ) → (u == t) ≡ false → same_callback cb (step_of u) ≡ false)
      → Tracked w
      → Moves t w (remove_callback f cb w)
  unfolding remove_callback
  remove_callback-Moves t w f cb o k = go (state w f) refl
    where
      go : (s : FutState V) → state w f ≡ s → Moves t w (remove_callback f cb w)
      go (pending cbs) e =
          rw (remove_callback, e) (removed_waiting-Moves t w f cb (pending cbs) cbs o k e refl)
      go (created cbs) e =
          rw (remove_callback, e) (removed_waiting-Moves t w f cb (created cbs) cbs o k e refl)
      go (scheduled cbs h) e =
          rw (remove_callback, e) (removed_waiting-Moves t w f cb (scheduled cbs h) cbs o k e refl)
      go (cancelling cbs h x) e =
          rw (remove_callback, e)
            (removed_waiting-Moves t w f cb (cancelling cbs h x) cbs o k e refl)
      go (running cbs g) e =
          rw (remove_callback, e) (removed_waiting-Moves t w f cb (running cbs g) cbs o k e refl)
      go (success v s) e = elim (Option-cases (handle_of cb s)) [
        | inl n ↦ rw (remove_callback, e, n) (Moves-refl t w k)
        | inr (h, m) ↦
            rw (remove_callback, e, m)
              (popped-Moves t w f cb (success v s) (success v (pop_from cb s)) h o k e refl refl
                refl m)
      ]
      go (failed x r s) e = elim (Option-cases (handle_of cb s)) [
        | inl n ↦ rw (remove_callback, e, n) (Moves-refl t w k)
        | inr (h, m) ↦
            rw (remove_callback, e, m)
              (popped-Moves t w f cb (failed x r s) (failed x r (pop_from cb s)) h o k e refl refl
                refl m)
      ]

  pub result-Moves : (t : ℕ) (w : World V) (f : ℕ) → Tracked w → Moves t w (result f w).0
  unfolding result
  result-Moves t w f k = go (state w f) refl
    where
      go : (s : FutState V) → state w f ≡ s → Moves t w (result f w).0
      go (pending cbs) e = rw (result, e) (Moves-refl t w k)
      go (created cbs) e = rw (result, e) (Moves-refl t w k)
      go (scheduled cbs h) e = rw (result, e) (Moves-refl t w k)
      go (cancelling cbs h x) e = rw (result, e) (Moves-refl t w k)
      go (running cbs g) e = rw (result, e) (Moves-refl t w k)
      go (success v s) e = rw (result, e) (Moves-refl t w k)
      go (failed x r s) e =
          rw (result, e)
            (fut_changed-Moves t w f _ (λ ne. (refl, refl, ap core (sym e)))
              (λ u ne z. read-Wakes x r s (subst (Wakes w u) e z))
              (subst (λ y. Tracks w.next_handle w.handles (settled_of y)) e (k.tracked f)) k)

  call_all-Moves :
      (t : ℕ) (w : World V) (l f : ℕ) (cbs : List Callback)
      → Tracked w
      → Moves t w (call_all w l f cbs)
  unfolding call_all
  call_all-Moves t w l f [] k = Moves-refl t w k
  call_all-Moves t w l f (cb ∷ cbs) k =
      let first = call_soon-Moves t w l cb (with_future f) k in
      Moves-trans t first (call_all-Moves t (call_soon w l cb (with_future f)) l f cbs first.still)

  handles_from-Tracks :
      (w : World V) (l f : ℕ) (cbs : List Callback)
      → let x = call_all w l f cbs in
        Tracks x.next_handle x.handles (handles_from w.next_handle cbs)
  unfolding call_all handles_from
  handles_from-Tracks w l f [] = tt
  handles_from-Tracks w l f (cb ∷ cbs) = (
    omega (arith, next_handle-call_all next l f cbs),
    ap (λ h. h.callback) (handles-call_all next l f w.next_handle cbs (omega arith)) ∙ ground arith,
    handles_from-Tracks next l f cbs,
  )
    where
      next : World V
      next = call_soon w l cb (with_future f)

  settled_of-finished_by :
      (o : Outcome V) (s : List (Callback × ℕ)) → settled_of (finished_by o s) ≡ s
  settled_of-finished_by (returns v) s = refl
  settled_of-finished_by (raises e) s = refl

  settled-Wakes :
      (w : World V) (f u : ℕ) (o : Outcome V) (cbs : List Callback)
      → has_callback (step_of u) cbs ≡ true
      → let x = call_all w (w.futs f).loop f cbs in
        Wakes x u (finished_by o (handles_from w.next_handle cbs))
  settled-Wakes w f u o cbs m =
      let (h, e, low, high, made) = handle_of-handles_from w (w.futs f).loop f (step_of u) cbs m in
      inr (
        h,
        ap (handle_of (step_of u)) (settled_of-finished_by o _) ∙ e,
        record {
          known = omega (arith, next_handle-call_all w (w.futs f).loop f cbs);
          steps = ap (λ x. x.callback) made;
          unused = ap (λ x. x.executed) made;
          kept = ap (λ x. x.is_cancelled) made;
        },
      )

  -- A future that is finished wakes those that wait for it.
  pub settled-Moves :
      (w : World V) (f : ℕ) (o : Outcome V) (cbs : List Callback)
      → waiting_callbacks (state w f) ≡ some cbs
      → Tracked w
      → Moves f w (settled w f o cbs)
  settled-Moves w f o cbs e k =
      let made = call_all w (w.futs f).loop f cbs in
      let same =
        ap (λ fs. waiting_callbacks (fs f).state) (futs-call_all w (w.futs f).loop f cbs) in
      let first = call_all-Moves f w (w.futs f).loop f cbs k in
      Moves-trans f first (
        fut_changed-Moves f made f _ (λ ne. ground arith)
          (λ u ne z. settled-Wakes w f u o cbs (Wakes-waiting made u (state made f) (same ∙ e) z))
          (rw (settled_of-finished_by o (handles_from w.next_handle cbs))
            (handles_from-Tracks w (w.futs f).loop f cbs))
          first.still)
