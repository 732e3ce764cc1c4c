-- ===== src/Task/Step/Wait.antt =====
-- aio/future/pure.py: what `Task._step` leaves when the coroutine yields, and when the step raises.
use aio.Prelude.{
  ℕ, ◌≡◌, refl, ap, ◌∙◌, true, false, some, List, arith, ◌==◌, Bool-cases, Option-cases, inl, inr,
}
use aio.Exceptions.{Exc, ok, raised}
use aio.World.{
  Callback, step_of, FutState, pending, created, scheduled, cancelling, running, success, failed,
  coro_suspended, task_future, World, waiting_callbacks, is_done, is_task_state, with_callbacks,
  set_state, has_callback, add_to,
}
use aio.Future.{state, is_finished, add_callback}
use aio.Future.Callbacks.{same_callback_refl, has_callback-add_to}
use aio.Future.Settle.{returns, raises}
use aio.Task.{CoroOut, yielded, yielded_other, stopped, threw, Code, is_inner_error}
use aio.Task.Step.{coro_after, send_to_coroutine, check_yielded, detach, wait_on, after_send, step}
use aio.Task.Protect.{Same, Same-refl, remove_callback-Same, is_task_state-shape}
use aio.Task.Step.Run.{
  IsReady, inner_out, task_state_waits, comes_out, step-after_send, send_to_coroutine-out,
  send_to_coroutine-Sent, settle_step_lem, Sent-is_task_state,
}

module _ {V : Type 0} where
  pub detach-Same : (t : ℕ) (w : World V) → is_task_state (state w t) ≡ true → Same w (detach t w) t
  unfolding detach
  detach-Same t w i = go (state w t) refl
    where
      go : (s : FutState V) → state w t ≡ s → Same w (detach t w) t
      go (running cbs f) e = rw (e, detach) (remove_callback-Same w t f (step_of t) i)
      go (pending cbs) e = rw (e, detach) (Same-refl w t)
      go (created cbs) e = rw (e, detach) (Same-refl w t)
      go (scheduled cbs h) e = rw (e, detach) (Same-refl w t)
      go (cancelling cbs h x) e = rw (e, detach) (Same-refl w t)
      go (success v j) e = rw (e, detach) (Same-refl w t)
      go (failed x r j) e = rw (e, detach) (Same-refl w t)

  unfinished_waits :
      (s : FutState V)
      → is_done s ≡ false
      → (cbs : List Callback) × (waiting_callbacks s ≡ some cbs)
  unfinished_waits s u = elim (Option-cases (waiting_callbacks s)) [
    | inl e ↦ absurd (ground arith)
    | inr x ↦ x
  ]

  -- The task `t` waits for the future `f`, which is not finished, is not the task, is of the same
  -- loop, and will call `_step` of the task.
  pub record Waits (w : World V) (t f : ℕ) : Type 0 where
    pub callbacks : List Callback
    pub waiters : List Callback
    pub waits : state w t ≡ running callbacks f
    pub suspended : (w.futs t).coro ≡ coro_suspended
    pub unfinished : waiting_callbacks (state w f) ≡ some waiters
    pub registered : has_callback (step_of t) waiters ≡ true
    pub other : (f == t) ≡ false
    pub same_loop : (w.futs f).loop ≡ (w.futs t).loop

  -- The world in which the task `t` waits for `f`.
  abbrev waiting_world : World V → ℕ → ℕ → List Callback → List Callback → World V
  waiting_world w t f cbs waiters =
      set_state (set_state w f (with_callbacks (state w f) (add_to (step_of t) waiters))) t
        (running cbs f)

  wait_on-pending :
      (t f : ℕ) (w : World V) (cbs waiters : List Callback)
      → (f == t) ≡ false
      → (w.futs f).loop ≡ (w.futs t).loop
      → waiting_callbacks (state w f) ≡ some waiters
      → waiting_callbacks (state w t) ≡ some cbs
      → (w.futs t).coro ≡ coro_suspended
      → wait_on t f w ≡ (waiting_world w t f cbs waiters, ok tt)
  unfolding wait_on add_callback
  wait_on-pending t f w cbs waiters ne l p q c = ground arith

  waiting_world-Waits :
      (t f : ℕ) (w : World V) (cbs waiters : List Callback)
      → (f == t) ≡ false
      → (w.futs f).loop ≡ (w.futs t).loop
      → waiting_callbacks (state w f) ≡ some waiters
      → (w.futs t).coro ≡ coro_suspended
      → Waits (waiting_world w t f cbs waiters) t f
  waiting_world-Waits t f w cbs waiters ne l p c = record {
    callbacks = cbs;
    waiters = add_to (step_of t) waiters;
    waits = ground arith;
    suspended = ground arith;
    unfinished = ground arith;
    registered =
        rw (has_callback-add_to (step_of t) (step_of t) waiters)
          (ground (arith, same_callback_refl (step_of t)));
    other = ne;
    same_loop = ground arith;
  }

  -- `add_callback` succeeds on a future that is not finished, and on no other.
  wait_on-ok :
      (t f : ℕ) (w : World V)
      → (wait_on t f w).1 ≡ ok tt
      → ((f == t) ≡ false) × ((w.futs f).loop ≡ (w.futs t).loop) × (is_done (state w f) ≡ false)
  unfolding wait_on add_callback is_finished
  wait_on-ok t f w e = ground arith

  wait_on-Waits :
      (t f : ℕ) (w : World V)
      → is_task_state (state w t) ≡ true
      → (w.futs t).coro ≡ coro_suspended
      → (wait_on t f w).1 ≡ ok tt
      → Waits (wait_on t f w).0 t f
  wait_on-Waits t f w i c e =
      let (ne, l, u) = wait_on-ok t f w e in
      let (waiters, p) = unfinished_waits (state w f) u in
      let (cbs, q) = task_state_waits (state w t) i in
      rw (wait_on-pending t f w cbs waiters ne l p q c)
        (waiting_world-Waits t f w cbs waiters ne l p c)

  after_send-yielded :
      (t f : ℕ) (w : World V) → after_send (yielded f) t w ≡ wait_on t f (detach t w)
  unfolding after_send
  after_send-yielded t f w = refl

  pub step-yielded :
      (n t f : ℕ) (code : Code V) (w : World V)
      → IsReady w t
      → comes_out (state w t) (w.futs t).coro code ≡ yielded f
      → step n t code w ≡ wait_on t f (detach t (send_to_coroutine n t code w).0)
  unfolding check_yielded
  step-yielded n t f code w i e =
      step-after_send n t code w i
      ∙ ap (λ out. after_send out t (send_to_coroutine n t code w).0)
          (send_to_coroutine-out n t code w i ∙ ap check_yielded e)
      ∙ after_send-yielded t f _

  -- If the coroutine of a ready task yields a future and the step raises nothing, the task waits
  -- for that future: it is a future of the same loop, not the task, and not finished, and its
  -- callbacks have the task's step.
  pub step-Waits :
      (n t f : ℕ) (code : Code V) (w : World V)
      → IsReady w t
      → comes_out (state w t) (w.futs t).coro code ≡ yielded f
      → (step n t code w).1 ≡ ok tt
      → Waits (step n t code w).0 t f
  unfolding check_yielded
  step-Waits n t f code w i e fine =
      let w₁ = (send_to_coroutine n t code w).0 in
      let out = send_to_coroutine-out n t code w i ∙ ap check_yielded e in
      let sent = send_to_coroutine-Sent n t code w i in
      let inside = Sent-is_task_state w w₁ t _ i sent in
      let same = detach-Same t w₁ inside in
      rw (step-yielded n t f code w i e) (
        wait_on-Waits t f (detach t w₁)
          (ground
            (arith, is_task_state-shape (state w₁ t), is_task_state-shape (state (detach t w₁) t)))
          (same.coro_eq ∙ sent.coro_eq (rw out refl) ∙ rw out refl)
          (rw (step-yielded n t f code w i e) at fine))

  detach_unfinished :
      (t : ℕ) (w : World V) → is_task_state (state w t) ≡ true → is_finished (detach t w) t ≡ false
  unfolding is_finished
  detach_unfinished t w i = ground (
    arith,
    detach-Same t w i,
    is_task_state-shape (state w t),
    is_task_state-shape (state (detach t w) t),
  )

  wait_on-raised :
      (t f : ℕ) (w : World V) {x : Exc}
      → is_task_state (state w t) ≡ true
      → (wait_on t f w).1 ≡ raised x
      → is_finished (wait_on t f w).0 t ≡ false
  unfolding wait_on add_callback is_finished
  wait_on-raised t f w i e = ground arith

  after_send-raised :
      (t : ℕ) (out : CoroOut V) (w : World V) {x : Exc}
      → (inner_out out ≡ false → (w.futs t).coro ≡ coro_after out)
      → (w.futs t).kind ≡ task_future
      → is_task_state (state w t) ≡ true
      → (after_send out t w).1 ≡ raised x
      → is_finished (after_send out t w).0 t ≡ false
  unfolding after_send
  after_send-raised t (yielded f) w c k i e =
      wait_on-raised t f (detach t w)
        (ground (
          arith,
          detach-Same t w i,
          is_task_state-shape (state w t),
          is_task_state-shape (state (detach t w) t),
        ))
        e
  after_send-raised t yielded_other w c k i e = detach_unfinished t w i
  after_send-raised t (stopped v) w c k i e =
      let (s, fine, done) = settle_step_lem t (returns v) w k (c refl) i in cc
  after_send-raised t (threw x) w c k i e = elim (Bool-cases (is_inner_error x)) [
    | inl inner ↦ rw inner (detach_unfinished t w i)
    | inr outer ↦
        let (s, fine, done) = settle_step_lem t (raises x) w k (c outer) i in
        ground (arith, detach_unfinished t w i)
  ]

  -- If a step of a ready task raises, the task is not finished by it.
  pub step_raises_unfinished :
      (n t : ℕ) (code : Code V) (w : World V) {x : Exc}
      → IsReady w t
      → (step n t code w).1 ≡ raised x
      → is_finished (step n t code w).0 t ≡ false
  step_raises_unfinished n t code w i e =
      let w₁ = (send_to_coroutine n t code w).0 in
      let sent = send_to_coroutine-Sent n t code w i in
      let inside = Sent-is_task_state w w₁ t _ i sent in
      rw (step-after_send n t code w i) (
        after_send-raised t (send_to_coroutine n t code w).1 w₁ sent.coro_eq sent.kind_eq inside
          (rw (step-after_send n t code w i) at e))
