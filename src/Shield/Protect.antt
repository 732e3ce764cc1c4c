-- ===== src/Shield/Protect.antt =====
-- aio/funcs.py: a cancellation of a shield does not come to the future that is shielded.
use aio.Prelude.{
  ℕ, suc, ◌<◌, ==_iff, ◌≡◌, refl, ap, ◌∙◌, sym, true, false, none, some, List, arith, ◌==◌,
  Bool-cases, inl, inr,
}
use aio.Exceptions.{CancelArg, coerce_cancel_arg, ok, raised}
use aio.World.{
  Callback, closure, FutState, pending, plain_future, task_future, coro_suspended, running, World,
  is_done, waiting_callbacks, with_callbacks, remove_from,
}
use aio.Future.{
  handles_from, state, is_finished, result, remove_callback, future_cancel, await_resume,
  create_promise, new_promise, add_callback,
}
use aio.Future.Settle.{
  is_finished_by, Outcome, raises, settled, set_result-pending, set_result_other,
}
use aio.Task.{send, cancel_future}
use aio.Promises.{waiting, leave_promise, await_promise}
use aio.Task.Cancel.{WaitsThrough, here, next, cancel_reaches}
use aio.Shield.{shield_start, shield_resume, start_value, watch}
use aio.Shield.Mirror.{state-settled, shield_resume_result}

module _ {V : Type 0} where
  remove_waiting :
      (st : FutState V) (w : World V) (f : ℕ) (cb : Callback) (cbs : List Callback)
      → state w f ≡ st
      → waiting_callbacks st ≡ some cbs
      → state (remove_callback f cb w) f ≡ with_callbacks st (remove_from cb cbs)
  unfolding remove_callback
  remove_waiting st w f cb cbs e h = ground arith

  pub futs-remove_callback :
      (w : World V) (f p : ℕ) (cb : Callback)
      → (f == p) ≡ false
      → (remove_callback f cb w).futs p ≡ w.futs p
  unfolding remove_callback
  futs-remove_callback w f p cb ne = ground arith

  pub leave_finished : (w : World V) (p : ℕ) → is_finished w p ≡ true → leave_promise p w ≡ w
  unfolding leave_promise
  leave_finished w p d = ground arith

  pub await_other :
      (w : World V) (p f : ℕ) → (p == f) ≡ false → (await_promise p send w).0.futs f ≡ w.futs f
  unfolding await_promise await_resume result
  await_other w p f ne = ground arith

  pub await-finished :
      (w : World V) (p : ℕ)
      → is_finished w p ≡ true
      → is_finished (await_promise p send w).0 p ≡ true
  unfolding await_promise await_resume result is_finished
  await-finished w p d = ground arith

  pub cancel_promise :
      (n p : ℕ) (arg : CancelArg) (w : World V) (cbs : List Callback)
      → (w.futs p).kind ≡ plain_future
      → state w p ≡ pending cbs
      → cancel_future (suc n) p arg w ≡ (settled w p (raises (coerce_cancel_arg arg)) cbs, ok tt)
  unfolding cancel_future future_cancel
  cancel_promise n p arg w cbs k h =
      rw (k, cancel_future) (set_result-pending w p (raises (coerce_cancel_arg arg)) cbs k h)

  -- What `shield_resume` leaves of the future that is shielded, when the promise is finished.
  state-shield_resume :
      (w : World V) (f k p : ℕ) (cbs : List Callback)
      → (p == f) ≡ false
      → is_finished w p ≡ true
      → waiting_callbacks (state w f) ≡ some cbs
      → state (shield_resume f k p send w).0 f
        ≡ with_callbacks (state w f) (remove_from (closure k) cbs)
  unfolding shield_resume is_finished
  state-shield_resume w f k p cbs ne d h =
      let w1 : World V = (await_promise p send w).0 in
      let same = ap (λ x. x.state) (await_other w p f ne) in
      let kept =
        ap (λ x. is_done x.state) (futs-remove_callback w1 f p (closure k) (ground arith)) in
      ap (λ x. state x f)
        (leave_finished (remove_callback f (closure k) w1) p (kept ∙ await-finished w p d))
      ∙ remove_waiting (state w f) w1 f (closure k) cbs same h

  -- A cancellation that comes to the promise of a shield.
  promise_cancelled :
      (n f k p : ℕ) (arg : CancelArg) (w : World V) (cbs pcbs : List Callback)
      → (p == f) ≡ false
      → (w.futs p).kind ≡ plain_future
      → state w p ≡ pending pcbs
      → waiting_callbacks (state w f) ≡ some cbs
      → let (w', r) = cancel_future (suc n) p arg w in
        let (w'', r') = shield_resume f k p send w' in
        (r ≡ ok tt)
        × (r' ≡ raised (coerce_cancel_arg arg))
        × (state w'' f ≡ with_callbacks (state w f) (remove_from (closure k) cbs))
  promise_cancelled n f k p arg w cbs pcbs ne kind pen h =
      let o : Outcome V = raises (coerce_cancel_arg arg) in
      let w' : World V = settled w p o pcbs in
      let s = handles_from w.next_handle pcbs in
      let fin = state-settled w p o pcbs in
      let same : w'.futs f ≡ w.futs f =
        ap (λ x. x.0.futs f) (sym (set_result-pending w p o pcbs kind pen))
        ∙ set_result_other w p f none (some (coerce_cancel_arg arg)) ne in
      let st : state w' f ≡ state w f = ap (λ x. x.state) same in
      rw (cancel_promise n p arg w pcbs kind pen) (
        refl,
        shield_resume_result w' f k p o s fin,
        state-shield_resume w' f k p cbs ne (is_finished_by w' p o s fin)
              (ap waiting_callbacks st ∙ h)
            ∙ ap (λ x. with_callbacks x (remove_from (closure k) cbs)) st,
      )

  -- The promise of a shield is new.
  pub shield_start-waiting :
      (l f k p : ℕ) (w : World V)
      → (shield_start l f k w).1 ≡ ok (waiting p)
      → (p ≡ w.next_fut) × (((shield_start l f k w).0.futs p).kind ≡ plain_future)
  unfolding shield_start watch start_value create_promise new_promise is_finished add_callback
  shield_start-waiting l f k p w h = elim (Bool-cases (is_done (state w f))) [
    | inl d ↦ absurd (ground arith)
    | inr d ↦ ground arith
  ]

  -- A cancellation of a task that waits for the promise of a shield.
  pub awaiter_cancelled :
      (n f k p u : ℕ) (arg : CancelArg) (v : World V) (cbs ucbs pcbs : List Callback)
      → (p == f) ≡ false
      → (v.futs p).kind ≡ plain_future
      → (v.futs u).kind ≡ task_future
      → (v.futs u).coro ≡ coro_suspended
      → state v u ≡ running ucbs p
      → state v p ≡ pending pcbs
      → waiting_callbacks (state v f) ≡ some cbs
      → let (v', r) = cancel_future (suc (suc n)) u arg v in
        let (v'', r') = shield_resume f k p send v' in
        (r ≡ ok tt)
        × (r' ≡ raised (coerce_cancel_arg arg))
        × (state v'' f ≡ with_callbacks (state v f) (remove_from (closure k) cbs))
  unfolding is_finished
  awaiter_cancelled n f k p u arg v cbs ucbs pcbs ne kind uk uc us pen h =
      let chain : WaitsThrough v p 1 u = next ucbs p uk us uc (ground arith) (here refl) in
      let told = cancel_reaches 1 (suc (suc n)) u p pcbs arg v chain (omega arith) kind pen in
      let reached = cancel_promise n p arg v pcbs kind pen in
      rw (told ∙ sym reached) (promise_cancelled n f k p arg v cbs pcbs ne kind pen h)

  -- A task `u` is in `await shield(f)`, which waits for the promise `p`. Cancelling the task ends the
  -- promise of the shield, and the `await` raises the cancellation; the future or task `f` is as it
  -- was, less the callback of the shield. `w` is the store in which the shield is entered, and
  -- `v` one in which the task waits for it, with whatever happened between.
  pub shield_protects :
      (n l f k p u : ℕ) (arg : CancelArg) (w v : World V) (cbs ucbs pcbs : List Callback)
      → f < w.next_fut
      → (shield_start l f k w).1 ≡ ok (waiting p)
      → (v.futs p).kind ≡ ((shield_start l f k w).0.futs p).kind
      → (v.futs u).kind ≡ task_future
      → (v.futs u).coro ≡ coro_suspended
      → state v u ≡ running ucbs p
      → state v p ≡ pending pcbs
      → waiting_callbacks (state v f) ≡ some cbs
      → let (v', r) = cancel_future (suc (suc n)) u arg v in
        let (v'', r') = shield_resume f k p send v' in
        (r ≡ ok tt)
        × (r' ≡ raised (coerce_cancel_arg arg))
        × (state v'' f ≡ with_callbacks (state v f) (remove_from (closure k) cbs))
  shield_protects n l f k p u arg w v cbs ucbs pcbs lt start kept uk uc us pen h =
      let (new, plain) = shield_start-waiting l f k p w start in
      awaiter_cancelled n f k p u arg v cbs ucbs pcbs (ground (arith, ==_iff p f)) (kept ∙ plain) uk
        uc us pen h
