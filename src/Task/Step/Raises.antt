-- ===== src/Task/Step/Raises.antt =====
-- aio/future/pure.py: which exceptions `Task._step` raises into the loop.
use aio.Prelude.{
  ℕ, ◌≡◌, refl, ap, ◌∙◌, some, if◌then◌else◌, Bool, true, false, arith, Bool-cases, inl, inr,
}
use aio.Exceptions.{
  Exc, is_caught, ok, raised, runtime_error, future_finished_error, task_inner_error, base,
}
use aio.World.{task_future, World, is_task_state}
use aio.Future.{state, is_finished, exception, add_callback}
use aio.Future.Settle.{returns, raises}
use aio.Task.{CoroOut, yielded, yielded_other, stopped, threw, Code, is_inner_error}
use aio.Task.Step.{coro_after, send_to_coroutine, detach, wait_on, after_send, step}
use aio.Task.Protect.{is_task_state-shape}
use aio.Task.Step.Run.{
  IsReady, comes_out, ends_with, step_ends, inner_out, step-after_send, send_to_coroutine-Sent,
  settle_step_lem, Sent-is_task_state,
}
use aio.Task.Step.Wait.{detach-Same, step_raises_unfinished}

-- The exceptions of the protocol, and those that are neither an `Exception` nor a `Cancelled`.
abbrev pub may_leave_step : Exc → Bool
may_leave_step runtime_error = true
may_leave_step future_finished_error = true
may_leave_step task_inner_error = true
may_leave_step (base n) = true
may_leave_step _ = false

foreign_leaves : (x : Exc) → is_caught x ≡ false → may_leave_step x ≡ true
foreign_leaves x e = ground arith

-- An exception that goes to the task.
abbrev pub goes_to_task : Exc → Bool
goes_to_task e = if is_inner_error e then false else is_caught e

module _ {V : Type 0} where
  wait_on_raises :
      (t f : ℕ) (w : World V) (x : Exc)
      → is_task_state (state w t) ≡ true
      → (wait_on t f w).1 ≡ raised x
      → may_leave_step x ≡ true
  unfolding wait_on add_callback is_finished
  wait_on_raises t f w x i e = ground arith

  after_send_raises :
      (t : ℕ) (out : CoroOut V) (w : World V) (x : Exc)
      → (inner_out out ≡ false → (w.futs t).coro ≡ coro_after out)
      → (w.futs t).kind ≡ task_future
      → is_task_state (state w t) ≡ true
      → (after_send out t w).1 ≡ raised x
      → may_leave_step x ≡ true
  unfolding after_send
  after_send_raises t (yielded f) w x c k i e =
      wait_on_raises t f (detach t w) x
        (ground (
          arith,
          detach-Same t w i,
          is_task_state-shape (state w t),
          is_task_state-shape (state (detach t w) t),
        ))
        e
  after_send_raises t yielded_other w x c k i e = ground (arith, e)
  after_send_raises t (stopped v) w x c k i e =
      let (s, fine, done) = settle_step_lem t (returns v) w k (c refl) i in cc
  after_send_raises t (threw y) w x c k i e = elim (Bool-cases (is_inner_error y)) [
    | inl inner ↦ ground (arith, e, inner)
    | inr outer ↦
        let (s, fine, done) = settle_step_lem t (raises y) w k (c outer) i in
        ground (arith, e, outer, fine, foreign_leaves y)
  ]

  only_these :
      (n t : ℕ) (code : Code V) (w : World V) (x : Exc)
      → IsReady w t
      → (step n t code w).1 ≡ raised x
      → may_leave_step x ≡ true
  only_these n t code w x i e =
      let w₁ = (send_to_coroutine n t code w).0 in
      let sent = send_to_coroutine-Sent n t code w i in
      after_send_raises t (send_to_coroutine n t code w).1 w₁ x sent.coro_eq sent.kind_eq
        (Sent-is_task_state w w₁ t _ i sent) (rw (step-after_send n t code w i) at e)

  ends_with_thrown :
      (e : Exc) → goes_to_task e ≡ true → ends_with {V = V} (threw e) ≡ some (raises e)
  ends_with_thrown e g = ground arith

  -- What a step of a ready task raises into the loop is a `RuntimeError`, a `FutureFinishedError`,
  -- a `_TaskInnerError`, or an exception that is neither an `Exception` nor a `Cancelled`, and then
  -- the task is not finished by the step. And an `Exception` or a `Cancelled` that leaves the
  -- coroutine, and that is no `_TaskInnerError`, goes to the task: the step raises nothing, and the
  -- task is finished with that exception.
  pub step_raises_only :
      (n t : ℕ) (code : Code V) (w : World V)
      → IsReady w t
      → let (w', r) = step n t code w in
        ((x : Exc) → r ≡ raised x → (may_leave_step x ≡ true) × (is_finished w' t ≡ false))
        × ((e : Exc)
            → comes_out (state w t) (w.futs t).coro code ≡ threw e
            → goes_to_task e ≡ true
            → (r ≡ ok tt) × (is_finished w' t ≡ true) × ((exception t w').1 ≡ ok (some e)))
  step_raises_only n t code w i = (
    (λ x e. (only_these n t code w x i e, step_raises_unfinished n t code w i e)),
    (λ e out g.
        let (fine, done, _, exc) =
          step_ends n t code w (raises e) i (ap ends_with out ∙ ends_with_thrown e g) in
        (fine, done, exc)),
  )
