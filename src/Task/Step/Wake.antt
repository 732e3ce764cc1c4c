-- ===== src/Task/Step/Wake.antt =====
-- aio/future/pure.py: a step of a task leaves the other tasks awake.
use aio.Prelude.{
  ℕ, ◌≡◌, refl, inl, inr, true, Option, none, some, List, [], ◌∷◌, arith, ◌==◌, Bool-cases,
  Option-cases,
}
use aio.Exceptions.{Exc, is_caught, is_cancel, Result, ok, raised}
use aio.World.{
  Callback, step_of, closure, FutState, pending, created, scheduled, cancelling, running, success,
  failed, World, waiting_callbacks, is_task_state, CoroState, coro_created, coro_suspended,
  coro_running, coro_closed, set_coro,
}
use aio.Future.{state, add_callback, new_promise, promise_set_result, promise_set_exception}
use aio.Future.Settle.{Outcome, returns, raises, val_of, exc_of}
use aio.Task.{
  Resume, send, throw, CoroOut, yielded, yielded_other, stopped, threw, Op, adds_callback,
  removes_callback, sets_result, sets_exception, cancels, reads_result, creates_promise,
  creates_task, Code, is_inner_error, is_suspended_coro,
}
use aio.Task.Step.{
  exec_op, exec_ops, on_promise, run_segment, resume_coro, resume_by, send_to_coroutine, detach,
  run_on, wait_on, settle_step, after_send,
}
use aio.Task.Protect.{IsActive, IsActive-Same, exec_op-Same}
use aio.Task.Step.Run.{IsReady, ready_is_task_state}
use aio.Task.Wake.{Wakeful, Wakeful-Moves}
use aio.Task.Wake.Changes.{set_state-Moves, set_coro-Moves, current_task-Moves}
use aio.Task.Wake.Callbacks.{add_callback-Moves, remove_callback-Moves, result-Moves}
use aio.Task.Wake.Ops.{set_result-Wakeful, create_promise-Wakeful, create_task-Wakeful}
use aio.Task.Wake.Cancel.{other_step, cancel_future-Wakeful}

module _ {V : Type 0} {base : World V} where
  on_promise-Wakeful :
      (t : ℕ) (r : Result ℕ) (m : World V → World V × Result (Unit {0})) (w : World V)
      → Wakeful base t w
      → Wakeful base t (m w).0
      → Wakeful base t (on_promise r m w)
  unfolding on_promise
  on_promise-Wakeful t (ok p) m w k h = h
  on_promise-Wakeful t (raised e) m w k h = k

  promise_set_exception-Wakeful :
      (t f : ℕ) (e : Exc) (w : World V)
      → Wakeful base t w
      → Wakeful base t (promise_set_exception f e w).0
  unfolding promise_set_exception
  promise_set_exception-Wakeful t f e w k = elim (Bool-cases (is_cancel e)) [
    | inl c ↦ rw (promise_set_exception, c) k
    | inr c ↦ rw (promise_set_exception, c) (set_result-Wakeful t f (raises e) w k)
  ]

  pub exec_op-Wakeful :
      (n t : ℕ) (o : Op V) (w : World V)
      → (is_task_state (state w t) ≡ true → (w.futs t).coro ≡ coro_running)
      → Wakeful base t w
      → Wakeful base t (exec_op n o w)
  unfolding exec_op promise_set_result
  exec_op-Wakeful n t (adds_callback f c) w a k =
      Wakeful-Moves k (add_callback-Moves t w f (closure c) k.tracked)
  exec_op-Wakeful n t (removes_callback f c) w a k =
      Wakeful-Moves k (remove_callback-Moves t w f (closure c) (λ u ne. refl) k.tracked)
  exec_op-Wakeful n t (sets_result f v) w a k =
      on_promise-Wakeful t (new_promise f w).1 _ w k (set_result-Wakeful t f (returns v) w k)
  exec_op-Wakeful n t (sets_exception f e) w a k =
      on_promise-Wakeful t (new_promise f w).1 _ w k (promise_set_exception-Wakeful t f e w k)
  exec_op-Wakeful n t (cancels f arg) w a k = cancel_future-Wakeful n t f arg w a k
  exec_op-Wakeful n t (reads_result f) w a k = Wakeful-Moves k (result-Moves t w f k.tracked)
  exec_op-Wakeful n t (creates_promise l) w a k = create_promise-Wakeful t l w k
  exec_op-Wakeful n t (creates_task l) w a k = create_task-Wakeful t l w k

  exec_ops-Wakeful :
      (n t : ℕ) (os : List (Op V)) (w : World V)
      → IsActive w t
      → Wakeful base t w
      → Wakeful base t (exec_ops n os w)
  unfolding exec_ops
  exec_ops-Wakeful n t [] w a k = k
  exec_ops-Wakeful n t (o ∷ os) w a k =
      exec_ops-Wakeful n t os (exec_op n o w) (IsActive-Same t (exec_op-Same n o w t a) a)
        (exec_op-Wakeful n t o w (λ i. a.is_running) k)

  set_coro-Wakeful :
      (t : ℕ) (c : CoroState) (w : World V) → Wakeful base t w → Wakeful base t (set_coro w t c)
  set_coro-Wakeful t c w k = Wakeful-Moves k (set_coro-Moves t w c k.tracked)

  resume_coro-Wakeful :
      (c : CoroState) (r : Resume) (n t : ℕ) (code : Code V) (w : World V)
      → IsActive (set_coro w t coro_running) t
      → Wakeful base t w
      → Wakeful base t (resume_coro c r n t code w).0
  unfolding resume_coro run_segment
  resume_coro-Wakeful coro_created send n t code w a k =
      set_coro-Wakeful t _ _ (exec_ops-Wakeful n t (code send).ops _ a (set_coro-Wakeful t _ w k))
  resume_coro-Wakeful coro_created (throw e) n t code w a k = set_coro-Wakeful t _ w k
  resume_coro-Wakeful coro_suspended r n t code w a k =
      set_coro-Wakeful t _ _ (exec_ops-Wakeful n t (code r).ops _ a (set_coro-Wakeful t _ w k))
  resume_coro-Wakeful coro_running r n t code w a k = k
  resume_coro-Wakeful coro_closed send n t code w a k = k
  resume_coro-Wakeful coro_closed (throw e) n t code w a k = k

  current_task-Wakeful :
      (t : ℕ) (c : Option ℕ) (w : World V)
      → Wakeful base t w
      → Wakeful base t (record w { current_task = c })
  current_task-Wakeful t c w k = Wakeful-Moves k (current_task-Moves t w c k.tracked)

  pub send_to_coroutine-Wakeful :
      (n t : ℕ) (code : Code V) (w : World V)
      → IsReady w t
      → Wakeful base t w
      → Wakeful base t (send_to_coroutine n t code w).0
  unfolding send_to_coroutine
  send_to_coroutine-Wakeful n t code w i k = elim (Option-cases (resume_by (state w t))) [
    | inl e ↦ rw (send_to_coroutine, e) k
    | inr (r, e) ↦
        rw (send_to_coroutine, e)
          (current_task-Wakeful t w.current_task _ (
            resume_coro-Wakeful (w.futs t).coro r n t code (record w { current_task = some t })
              (ground (
                arith,
                i.is_task,
                i.known,
                ready_is_task_state (state w t) (w.futs t).coro i.ready,
              ))
              (current_task-Wakeful t (some t) w k)))
  ]

  detach-Wakeful : (t : ℕ) (w : World V) → Wakeful base t w → Wakeful base t (detach t w)
  unfolding detach
  detach-Wakeful t w k = go (state w t) refl
    where
      go : (s : FutState V) → state w t ≡ s → Wakeful base t (detach t w)
      go (running cbs f) e =
          rw (detach, e)
            (Wakeful-Moves k (remove_callback-Moves t w f (step_of t) (other_step t) k.tracked))
      go (pending cbs) e = rw (detach, e) k
      go (created cbs) e = rw (detach, e) k
      go (scheduled cbs h) e = rw (detach, e) k
      go (cancelling cbs h x) e = rw (detach, e) k
      go (success v j) e = rw (detach, e) k
      go (failed x r j) e = rw (detach, e) k

  run_on-Wakeful :
      (t f : ℕ) (o : Option (List Callback)) (w : World V)
      → waiting_callbacks (state w t) ≡ o
      → Wakeful base t w
      → Wakeful base t (run_on o t f w).0
  unfolding run_on
  run_on-Wakeful t f none w e k = k
  run_on-Wakeful t f (some cbs) w e k = elim (Bool-cases (is_suspended_coro (w.futs t).coro)) [
    | inl s ↦
        rw (run_on, s) (Wakeful-Moves k (set_state-Moves t w (running cbs f) cbs e refl k.tracked))
    | inr s ↦ rw (run_on, s) k
  ]

  registered-Wakeful :
      (t f : ℕ) (m : World V × Result (Unit {0}))
      → Wakeful base t m.0
      → Wakeful base t
          (elim m.1 as (λ x. World V × Result (Unit {0})) [
            | raised e ↦ (m.0, raised e)
            | ok u ↦ run_on (waiting_callbacks (state m.0 t)) t f m.0
          ]).0
  registered-Wakeful t f (w, ok u) k = run_on-Wakeful t f (waiting_callbacks (state w t)) w refl k
  registered-Wakeful t f (w, raised e) k = k

  wait_on-Wakeful : (t f : ℕ) (w : World V) → Wakeful base t w → Wakeful base t (wait_on t f w).0
  unfolding wait_on
  wait_on-Wakeful t f w k = elim (Bool-cases (f == t)) [
    | inl e ↦ rw (wait_on, e) k
    | inr e ↦ elim (Bool-cases ((w.futs f).loop == (w.futs t).loop)) [
      | inl l ↦
          rw (wait_on, e, l)
            (registered-Wakeful t f (add_callback f (step_of t) w)
              (Wakeful-Moves k (add_callback-Moves t w f (step_of t) k.tracked)))
      | inr l ↦ rw (wait_on, e, l) k
    ]
  ]

  settle_step-Wakeful :
      (t : ℕ) (o : Outcome V) (w : World V)
      → Wakeful base t w
      → Wakeful base t (settle_step t (val_of o) (exc_of o) w).0
  unfolding settle_step
  settle_step-Wakeful t o w k = detach-Wakeful t _ (set_result-Wakeful t t o w k)

  pub after_send-Wakeful :
      (out : CoroOut V) (t : ℕ) (w : World V)
      → Wakeful base t w
      → Wakeful base t (after_send out t w).0
  unfolding after_send
  after_send-Wakeful (yielded f) t w k = wait_on-Wakeful t f (detach t w) (detach-Wakeful t w k)
  after_send-Wakeful yielded_other t w k = detach-Wakeful t w k
  after_send-Wakeful (stopped v) t w k = settle_step-Wakeful t (returns v) w k
  after_send-Wakeful (threw e) t w k = elim (Bool-cases (is_inner_error e)) [
    | inl x ↦ rw (after_send, x) (detach-Wakeful t w k)
    | inr x ↦ elim (Bool-cases (is_caught e)) [
      | inl y ↦ rw (after_send, x, y) (settle_step-Wakeful t (raises e) w k)
      | inr y ↦ rw (after_send, x, y) (detach-Wakeful t w k)
    ]
  ]
