-- ===== src/Task/Protect.antt =====
-- aio/future/pure.py: while the coroutine of a task runs, what it does leaves the task's own state
-- alone, but for the set of callbacks.
use aio.Prelude.{
  ℕ, zero, suc, ◌≤◌, ◌<◌, ◌≡◌, ap, true, false, Option, none, some, List, [], ◌∷◌, arith, ◌==◌,
  ==_iff, Bool-cases, Option-cases, inl, inr,
}
use aio.Exceptions.{Exc, CancelArg, coerce_cancel_arg, Result}
use aio.World.{
  Callback, step_of, closure, FutState, pending, created, scheduled, cancelling, running, success,
  failed, coro_created, coro_running, task_future, World, waiting_callbacks, is_task_state,
  with_callbacks,
}
use aio.Future.{
  state, result, add_callback, remove_callback, base_set_result, task_set_result, set_result,
  future_cancel, new_promise, create_promise, promise_set_result, promise_set_exception,
}
use aio.Future.Callbacks.{futs-call_all, next_fut-call_all}
use aio.Task.{
  Op, adds_callback, removes_callback, sets_result, sets_exception, cancels, reads_result,
  creates_promise, creates_task, cancel_future, create_task, cancel_in, schedule_first_step,
}
use aio.Task.Step.{exec_op, exec_ops}

module _ {V : Type 0} where
  -- A state without its set of callbacks.
  abbrev pub shape : FutState V → FutState V
  shape s = with_callbacks s []

  -- The task `t` is the same in both worlds, but for its set of callbacks.
  pub record Same (w w' : World V) (t : ℕ) : Type 0 where
    pub kind_eq : (w'.futs t).kind ≡ (w.futs t).kind
    pub loop_eq : (w'.futs t).loop ≡ (w.futs t).loop
    pub coro_eq : (w'.futs t).coro ≡ (w.futs t).coro
    pub shape_eq : shape (state w' t) ≡ shape (state w t)
    pub grows : w.next_fut ≤ w'.next_fut

  -- `t` is a task whose coroutine is running.
  pub record IsActive (w : World V) (t : ℕ) : Type 0 where
    pub is_task : (w.futs t).kind ≡ task_future
    pub is_running : (w.futs t).coro ≡ coro_running
    pub in_task_state : is_task_state (state w t) ≡ true
    pub known : t < w.next_fut

  pub Same-refl : (w : World V) (t : ℕ) → Same w w t
  Same-refl w t = ground arith

  pub Same-trans : {u v w : World V} (t : ℕ) → Same u v t → Same v w t → Same u w t
  Same-trans t a b = ground arith

  pub is_task_state-shape : (s : FutState V) → is_task_state (shape s) ≡ is_task_state s
  is_task_state-shape s = ground arith

  pub IsActive-Same : {w w' : World V} (t : ℕ) → Same w w' t → IsActive w t → IsActive w' t
  IsActive-Same {w} {w'} t s a =
      ground (arith, is_task_state-shape (state w t), is_task_state-shape (state w' t))

  pub add_callback-Same : (w : World V) (t f : ℕ) (cb : Callback) → Same w (add_callback f cb w).0 t
  unfolding add_callback
  add_callback-Same w t f cb = ground arith

  pub remove_callback-Same :
      (w : World V) (t f : ℕ) (cb : Callback)
      → is_task_state (state w t) ≡ true
      → Same w (remove_callback f cb w) t
  unfolding remove_callback
  remove_callback-Same w t f cb i = ground arith

  base_set_result-Same :
      (w : World V) (t f : ℕ) (val : Option V) (exc : Option Exc)
      → (f == t) ≡ false
      → Same w (base_set_result f val exc w).0 t
  unfolding base_set_result
  base_set_result-Same w t f val exc ne = elim (Option-cases (waiting_callbacks (state w f))) [
    | inl e ↦ ground arith
    | inr (cbs, e) ↦ ground (
      arith,
      ap (λ fs. fs t) (futs-call_all w (w.futs f).loop f cbs),
      next_fut-call_all w (w.futs f).loop f cbs,
    )
  ]

  set_result-Same :
      (w : World V) (t f : ℕ) (val : Option V) (exc : Option Exc)
      → IsActive w t
      → Same w (set_result f val exc w).0 t
  unfolding set_result task_set_result
  set_result-Same w t f val exc a = elim (Bool-cases (f == t)) [
    | inl e ↦ ground (arith, ==_iff f t)
    | inr ne ↦ ground (arith, base_set_result-Same w t f val exc)
  ]

  cancel_in-Same :
      (s : FutState V) (inner : ℕ → CancelArg → World V → World V × Result (Unit {0})) (w : World V)
      (t u : ℕ) (arg : CancelArg)
      → ((f : ℕ) → Same w (inner f arg w).0 t)
      → IsActive w t
      → (u == t) ≡ false
      → Same w (cancel_in s inner u arg w).0 t
  unfolding cancel_in
  cancel_in-Same (pending cbs) inner w t u arg h a ne = ground arith
  cancel_in-Same (created cbs) inner w t u arg h a ne = ground arith
  cancel_in-Same (scheduled cbs j) inner w t u arg h a ne = ground arith
  cancel_in-Same (cancelling cbs j e) inner w t u arg h a ne = ground arith
  cancel_in-Same (running cbs f) inner w t u arg h a ne =
      ground (arith, h f, remove_callback-Same w t f (step_of u))
  cancel_in-Same (success v j) inner w t u arg h a ne = ground arith
  cancel_in-Same (failed e r j) inner w t u arg h a ne = ground arith

  cancel_future-Same :
      (n : ℕ) (w : World V) (t f : ℕ) (arg : CancelArg)
      → IsActive w t
      → Same w (cancel_future n f arg w).0 t
  unfolding cancel_future future_cancel
  cancel_future-Same zero w t f arg a = Same-refl w t
  cancel_future-Same (suc n) w t f arg a = elim (Bool-cases (f == t)) [
    | inl e ↦ ground (arith, ==_iff f t)
    | inr ne ↦ ground (
      arith,
      set_result-Same w t f none (some (coerce_cancel_arg arg)),
      cancel_in-Same (state w f) (cancel_future n) w t f arg (λ g. cancel_future-Same n w t g arg a)
          a ne,
    )
  ]

  result-Same : (w : World V) (t f : ℕ) → is_task_state (state w t) ≡ true → Same w (result f w).0 t
  unfolding result
  result-Same w t f i = ground (arith, ==_iff f t)

  create_promise-Same : (w : World V) (t l : ℕ) → t < w.next_fut → Same w (create_promise l w).0 t
  unfolding create_promise new_promise
  create_promise-Same w t l known = ground arith

  create_task-Same :
      (w : World V) (t l : ℕ) → t < w.next_fut → Same w (create_task l coro_created w).0 t
  unfolding create_task schedule_first_step
  create_task-Same w t l known = ground arith

  -- Whatever one operation of the program does, the task that does it stays as it is.
  pub exec_op-Same :
      (n : ℕ) (o : Op V) (w : World V) (t : ℕ) → IsActive w t → Same w (exec_op n o w) t
  unfolding exec_op promise_set_result promise_set_exception
  exec_op-Same n (adds_callback f c) w t a = add_callback-Same w t f (closure c)
  exec_op-Same n (removes_callback f c) w t a =
      remove_callback-Same w t f (closure c) a.in_task_state
  exec_op-Same n (sets_result f v) w t a =
      ground (arith, set_result-Same w t f (some v) none a, Same-refl w t)
  exec_op-Same n (sets_exception f e) w t a =
      ground (arith, set_result-Same w t f none (some e) a, Same-refl w t)
  exec_op-Same n (cancels f arg) w t a = cancel_future-Same n w t f arg a
  exec_op-Same n (reads_result f) w t a = result-Same w t f a.in_task_state
  exec_op-Same n (creates_promise l) w t a = create_promise-Same w t l a.known
  exec_op-Same n (creates_task l) w t a = create_task-Same w t l a.known

  -- While the coroutine of a task runs, nothing that it does to futures and tasks changes the
  -- task's own state, but for the callbacks that wait for it: a task cannot be finished, cancelled
  -- or restarted from inside.
  pub exec_ops-Same :
      (n : ℕ) (os : List (Op V)) (w : World V) (t : ℕ) → IsActive w t → Same w (exec_ops n os w) t
  unfolding exec_ops
  exec_ops-Same n [] w t a = Same-refl w t
  exec_ops-Same n (o ∷ os) w t a =
      let first = exec_op-Same n o w t a in
      Same-trans t first (exec_ops-Same n os (exec_op n o w) t (IsActive-Same t first a))
