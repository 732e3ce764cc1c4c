-- ===== src/Task/Wake/Cancel.antt =====
-- aio/future/pure.py: a cancellation leaves the tasks awake through which it goes, and all others.
use aio.Prelude.{
  ℕ, zero, suc, ◌<◌, ◌≡◌, refl, subst, sym, ap, ◌∙◌, ◌⊎◌, inl, inr, true, false, some, List, arith,
  ◌==◌, ==_iff, Bool-cases, if◌then◌else◌,
}
use aio.Exceptions.{raised, assertion_error, CancelArg, coerce_cancel_arg, Result}
use aio.World.{
  coro_running, Callback, step_of, same_callback, FutState, pending, created, scheduled, cancelling,
  running, success, failed, World, waiting_callbacks, is_task_state, cancel_handle, with_none,
  plain_future, task_future, Kind,
}
use aio.Future.{state, is_finished, remove_callback, future_cancel}
use aio.Future.Settle.{raises}
use aio.Task.{
  cancel_future, task_cancel, cancel_in, go_to_inner_cancellation, cancellable, is_running_coro,
}
use aio.Task.Protect.{remove_callback-Same}
use aio.Task.Wake.{AwakeIn, Live, Moves, Moves-trans, Wakeful, Wakeful-move}
use aio.Task.Handles.{cancelled-Keeps}
use aio.Task.Wake.Changes.{set_state-Moves}
use aio.Task.Wake.Handles.{call_soon-Moves, handle_changed-Moves}
use aio.Task.Wake.Callbacks.{remove_callback-Moves}
use aio.Task.Wake.Ops.{called, called-Awake, set_result-Wakeful}

pub other_step : (f u : ℕ) → (u == f) ≡ false → same_callback (step_of f) (step_of u) ≡ false
other_step f u ne = ground (arith, ==_iff f u, ==_iff u f)

kind_cases : (c : Kind) → (c ≡ plain_future) ⊎ (c ≡ task_future)
kind_cases plain_future = inl refl
kind_cases task_future = inr refl

module _ {V : Type 0} where
  inner_called :
      (f : ℕ) (cbs : List Callback) (arg : CancelArg) (w : World V)
      → cancellable (w.futs f).coro ≡ true
      → (go_to_inner_cancellation cbs f arg w).0
        ≡ called w f (cancelling cbs w.next_handle (coerce_cancel_arg arg))
  unfolding go_to_inner_cancellation
  inner_called f cbs arg w c = ground arith

  remove_callback_other :
      (g f : ℕ) (cb : Callback) (w : World V)
      → is_finished w g ≡ true
      → is_task_state (state w f) ≡ true
      → (remove_callback g cb w).futs f ≡ w.futs f
  unfolding remove_callback is_finished
  remove_callback_other g f cb w d i = ground (arith, ==_iff g f)

  cancel_scheduled :
      (f : ℕ) (cbs : List Callback) (h : ℕ)
      (inner : ℕ → CancelArg → World V → World V × Result (Unit {0})) (arg : CancelArg)
      (w : World V)
      → (w.handles h).executed ≡ false
      → cancel_in (scheduled cbs h) inner f arg w
        ≡ go_to_inner_cancellation cbs f arg (cancel_handle w h)
  unfolding cancel_in
  cancel_scheduled f cbs h inner arg w e =
      ap
        (λ b.
          if b
          then (w, raised assertion_error)
          else go_to_inner_cancellation cbs f arg (cancel_handle w h))
        e

module _ {V : Type 0} {base : World V} where
  go_to_inner_cancellation-Wakeful :
      (t f : ℕ) (cbs : List Callback) (arg : CancelArg) (v w : World V)
      → Wakeful base t v
      → Moves f v w
      → waiting_callbacks (state w f) ≡ some cbs
      → f < w.next_fut
      → (w.futs f).kind ≡ task_future
      → cancellable (w.futs f).coro ≡ true
      → Wakeful base t (go_to_inner_cancellation cbs f arg w).0
  go_to_inner_cancellation-Wakeful t f cbs arg v w k m e b q c =
      let soon = call_soon-Moves f w (w.futs f).loop (step_of f) with_none m.still in
      rw (inner_called f cbs arg w c) (
        Wakeful-move k
          (Moves-trans f m (Moves-trans f soon (set_state-Moves f _ _ cbs e refl soon.still)))
          (λ ne. called-Awake f w _ b q (ground arith) (λ x. x)))

  -- `inner` is the cancellation of the future that the task waits for.
  cancel_in-Wakeful :
      (t f : ℕ) (s : FutState V) (arg : CancelArg) (w : World V)
      (inner : ℕ → CancelArg → World V → World V × Result (Unit {0}))
      → ((g : ℕ) → Wakeful base t (inner g arg w).0)
      → (f == t) ≡ false
      → state w f ≡ s
      → Wakeful base t w
      → Wakeful base t (cancel_in s inner f arg w).0
  unfolding cancel_in
  cancel_in-Wakeful t f (pending cbs) arg w inner n ne e k = k
  cancel_in-Wakeful t f (created cbs) arg w inner n ne e k =
      absurd (ground (arith, ((k.awake f ne).ready (ap is_task_state e)).ready))
  cancel_in-Wakeful t f (scheduled cbs h) arg w inner n ne e k =
      let r = (k.awake f ne).ready (ap is_task_state e) in
      let l : Live w f h = subst (AwakeIn w f) e (k.awake f ne).awake in
      subst (λ m. Wakeful base t m.0) (sym (cancel_scheduled f cbs h inner arg w l.unused))
        (go_to_inner_cancellation-Wakeful t f cbs arg w (cancel_handle w h) k
          (handle_changed-Moves f w h _ (cancelled-Keeps (w.handles h))
            (λ u un. rw l.steps (other_step f u un)) k.tracked)
          (ap waiting_callbacks e) r.known r.is_task (ground (arith, r.ready)))
  cancel_in-Wakeful t f (running cbs g) arg w inner n ne e k = elim (Bool-cases (is_finished w g)) [
    | inl d ↦
        let r = (k.awake f ne).ready (ap is_task_state e) in
        let same = remove_callback_other g f (step_of f) w d (ap is_task_state e) in
        let m = remove_callback-Moves f w g (step_of f) (λ u un. other_step f u un) k.tracked in
        rw d (
          go_to_inner_cancellation-Wakeful t f cbs arg w (remove_callback g (step_of f) w) k m
            (ap (λ x. waiting_callbacks x.state) same ∙ ap waiting_callbacks e)
            (omega
              (arith, r.known, (remove_callback-Same w f g (step_of f) (ap is_task_state e)).grows))
            (ap (λ x. x.kind) same ∙ r.is_task) (ground (arith, r.ready)))
    | inr d ↦ rw d (n g)
  ]
  cancel_in-Wakeful t f (cancelling cbs h x) arg w inner n ne e k = k
  cancel_in-Wakeful t f (success v j) arg w inner n ne e k = k
  cancel_in-Wakeful t f (failed x r j) arg w inner n ne e k = k

  task_cancel-Wakeful :
      (t f : ℕ) (arg : CancelArg) (w : World V)
      (inner : ℕ → CancelArg → World V → World V × Result (Unit {0}))
      → ((g : ℕ) → Wakeful base t (inner g arg w).0)
      → (is_task_state (state w t) ≡ true → (w.futs t).coro ≡ coro_running)
      → Wakeful base t w
      → Wakeful base t (task_cancel inner f arg w).0
  unfolding task_cancel
  task_cancel-Wakeful t f arg w inner n a k = elim (Bool-cases (is_task_state (state w f))) [
    | inr x ↦ rw (task_cancel, x) k
    | inl x ↦ elim (Bool-cases (is_running_coro (w.futs f).coro)) [
      | inl y ↦ rw (task_cancel, x, y) k
      | inr y ↦
          let ne : (f == t) ≡ false = ground (arith, ==_iff f t, a) in
          rw (task_cancel, x, y) (cancel_in-Wakeful t f (state w f) arg w inner n ne refl k)
    ]
  ]

  pub cancel_future-Wakeful :
      (n t f : ℕ) (arg : CancelArg) (w : World V)
      → (is_task_state (state w t) ≡ true → (w.futs t).coro ≡ coro_running)
      → Wakeful base t w
      → Wakeful base t (cancel_future n f arg w).0
  unfolding cancel_future future_cancel
  cancel_future-Wakeful zero t f arg w a k = k
  cancel_future-Wakeful (suc n) t f arg w a k = elim (kind_cases (w.futs f).kind) [
    | inl e ↦ rw (cancel_future, e) (set_result-Wakeful t f (raises (coerce_cancel_arg arg)) w k)
    | inr e ↦
        rw (cancel_future, e)
          (task_cancel-Wakeful t f arg w (cancel_future n)
            (λ g. cancel_future-Wakeful n t g arg w a k) a k)
  ]
