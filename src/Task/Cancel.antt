-- ===== src/Task/Cancel.antt =====
-- aio/future/pure.py: where a cancellation goes, and what it does to a task.
use aio.Prelude.{ℕ, ◌≤◌, zero, suc, ◌<◌, ◌≡◌, refl, ◌∙◌, true, false, none, some, List, arith}
use aio.Exceptions.{is_cancel, CancelArg, coerce_cancel_arg, ok, raised, recursion_error}
use aio.World.{
  Callback, step_of, with_none, call_soon, cancel_handle, pending, scheduled, cancelling, running,
  coro_created, coro_suspended, plain_future, task_future, World, set_state,
}
use aio.Future.{state, is_finished, set_result, exception, future_cancel}
use aio.Future.Settle.{raises, settled, set_result-pending}
use aio.Task.{threw, Code, cancel_future}
use aio.Task.Step.{step}
use aio.Task.Step.Run.{IsReady, step_ends, step_thrown, ends_with}

-- `coerce_cancel_arg` gives a `Cancelled`.
coerce_is_cancel : (arg : CancelArg) → is_cancel (coerce_cancel_arg arg) ≡ true
coerce_is_cancel arg = ground arith

module _ {V : Type 0} where
  -- `t` waits for `g` through `n` tasks, each suspended on an unfinished future, which is the next.
  pub data WaitsThrough (w : World V) (g : ℕ) : ℕ → ℕ → Type 0 where
    here : {t : ℕ} → t ≡ g → WaitsThrough w g zero t
    next :
        {n t : ℕ} (cbs : List Callback) (f : ℕ)
        → (w.futs t).kind ≡ task_future
        → state w t ≡ running cbs f
        → (w.futs t).coro ≡ coro_suspended
        → is_finished w f ≡ false
        → WaitsThrough w g n f
        → WaitsThrough w g (suc n) t

  cancel_waiting :
      (n t f : ℕ) (cbs : List Callback) (arg : CancelArg) (w : World V)
      → (w.futs t).kind ≡ task_future
      → state w t ≡ running cbs f
      → (w.futs t).coro ≡ coro_suspended
      → is_finished w f ≡ false
      → cancel_future (suc n) t arg w ≡ cancel_future n f arg w
  unfolding cancel_future
  cancel_waiting n t f cbs arg w k s c u = ground arith

  cancel_future-plain :
      (n f : ℕ) (arg : CancelArg) (w : World V)
      → (w.futs f).kind ≡ plain_future
      → cancel_future (suc n) f arg w ≡ set_result f none (some (coerce_cancel_arg arg)) w
  unfolding cancel_future future_cancel
  cancel_future-plain n f arg w k = rw (k, cancel_future)

  -- Cancelling a task that waits, through any number of tasks, for a pending future finishes that
  -- future with the cancellation, schedules its callbacks, and changes nothing else: the tasks on
  -- the way stay as they are. The depth of the calls is one for each task and one for the future.
  pub cancel_reaches :
      (n d t g : ℕ) (cbs : List Callback) (arg : CancelArg) (w : World V)
      → WaitsThrough w g n t
      → n < d
      → (w.futs g).kind ≡ plain_future
      → state w g ≡ pending cbs
      → cancel_future d t arg w ≡ (settled w g (raises (coerce_cancel_arg arg)) cbs, ok tt)
  cancel_reaches n zero t g cbs arg w c lt k p = absurd (omega arith)
  cancel_reaches zero (suc d) t g cbs arg w (here e) lt k p = rw e (
      cancel_future-plain d g arg w k
      ∙ set_result-pending w g (raises (coerce_cancel_arg arg)) cbs k p)
  cancel_reaches (suc n) (suc d) t g cbs arg w (next rs f tk s cs u c) lt k p =
      cancel_waiting d t f rs arg w tk s cs u ∙ cancel_reaches n d f g cbs arg w c (omega arith) k p

  -- A chain that is longer than the calls can nest: the cancellation ends in a `RecursionError`,
  -- and nothing is cancelled, neither the future nor a task on the way.
  pub cancel_too_deep :
      (n d t g : ℕ) (arg : CancelArg) (w : World V)
      → WaitsThrough w g n t
      → d ≤ n
      → cancel_future d t arg w ≡ (w, raised recursion_error)
  unfolding cancel_future
  cancel_too_deep n zero t g arg w c le = refl
  cancel_too_deep zero (suc d) t g arg w c le = absurd (omega arith)
  cancel_too_deep (suc n) (suc d) t g arg w (next rs f tk s cs u c) le =
      cancel_waiting d t f rs arg w tk s cs u ∙ cancel_too_deep n d f g arg w c (omega arith)

  -- The world in which the task `t` has been told to throw a cancellation into its coroutine.
  abbrev pub inner_cancelled : World V → ℕ → List Callback → CancelArg → World V
  inner_cancelled w t cbs arg =
      set_state (call_soon w (w.futs t).loop (step_of t) with_none) t
        (cancelling cbs w.next_handle (coerce_cancel_arg arg))

  cancel_scheduled :
      (d t h : ℕ) (cbs : List Callback) (arg : CancelArg) (w : World V)
      → (w.futs t).kind ≡ task_future
      → state w t ≡ scheduled cbs h
      → (w.futs t).coro ≡ coro_created
      → (w.handles h).executed ≡ false
      → cancel_future (suc d) t arg w ≡ (inner_cancelled (cancel_handle w h) t cbs arg, ok tt)
  unfolding cancel_future
  cancel_scheduled d t h cbs arg w k s c x = rw (k, cancel_future) (ground arith)

  ends_with-coerce :
      (arg : CancelArg)
      → ends_with {V = V} (threw (coerce_cancel_arg arg)) ≡ some (raises (coerce_cancel_arg arg))
  ends_with-coerce arg = ground arith

  scheduled_created :
      (w : World V) (t h : ℕ) (cbs : List Callback)
      → IsReady w t
      → state w t ≡ scheduled cbs h
      → (w.futs t).coro ≡ coro_created
  scheduled_created w t h cbs i s = ground (arith, i.ready)

  -- Cancelling a scheduled task that has not started cancels the handle of its first step and makes
  -- another one; when that one calls `_step`, the task is finished with the cancellation, and none
  -- of its code runs: the step does the same to the whole store whatever that code would do.
  pub cancel_before_start :
      (n d t h : ℕ) (cbs : List Callback) (arg : CancelArg) (code : Code V) (w : World V)
      → IsReady w t
      → state w t ≡ scheduled cbs h
      → h < w.next_handle
      → (w.handles h).executed ≡ false
      → let (w₁, r₁) = cancel_future (suc d) t arg w in
        let (w₂, r₂) = step n t code w₁ in
        (r₁ ≡ ok tt)
        × ((w₁.handles h).is_cancelled ≡ true)
        × (w₁.handles w.next_handle ≡ record {
          when = none;
          loop = (w.futs t).loop;
          callback = step_of t;
          args = with_none;
          executed = false;
          is_cancelled = false;
        })
        × (r₂ ≡ ok tt)
        × (is_finished w₂ t ≡ true)
        × ((exception t w₂).1 ≡ ok (some (coerce_cancel_arg arg)))
        × ((code' : Code V) → step n t code' w₁ ≡ (w₂, r₂))
  cancel_before_start n d t h cbs arg code w i s old fresh =
      let c = scheduled_created w t h cbs i s in
      let w₁ = inner_cancelled (cancel_handle w h) t cbs arg in
      let ready : IsReady w₁ t = record {
        is_task = ground (arith, i.is_task);
        known = i.known;
        ready = ground arith;
      } in
      let (fine, done, _, exc) =
        step_ends n t code w₁ (raises (coerce_cancel_arg arg)) ready
          (ground (arith, ends_with-coerce arg)) in
      rw (cancel_scheduled d t h cbs arg w i.is_task s c fresh) (
        refl,
        ground arith,
        ground arith,
        fine,
        done,
        exc,
        (λ code'.
            step_thrown n t w.next_handle cbs (coerce_cancel_arg arg) code' code w₁ (ground arith)
              (ground arith)),
      )
