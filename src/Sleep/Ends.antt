-- ===== src/Sleep/Ends.antt =====
-- aio/funcs.py: how a sleep begins and ends.
use aio.Prelude.{ℕ, suc, ◌≡◌, ◌<◌, refl, ap, ◌∙◌, true, List, arith}
use aio.Exceptions.{Exc, ok, raised, no_arg, CancelArg, coerce_cancel_arg}
use aio.World.{Callback, pending, plain_future, World, cancel_handle}
use aio.Future.{
  handles_from, state, is_finished, result, promise_set_result, promise_cancel, future_cancel,
  await_resume,
}
use aio.Future.Callbacks.{handles-call_all, futs-call_all}
use aio.Future.Settle.{
  Outcome, returns, raises, settled, read_back, finished_by, set_result-pending, finished_once,
  is_finished_by,
}
use aio.Task.{send, throw, cancel_future}
use aio.Promises.{leave_promise, await_promise}
use aio.Shield.Mirror.{await_finished, state-settled}
use aio.Shield.Protect.{leave_finished, await-finished, cancel_promise}
use aio.Sleep.{on_timeout, sleep_resume}

module _ {V : Type 0} where
  -- A pending plain future is finished when the `async with` of its promise is left; a finished one
  -- stays. No handle that was there changes.
  pub leave_promise_lem :
      (w : World V) (p : ℕ) (cbs : List Callback)
      → (w.futs p).kind ≡ plain_future
      → state w p ≡ pending cbs
      → leave_promise p w ≡ settled w p (raises (coerce_cancel_arg no_arg)) cbs
  unfolding leave_promise is_finished promise_cancel future_cancel
  leave_promise_lem w p cbs k h =
      rw (h, leave_promise)
        (ap (λ x. x.0) (set_result-pending w p (raises (coerce_cancel_arg no_arg)) cbs k h))

  on_timeout_lem :
      (v : V) (p : ℕ) (w : World V)
      → (w.futs p).kind ≡ plain_future
      → (is_finished w p ≡ true → on_timeout v p w ≡ (w, ok tt))
        × ((cbs : List Callback)
            → state w p ≡ pending cbs
            → on_timeout v p w ≡ (settled w p (returns v) cbs, ok tt))
  unfolding on_timeout promise_set_result
  on_timeout_lem v p w k = (
    (λ d. rw (finished_once w p (returns v) d) refl),
    (λ cbs h. rw (set_result-pending w p (returns v) cbs k h) refl),
  )

  kind-await : (w : World V) (p : ℕ) → ((await_promise p send w).0.futs p).kind ≡ (w.futs p).kind
  unfolding await_promise await_resume result
  kind-await w p = ground arith

  kind-settled :
      (w : World V) (p : ℕ) (o : Outcome V) (cbs : List Callback)
      → ((settled w p o cbs).futs p).kind ≡ (w.futs p).kind
  kind-settled w p o cbs = ground (arith, ap (λ fs. fs p) (futs-call_all w (w.futs p).loop p cbs))

  -- What a sleep that was resumed leaves: its handle is cancelled and its promise is finished, so
  -- that a timeout that comes all the same does nothing.
  abbrev pub IsOver : V → ℕ → ℕ → World V → Type 0
  IsOver v p h w =
      ((w.handles h).is_cancelled ≡ true)
      × (is_finished w p ≡ true)
      × (on_timeout v p w ≡ (w, ok tt))

  finished-cancel_handle :
      (w : World V) (h p : ℕ) → is_finished w p ≡ true → is_finished (cancel_handle w h) p ≡ true
  unfolding is_finished
  finished-cancel_handle w h p d = d

  is_over :
      (v : V) (w : World V) (p h : ℕ)
      → (w.futs p).kind ≡ plain_future
      → is_finished w p ≡ true
      → (w.handles h).is_cancelled ≡ true
      → IsOver v p h w
  is_over v w p h k d c = (c, d, (on_timeout_lem v p w k).0 d)

  thrown :
      (v : V) (w : World V) (p h : ℕ) (e : Exc) (cbs : List Callback)
      → (w.futs p).kind ≡ plain_future
      → state w p ≡ pending cbs
      → h < w.next_handle
      → let (w', r) = sleep_resume p h (throw e) w in (r ≡ raised e) × IsOver v p h w'
  unfolding sleep_resume await_promise
  thrown v w p h e cbs k pen lt =
      let w1 : World V = cancel_handle w h in
      let o : Outcome V = raises (coerce_cancel_arg no_arg) in
      let over =
        is_over v (settled w1 p o cbs) p h (kind-settled w1 p o cbs ∙ k)
          (is_finished_by _ p o (handles_from w.next_handle cbs) (state-settled w1 p o cbs))
          (ap (λ x. x.is_cancelled) (handles-call_all w1 (w1.futs p).loop p h cbs lt)
            ∙ ground arith) in
      rw (leave_promise_lem w1 p cbs k pen) (refl, over)

  resumed :
      (v : V) (w : World V) (p h : ℕ) (o : Outcome V) (s : List (Callback × ℕ))
      → (w.futs p).kind ≡ plain_future
      → state w p ≡ finished_by o s
      → let (w', r) = sleep_resume p h send w in (r ≡ read_back o) × IsOver v p h w'
  unfolding sleep_resume
  resumed v w p h o s k e =
      let w1 : World V = (await_promise p send w).0 in
      let d = finished-cancel_handle w1 h p (await-finished w p (is_finished_by w p o s e)) in
      let over = is_over v (cancel_handle w1 h) p h (kind-await w p ∙ k) d (ground arith) in
      rw (leave_finished (cancel_handle w1 h) p d) (await_finished w p o s e, over)

  -- A sleep that is pending ends in one of three ways. If `on_timeout` is called, it returns
  -- `None`. If the promise is cancelled, which a cancellation of the task does, it raises the
  -- cancellation; and an exception that is thrown into the `await` leaves it. In each case
  -- `on_timeout` raises nothing, the handle is cancelled in the end, the promise is finished, and a
  -- later call of `on_timeout` changes nothing.
  pub sleep_ends :
      (v : V) (w : World V) (n p h : ℕ) (arg : CancelArg) (e : Exc) (cbs : List Callback)
      → (w.futs p).kind ≡ plain_future
      → state w p ≡ pending cbs
      → h < w.next_handle
      → (let (w', r) = on_timeout v p w in
          let (w'', r') = sleep_resume p h send w' in (r ≡ ok tt) × (r' ≡ ok v) × IsOver v p h w'')
        × (let (w', r) = cancel_future (suc n) p arg w in
            let (w'', r') = sleep_resume p h send w' in
            (r ≡ ok tt) × (r' ≡ raised (coerce_cancel_arg arg)) × IsOver v p h w'')
        × (let (w', r) = sleep_resume p h (throw e) w in (r ≡ raised e) × IsOver v p h w')
  sleep_ends v w n p h arg e cbs k pen lt =
      let timed = settled w p (returns v) cbs in
      let gone = settled w p (raises (coerce_cancel_arg arg)) cbs in
      let (r1, over1) =
        resumed v timed p h (returns v) (handles_from w.next_handle cbs)
          (kind-settled w p (returns v) cbs ∙ k) (state-settled w p (returns v) cbs) in
      let (r2, over2) =
        resumed v gone p h (raises (coerce_cancel_arg arg)) (handles_from w.next_handle cbs)
          (kind-settled w p (raises (coerce_cancel_arg arg)) cbs ∙ k)
          (state-settled w p (raises (coerce_cancel_arg arg)) cbs) in
      (
        rw ((on_timeout_lem v p w k).1 cbs pen) (refl, r1, over1),
        rw (cancel_promise n p arg w cbs k pen) (refl, r2, over2),
        thrown v w p h e cbs k pen lt,
      )
