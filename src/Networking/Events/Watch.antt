-- ===== src/Networking/Events/Watch.antt =====
-- aio/loop/pure/networking.py: how the wait for the events of a descriptor ends.
use aio.Prelude.{ℕ, ◌≡◌, refl, ap, ◌∙◌, true, false, Option, none, some, List}
use aio.Exceptions.{Exc, is_cancel, ok, raised}
use aio.World.{Callback, pending, plain_future, World}
use aio.Future.{handles_from, state, is_finished, promise_set_result, promise_set_exception}
use aio.Future.Settle.{
  Outcome, returns, raises, read_back, settled, is_finished_by, set_result-pending,
}
use aio.Task.{Resume, send, throw}
use aio.Promises.{await_promise}
use aio.Shield.Mirror.{await_finished, state-settled}
use aio.Selector.{Mask, is_some_event, Selector, get_key, add_watch}
use aio.Selector.Watches.{stop_watch-add_watch}
use aio.Networking.Events.{Net, done_cb, after_stop, wait_resume}

-- The `OSError` of a failed poll is no `Cancelled`.
abbrev pub IsPlain : Option Exc → Type 0
IsPlain none = Unit {0}
IsPlain (some e) = is_cancel e ≡ false

module _ {V : Type 0} where
  -- What the waiter is finished with.
  abbrev pub outcome_of : V → Option Exc → Outcome V
  outcome_of none_value none = returns none_value
  outcome_of none_value (some e) = raises e

  done_cb-pending :
      (v : V) (p : ℕ) (exc : Option Exc) (w : World V) (cbs : List Callback)
      → (w.futs p).kind ≡ plain_future
      → state w p ≡ pending cbs
      → IsPlain exc
      → done_cb v p exc w ≡ (settled w p (outcome_of v exc) cbs, ok tt)
  unfolding done_cb is_finished promise_set_result promise_set_exception
  done_cb-pending v p none w cbs k h b =
      rw (h, done_cb) (set_result-pending w p (returns v) cbs k h)
  done_cb-pending v p (some e) w cbs k h b =
      rw (h, done_cb) (rw (b, promise_set_exception) (set_result-pending w p (raises e) cbs k h))

  done_cb-finished :
      (v : V) (p : ℕ) (exc : Option Exc) (w : World V)
      → is_finished w p ≡ true
      → done_cb v p exc w ≡ (w, ok tt)
  unfolding done_cb
  done_cb-finished v p exc w d = rw (d, done_cb) refl

  thrown : (p : ℕ) (e : Exc) (w : World V) → (await_promise p (throw e) w).1 ≡ raised e
  unfolding await_promise
  thrown p e w = refl

  resume-open :
      (fd cb p : ℕ) (events : Mask) (how : Resume) (w : World V) (s : Selector)
      → s.is_finalized ≡ false
      → get_key fd s.keys ≡ none
      → is_some_event events ≡ true
      → let n : Net V = record { world = w; selector = (add_watch fd events cb s).0 } in
        let (n', r) = wait_resume fd events cb p how n in
        (r ≡ (await_promise p how w).1) × (n'.selector ≡ s)
  unfolding wait_resume
  resume-open fd cb p events how w s open_ h e =
      let stop = stop_watch-add_watch fd cb events s open_ h e in
      (ap (λ x. after_stop x.1 (await_promise p how w).1) stop, ap (λ x. x.0) stop)

  -- A wait for events of a descriptor that was not watched before. When the selector finds one, the
  -- callback ends the wait with `None`; when the poll fails, with the `OSError`; and an exception
  -- that is thrown into the wait leaves it. In each case the selector is in the end as it was
  -- before the wait. A second call of the callback changes nothing.
  pub wait_ends :
      (v : V) (fd cb p : ℕ) (events : Mask) (exc : Option Exc) (e : Exc) (w : World V)
      (s : Selector) (cbs : List Callback)
      → s.is_finalized ≡ false
      → get_key fd s.keys ≡ none
      → is_some_event events ≡ true
      → (w.futs p).kind ≡ plain_future
      → state w p ≡ pending cbs
      → IsPlain exc
      → (let (w', r) = done_cb v p exc w in
          let n : Net V = record { world = w'; selector = (add_watch fd events cb s).0 } in
          let (n', r') = wait_resume fd events cb p send n in
          (r ≡ ok tt)
          × (r' ≡ read_back (outcome_of v exc))
          × (n'.selector ≡ s)
          × (done_cb v p exc w' ≡ (w', ok tt)))
        × (let n : Net V = record { world = w; selector = (add_watch fd events cb s).0 } in
            let (n', r') = wait_resume fd events cb p (throw e) n in
            (r' ≡ raised e) × (n'.selector ≡ s))
  wait_ends v fd cb p events exc e w s cbs open_ h some_ kind pen plain =
      let o = outcome_of v exc in
      let w' : World V = settled w p o cbs in
      let fin = state-settled w p o cbs in
      let (a, b) = resume-open fd cb p events send w' s open_ h some_ in
      let (c, d) = resume-open fd cb p events (throw e) w s open_ h some_ in
      (
        rw (done_cb-pending v p exc w cbs kind pen plain) (
          refl,
          a ∙ await_finished w' p o (handles_from w.next_handle cbs) fin,
          b,
          done_cb-finished v p exc w' (is_finished_by w' p o (handles_from w.next_handle cbs) fin),
        ),
        (c ∙ thrown p e w, d),
      )
