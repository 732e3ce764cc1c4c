-- ===== src/Shield/Mirror.antt =====
-- aio/funcs.py: a shield gives what its future is finished with, and keeps cancellations from it.
use aio.Prelude.{
  ℕ, ◌≡◌, refl, ap, ◌∙◌, true, false, none, some, List, arith, ◌==◌, Bool-cases, inl, inr,
}
use aio.Exceptions.{Exc, is_cancel, coerce_cancel_arg, ok, raised, future_finished_error}
use aio.World.{Callback, pending, failed, plain_future, World, is_done, set_state}
use aio.Future.{
  handles_from, state, is_finished, result, exception, set_result, promise_set_result,
  promise_set_exception, promise_cancel, future_cancel, await_resume,
}
use aio.Future.Settle.{
  Outcome, returns, raises, finished_by, val_of, exc_of, read_back, settled, set_result-pending,
  finished_once,
}
use aio.Task.{send}
use aio.Promises.{await_promise}
use aio.Shield.{cancel_arg_of, deliver, deliver_value, shield_done, shield_resume}

coerce_arg_of : (e : Exc) → is_cancel e ≡ true → coerce_cancel_arg (cancel_arg_of e) ≡ e
coerce_arg_of e h = ground arith

module _ {V : Type 0} where
  deliver_lem :
      (w : World V) (f p : ℕ) (e : Exc)
      → deliver f p (w, ok (some e)) ≡ set_result p none (some e) w
  unfolding deliver promise_cancel future_cancel promise_set_exception
  deliver_lem w f p e = elim (Bool-cases (is_cancel e)) [
    | inl c ↦ rw (c, deliver) (ap (λ x. set_result p none (some x) w) (coerce_arg_of e c))
    | inr c ↦ rw (c, deliver) refl
  ]

  shield_done_lem :
      (w : World V) (f p : ℕ) (o : Outcome V) (s : List (Callback × ℕ))
      → state w f ≡ finished_by o s
      → shield_done f p w ≡ set_result p (val_of o) (exc_of o) (exception f w).0
  unfolding shield_done is_finished exception deliver_value result promise_set_result deliver
  shield_done_lem w f p (returns v) s h = ground arith
  shield_done_lem w f p (raises e) s h =
      ground (arith, deliver_lem (set_state w f (failed e true s)) f p e)

  -- Reading the exception of one future changes no other.
  exception_other : (w : World V) (f p : ℕ) → (f == p) ≡ false → (exception f w).0.futs p ≡ w.futs p
  unfolding exception
  exception_other w f p ne = ground arith

  pub await_finished :
      (w : World V) (p : ℕ) (o : Outcome V) (s : List (Callback × ℕ))
      → state w p ≡ finished_by o s
      → (await_promise p send w).1 ≡ read_back o
  unfolding await_promise await_resume result
  await_finished w p (returns v) s h = ground arith
  await_finished w p (raises e) s h = ground arith

  pub shield_resume_result :
      (w : World V) (f k p : ℕ) (o : Outcome V) (s : List (Callback × ℕ))
      → state w p ≡ finished_by o s
      → (shield_resume f k p send w).1 ≡ read_back o
  unfolding shield_resume
  shield_resume_result w f k p o s h = await_finished w p o s h

  pub state-settled :
      (w : World V) (p : ℕ) (o : Outcome V) (cbs : List Callback)
      → state (settled w p o cbs) p ≡ finished_by o (handles_from w.next_handle cbs)
  state-settled w p o cbs = ground arith

  -- When the future that is shielded is finished and its callback is called: if the promise of the
  -- shield is pending, the callback raises nothing, and then the `await` of the shield returns the
  -- value or raises the exception of the future. If the promise is finished already, which a
  -- cancellation does, the callback raises `FutureFinishedError` and the promise stays as it is.
  pub shield_done_cases :
      (w : World V) (f k p : ℕ) (o : Outcome V) (s : List (Callback × ℕ))
      → (f == p) ≡ false
      → (w.futs p).kind ≡ plain_future
      → state w f ≡ finished_by o s
      → ((cbs : List Callback)
          → state w p ≡ pending cbs
          → let (w', r) = shield_done f p w in
            (r ≡ ok tt) × ((shield_resume f k p send w').1 ≡ read_back o))
        × (is_finished w p ≡ true
            → let (w', r) = shield_done f p w in
              (r ≡ raised future_finished_error) × (w'.futs p ≡ w.futs p))
  unfolding is_finished
  shield_done_cases w f k p o s ne kind h =
      let same = exception_other w f p ne in
      let w1 : World V = (exception f w).0 in
      rw (shield_done_lem w f p o s h) (
        (λ cbs pen.
            rw
              (set_result-pending w1 p o cbs (ap (λ x. x.kind) same ∙ kind)
                (ap (λ x. x.state) same ∙ pen))
              (
                refl,
                shield_resume_result (settled w1 p o cbs) f k p o (handles_from w1.next_handle cbs)
                    (state-settled w1 p o cbs),
              )),
        (λ done. rw (finished_once w1 p o (ap (λ x. is_done x.state) same ∙ done)) (refl, same)),
      )
