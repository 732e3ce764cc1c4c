-- ===== src/Task/Step/Turns.antt =====
-- aio/future/pure.py: a step of a task that raises nothing leaves that task awake or finishes it,
-- and the others awake.
use aio.Prelude.{
  ℕ, ◌≤◌, ◌<◌, ◌≡◌, refl, subst, sym, ap, ◌∙◌, ◌⊎◌, inl, inr, true, false, some, arith, ◌==◌,
  ==_iff, Bool-cases, update,
}
use aio.Exceptions.{is_caught, ok}
use aio.World.{step_of, World, is_task_state, task_future}
use aio.Future.{state, is_finished, add_callback}
use aio.Future.Settle.{Outcome, returns, raises}
use aio.Task.{CoroOut, yielded, yielded_other, stopped, threw, Code, is_inner_error}
use aio.Task.Step.{
  send_to_coroutine, check_yielded, detach, wait_on, after_send, is_steppable, step,
}
use aio.Task.Step.Run.{
  IsReady, comes_out, ends_with, step-after_send, send_to_coroutine-out, send_to_coroutine-Sent,
  Sent-is_task_state, step_ends,
}
use aio.Task.Step.Wait.{Waits, detach-Same, step-yielded, step-Waits}
use aio.Task.Wake.{Live, AwakeIn, Awake, Awake-finished, Awake-Frame, Calls, Tracked, Wakeful}
use aio.Task.Handles.{HandlesKept-refl}
use aio.Task.Wake.Handles.{handle_changed-Frame, handle_changed-Tracked}
use aio.Task.Wake.Cancel.{other_step}
use aio.Task.Step.Wake.{send_to_coroutine-Wakeful, after_send-Wakeful}

module _ {V : Type 0} where
  pub record AllAwake (w : World V) : Type 0 where
    pub tracked : Tracked w
    pub awake : (u : ℕ) → Awake w u

  -- The loop marks a handle that it has called.
  abbrev pub after_call : World V → ℕ → World V
  after_call w h = record w {
    handles = update w.handles h (record (w.handles h) { executed = true });
  }

  step-Wakeful :
      (n t : ℕ) (code : Code V) (w : World V)
      → IsReady w t
      → Wakeful w t w
      → Wakeful w t (step n t code w).0
  step-Wakeful n t code w i k = rw (step-after_send n t code w i) (
      after_send-Wakeful (send_to_coroutine n t code w).1 t (send_to_coroutine n t code w).0
        (send_to_coroutine-Wakeful n t code w i k))

  pub AllAwake-Wakeful : (t : ℕ) (w : World V) → AllAwake w → Wakeful w t w
  AllAwake-Wakeful t w k = record {
    tracked = k.tracked;
    awake = λ u ne. k.awake u;
    calls = HandlesKept-refl w.next_handle w.handles;
  }

  finished_is_no_task_state :
      (w : World V) (t : ℕ) → is_finished w t ≡ true → is_task_state (state w t) ≡ false
  unfolding is_finished
  finished_is_no_task_state w t d = ground arith

  step_ended-Awake :
      (n t h : ℕ) (code : Code V) (w : World V) (o : Outcome V)
      → IsReady w t
      → ends_with (comes_out (state w t) (w.futs t).coro code) ≡ some o
      → Awake (after_call (step n t code w).0 h) t
  step_ended-Awake n t h code w o i e =
      Awake-finished _ t (finished_is_no_task_state _ t (step_ends n t code w o i e).1)

  after_send_outcomes :
      (t : ℕ) (out : CoroOut V) (w : World V)
      → (after_send (check_yielded out) t w).1 ≡ ok tt
      → ((f : ℕ) × (out ≡ yielded f)) ⊎ ((o : Outcome V) × (ends_with out ≡ some o))
  unfolding after_send check_yielded
  after_send_outcomes t (yielded f) w fine = inl (f, refl)
  after_send_outcomes t yielded_other w fine = absurd (cc)
  after_send_outcomes t (stopped v) w fine = inr (returns v, refl)
  after_send_outcomes t (threw e) w fine = elim (Bool-cases (is_inner_error e)) [
    | inl x ↦ absurd (ground arith)
    | inr x ↦ elim (Bool-cases (is_caught e)) [
      | inl y ↦ inr (raises e, rw (x, y) refl)
      | inr y ↦ absurd (ground arith)
    ]
  ]

  -- A step that raises nothing ends in a yield or finishes the task.
  step_outcomes :
      (n t : ℕ) (code : Code V) (w : World V)
      → IsReady w t
      → (step n t code w).1 ≡ ok tt
      → let out = comes_out (state w t) (w.futs t).coro code in
        ((f : ℕ) × (out ≡ yielded f)) ⊎ ((o : Outcome V) × (ends_with out ≡ some o))
  step_outcomes n t code w i fine = after_send_outcomes t _ (send_to_coroutine n t code w).0 (
      ap (λ out. (after_send out t (send_to_coroutine n t code w).0).1)
        (sym (send_to_coroutine-out n t code w i))
      ∙ ap (λ m. m.1) (sym (step-after_send n t code w i))
      ∙ fine)

  wait_on_keeps :
      (t f : ℕ) (w : World V)
      → (((wait_on t f w).0.futs t).kind ≡ (w.futs t).kind)
        × ((wait_on t f w).0.next_fut ≡ w.next_fut)
  unfolding wait_on add_callback
  wait_on_keeps t f w = ground arith

  step_yielded-kept :
      (n t f : ℕ) (code : Code V) (w : World V)
      → IsReady w t
      → comes_out (state w t) (w.futs t).coro code ≡ yielded f
      → (((step n t code w).0.futs t).kind ≡ task_future)
        × (w.next_fut ≤ (step n t code w).0.next_fut)
  step_yielded-kept n t f code w i e =
      let w₁ = (send_to_coroutine n t code w).0 in
      let sent = send_to_coroutine-Sent n t code w i in
      let same = detach-Same t w₁ (Sent-is_task_state w w₁ t _ i sent) in
      let (kind, fresh) = wait_on_keeps t f (detach t w₁) in
      rw (step-yielded n t f code w i e)
        (kind ∙ same.kind_eq ∙ sent.kind_eq, omega (arith, fresh, same.grows, sent.grows))

  step_yielded-Awake :
      (n t f h : ℕ) (code : Code V) (w : World V)
      → IsReady w t
      → comes_out (state w t) (w.futs t).coro code ≡ yielded f
      → (step n t code w).1 ≡ ok tt
      → f < (step n t code w).0.next_fut
      → Awake (after_call (step n t code w).0 h) t
  step_yielded-Awake n t f h code w i e fine b =
      let x : Waits _ t f = step-Waits n t f code w i e fine in
      let (kind, grows) = step_yielded-kept n t f code w i e in
      record {
        ready = λ j. record {
          is_task = kind;
          known = omega (arith, i.known);
          ready = ground (arith, x.waits, x.suspended);
        };
        awake =
            subst (AwakeIn (after_call (step n t code w).0 h) t) (sym x.waits)
              (b, inl (x.waiters, x.unfinished, x.registered));
      }

  -- What the coroutine of a task yields is a future that exists.
  abbrev pub YieldsKnown : CoroOut V → World V → Type 0
  YieldsKnown (yielded f) w = f < w.next_fut
  YieldsKnown _ w = Unit {0}

  step-Awake :
      (n t h : ℕ) (code : Code V) (w : World V)
      → IsReady w t
      → (step n t code w).1 ≡ ok tt
      → YieldsKnown (comes_out (state w t) (w.futs t).coro code) (step n t code w).0
      → Awake (after_call (step n t code w).0 h) t
  step-Awake n t h code w i fine b = elim (step_outcomes n t code w i fine) [
    | inl (f, e) ↦
        step_yielded-Awake n t f h code w i e fine
          (subst (λ out. YieldsKnown out (step n t code w).0) e b)
    | inr (o, e) ↦ step_ended-Awake n t h code w o i e
  ]

  step_ok-is_task_state :
      (n t : ℕ) (code : Code V) (w : World V)
      → (step n t code w).1 ≡ ok tt
      → is_task_state (state w t) ≡ true
  unfolding step is_steppable
  step_ok-is_task_state n t code w fine = ground arith

  -- A step keeps the handles.
  pub step-Calls :
      (n t : ℕ) (code : Code V) (w : World V)
      → AllAwake w
      → (step n t code w).1 ≡ ok tt
      → Calls w (step n t code w).0
  step-Calls n t code w k fine =
      let i = (k.awake t).ready (step_ok-is_task_state n t code w fine) in
      (step-Wakeful n t code w i (AllAwake-Wakeful t w k)).calls

  -- One call of a handle of a task.
  pub turn-AllAwake :
      (n t h : ℕ) (code : Code V) (w : World V)
      → AllAwake w
      → Live w t h
      → (step n t code w).1 ≡ ok tt
      → YieldsKnown (comes_out (state w t) (w.futs t).coro code) (step n t code w).0
      → AllAwake (after_call (step n t code w).0 h)
  turn-AllAwake n t h code w k l fine b =
      let i = (k.awake t).ready (step_ok-is_task_state n t code w fine) in
      let w' = (step n t code w).0 in
      let others = step-Wakeful n t code w i (AllAwake-Wakeful t w k) in
      let mine : (w'.handles h).callback ≡ step_of t =
        (others.calls.old h l.known).callback_eq ∙ l.steps in
      record {
        tracked = handle_changed-Tracked w' h _ refl others.tracked;
        awake = λ u. elim (Bool-cases (u == t)) [
          | inl e ↦
              subst (Awake (after_call w' h)) (sym ((==_iff u t).0 e))
                (step-Awake n t h code w i fine b)
          | inr e ↦
              Awake-Frame u (handle_changed-Frame w' h _ u (rw mine (other_step t u e)))
                (others.awake u e)
        ];
      }
