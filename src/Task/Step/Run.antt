-- ===== src/Task/Step/Run.antt =====
-- aio/future/pure.py: what one `Task._step` does to the task.
use aio.Prelude.{
  ℕ, ◌≤◌, ◌<◌, ◌≡◌, refl, ap, ◌∙◌, Bool, true, false, Option, none, some, List, arith,
  if◌then◌else◌,
}
use aio.Exceptions.{Exc, is_caught, ok, raised, runtime_error}
use aio.World.{
  Callback, FutState, pending, created, scheduled, cancelling, running, success, failed, CoroState,
  coro_created, coro_running, coro_suspended, coro_closed, task_future, World, waiting_callbacks,
  is_task_state, set_coro,
}
use aio.Future.{
  state, is_finished, result, exception, handles_from, base_set_result, task_set_result, set_result,
}
use aio.Future.Settle.{
  Outcome, returns, raises, val_of, exc_of, finished_by, settled, base_set_result_lem, read_back,
  exc_back, result-finished_by, exception-finished_by, is_finished_by,
}
use aio.Task.{Resume, send, throw, CoroOut, stopped, threw, Op, Code, is_inner_error}
use aio.Task.Step.{
  exec_ops, coro_after, resume_coro, resume_by, check_yielded, send_to_coroutine, detach,
  settle_step, after_send, is_steppable, step,
}
use aio.Task.Protect.{is_task_state-shape, shape, exec_ops-Same}

module _ {V : Type 0} where
  -- The states in which a task can be stepped, with the coroutine's state that goes with each.
  abbrev pub ready_state : FutState V → CoroState → Bool
  ready_state (scheduled cbs h) coro_created = true
  ready_state (running cbs f) coro_suspended = true
  ready_state (cancelling cbs h e) coro_created = true
  ready_state (cancelling cbs h e) coro_suspended = true
  ready_state _ _ = false

  pub record IsReady (w : World V) (t : ℕ) : Type 0 where
    pub is_task : (w.futs t).kind ≡ task_future
    pub known : t < w.next_fut
    pub ready : ready_state (state w t) (w.futs t).coro ≡ true

  abbrev pub inner_out : CoroOut V → Bool
  inner_out (threw e) = is_inner_error e
  inner_out _ = false

  pub ready_is_task_state :
      (s : FutState V) (c : CoroState) → ready_state s c ≡ true → is_task_state s ≡ true
  ready_is_task_state s c h = ground arith

  -- What holds of the task when its coroutine has come back.
  pub record Sent (w w' : World V) (t : ℕ) (out : CoroOut V) : Type 0 where
    pub kind_eq : (w'.futs t).kind ≡ task_future
    pub loop_eq : (w'.futs t).loop ≡ (w.futs t).loop
    pub coro_eq : inner_out out ≡ false → (w'.futs t).coro ≡ coro_after out
    pub shape_eq : shape (state w' t) ≡ shape (state w t)
    pub grows : w.next_fut ≤ w'.next_fut

  segment-Sent :
      (n t : ℕ) (out : CoroOut V) (ops : List (Op V)) (w : World V)
      → IsReady w t
      → let v = set_coro (record w { current_task = some t }) t coro_running in
        let u = set_coro (exec_ops n ops v) t (coro_after out) in
        Sent w (record u { current_task = w.current_task }) t (check_yielded out)
  unfolding check_yielded
  segment-Sent n t out ops w r = ground (
    arith,
    ready_is_task_state (state w t) (w.futs t).coro r.ready,
    exec_ops-Same n ops (set_coro (record w { current_task = some t }) t coro_running) t,
  )

  resume_coro-Sent :
      (c : CoroState) (r : Resume) (n t : ℕ) (code : Code V) (w : World V)
      → IsReady w t
      → (w.futs t).coro ≡ c
      → let (w', out) = resume_coro c r n t code (record w { current_task = some t }) in
        Sent w (record w' { current_task = w.current_task }) t (check_yielded out)
  unfolding resume_coro
  resume_coro-Sent coro_created send n t code w i e =
      segment-Sent n t (code send).out (code send).ops w i
  resume_coro-Sent coro_created (throw x) n t code w i e = unfold check_yielded in ground arith
  resume_coro-Sent coro_suspended r n t code w i e = segment-Sent n t (code r).out (code r).ops w i
  resume_coro-Sent coro_running r n t code w i e = absurd (ground (arith, i.ready))
  resume_coro-Sent coro_closed send n t code w i e = absurd (ground (arith, i.ready))
  resume_coro-Sent coro_closed (throw x) n t code w i e = absurd (ground (arith, i.ready))

  ready_resumes :
      (s : FutState V) (c : CoroState)
      → ready_state s c ≡ true
      → (r : Resume) × (resume_by s ≡ some r)
  unfolding resume_by
  ready_resumes (scheduled cbs h) c e = (send, refl)
  ready_resumes (running cbs h) c e = (send, refl)
  ready_resumes (cancelling cbs h x) c e = (throw x, refl)
  ready_resumes (pending cbs) c e = ground arith
  ready_resumes (created cbs) c e = ground arith
  ready_resumes (success v j) c e = ground arith
  ready_resumes (failed x r j) c e = ground arith

  -- The coroutine comes back from `send` or `throw` with the task as it was.
  pub send_to_coroutine-Sent :
      (n t : ℕ) (code : Code V) (w : World V)
      → IsReady w t
      → let (w', out) = send_to_coroutine n t code w in Sent w w' t out
  unfolding send_to_coroutine
  send_to_coroutine-Sent n t code w i =
      let (r, e) = ready_resumes (state w t) (w.futs t).coro i.ready in
      rw (e, send_to_coroutine) (resume_coro-Sent (w.futs t).coro r n t code w i refl)

  pub task_state_waits :
      (s : FutState V)
      → is_task_state s ≡ true
      → (cbs : List Callback) × (waiting_callbacks s ≡ some cbs)
  task_state_waits (created cbs) h = (cbs, refl)
  task_state_waits (scheduled cbs j) h = (cbs, refl)
  task_state_waits (cancelling cbs j e) h = (cbs, refl)
  task_state_waits (running cbs f) h = (cbs, refl)
  task_state_waits (pending cbs) h = cc
  task_state_waits (success v j) h = cc
  task_state_waits (failed e r j) h = cc

  set_result-closed :
      (t : ℕ) (o : Outcome V) (w : World V)
      → (w.futs t).kind ≡ task_future
      → (w.futs t).coro ≡ coro_closed
      → set_result t (val_of o) (exc_of o) w ≡ base_set_result t (val_of o) (exc_of o) w
  unfolding set_result task_set_result
  set_result-closed t (returns v) w k c = ground arith
  set_result-closed t (raises e) w k c = ground arith

  detach-finished :
      (t : ℕ) (o : Outcome V) (s : List (Callback × ℕ)) (w : World V)
      → state w t ≡ finished_by o s
      → detach t w ≡ w
  unfolding detach
  detach-finished t (returns v) s w e = rw (e, detach)
  detach-finished t (raises x) s w e = rw (e, detach)

  -- A task whose coroutine is closed is finished by the outcome.
  pub settle_step_lem :
      (t : ℕ) (o : Outcome V) (w : World V)
      → (w.futs t).kind ≡ task_future
      → (w.futs t).coro ≡ coro_closed
      → is_task_state (state w t) ≡ true
      → (s : List (Callback × ℕ)) × ((settle_step t (val_of o) (exc_of o) w).1 ≡ ok tt)
        × (state (settle_step t (val_of o) (exc_of o) w).0 t ≡ finished_by o s)
  unfolding settle_step
  settle_step_lem t o w k c i =
      let (cbs, e) = task_state_waits (state w t) i in
      let s : List (Callback × ℕ) = handles_from w.next_handle cbs in
      let done = set_result-closed t o w k c ∙ base_set_result_lem w t o cbs e in
      (
        s,
        rw (done, settle_step) refl,
        rw (done, settle_step)
            (rw (detach-finished t o s (settled w t o cbs) (ground arith)) (ground arith)),
      )

  -- How the coroutine of a ready task comes out of its resumption: an exception that is thrown into
  -- a coroutine that has not started leaves it at once.
  abbrev pub comes_out : FutState V → CoroState → Code V → CoroOut V
  comes_out (cancelling cbs h e) coro_created code = threw e
  comes_out (cancelling cbs h e) _ code = (code (throw e)).out
  comes_out _ _ code = (code send).out

  -- The outcome with which a coroutine ends: the value it returns, or the exception that leaves it
  -- if that is an `Exception` or a `Cancelled`.
  abbrev pub ends_with : CoroOut V → Option (Outcome V)
  ends_with (stopped v) = some (returns v)
  ends_with (threw e) =
      if is_inner_error e then none else if is_caught e then some (raises e) else none
  ends_with _ = none

  pub send_to_coroutine-out :
      (n t : ℕ) (code : Code V) (w : World V)
      → IsReady w t
      → (send_to_coroutine n t code w).1
        ≡ check_yielded (comes_out (state w t) (w.futs t).coro code)
  unfolding send_to_coroutine resume_coro resume_by
  send_to_coroutine-out n t code w i = ground (arith, i.ready)

  after_send-ends :
      (t : ℕ) (out : CoroOut V) (o : Outcome V) (w : World V)
      → ends_with out ≡ some o
      → after_send out t w ≡ settle_step t (val_of o) (exc_of o) w
  unfolding after_send
  after_send-ends t out (returns v) w e = ground arith
  after_send-ends t out (raises x) w e = ground arith

  pub step-after_send :
      (n t : ℕ) (code : Code V) (w : World V)
      → IsReady w t
      → step n t code w
        ≡ after_send (send_to_coroutine n t code w).1 t (send_to_coroutine n t code w).0
  unfolding step
  step-after_send n t code w i = ground (arith, i.ready)

  ends_closed :
      (out : CoroOut V) (o : Outcome V)
      → ends_with out ≡ some o
      → (check_yielded out ≡ out) × (inner_out out ≡ false) × (coro_after out ≡ coro_closed)
  unfolding check_yielded
  ends_closed out o e = ground arith

  pub Sent-is_task_state :
      (w w' : World V) (t : ℕ) (out : CoroOut V)
      → IsReady w t
      → Sent w w' t out
      → is_task_state (state w' t) ≡ true
  Sent-is_task_state w w' t out i s = ground (
    arith,
    ready_is_task_state (state w t) (w.futs t).coro i.ready,
    is_task_state-shape (state w t),
    is_task_state-shape (state w' t),
  )

  send_thrown :
      (n t h : ℕ) (cbs : List Callback) (e : Exc) (code code' : Code V) (w : World V)
      → state w t ≡ cancelling cbs h e
      → (w.futs t).coro ≡ coro_created
      → send_to_coroutine n t code w ≡ send_to_coroutine n t code' w
  unfolding send_to_coroutine resume_coro resume_by
  send_thrown n t h cbs e code code' w s c = rw (send_to_coroutine, s, c) refl

  -- An exception thrown into a coroutine that has not started: the step is the same for any code.
  pub step_thrown :
      (n t h : ℕ) (cbs : List Callback) (e : Exc) (code code' : Code V) (w : World V)
      → state w t ≡ cancelling cbs h e
      → (w.futs t).coro ≡ coro_created
      → step n t code w ≡ step n t code' w
  unfolding step
  step_thrown n t h cbs e code code' w s c =
      ap (λ m. if is_steppable (state w t) then after_send m.1 t m.0 else (w, raised runtime_error))
        (send_thrown n t h cbs e code code' w s c)

  -- If the coroutine of a ready task ends, by returning or by an exception that is no foreign
  -- `BaseException`, then the step raises nothing and the task is finished: `result` returns that
  -- value or raises that exception, and `exception` returns the exception or none. So it is
  -- whatever the coroutine did to futures and tasks before it ended.
  pub step_ends :
      (n t : ℕ) (code : Code V) (w : World V) (o : Outcome V)
      → IsReady w t
      → ends_with (comes_out (state w t) (w.futs t).coro code) ≡ some o
      → let (w', r) = step n t code w in
        (r ≡ ok tt)
        × (is_finished w' t ≡ true)
        × ((result t w').1 ≡ read_back o)
        × ((exception t w').1 ≡ exc_back o)
  step_ends n t code w o i e =
      let out = comes_out (state w t) (w.futs t).coro code in
      let w₁ = (send_to_coroutine n t code w).0 in
      let (same, inner, closed) = ends_closed out o e in
      let came = send_to_coroutine-out n t code w i ∙ same in
      let sent = send_to_coroutine-Sent n t code w i in
      let step_eq =
        step-after_send n t code w i
        ∙ after_send-ends t (send_to_coroutine n t code w).1 o w₁ (rw came e) in
      let (s, fine, done) =
        settle_step_lem t o w₁ sent.kind_eq (sent.coro_eq (rw came inner) ∙ rw came closed)
          (Sent-is_task_state w w₁ t _ i sent) in
      rw step_eq (
        fine,
        is_finished_by _ t o s done,
        result-finished_by _ t o s done,
        exception-finished_by _ t o s done,
      )
