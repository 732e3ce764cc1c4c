-- ===== src/Task/Step/Runs.antt =====
-- aio/future/pure.py: what happens to a store of futures and tasks, one event after the other.
use aio.Prelude.{suc, ◌+◌, ℕ, ◌≡◌, refl, arith, ==_iff}
use aio.Exceptions.{ok}
use aio.World.{closure, World}
use aio.Future.{state}
use aio.Task.{Op, Code}
use aio.Task.Step.{exec_op, step}
use aio.Task.Step.Run.{comes_out}
use aio.Task.Wake.{Awake-Frame, Calls, Live, Wakeful}
use aio.Task.Wake.Handles.{handle_changed-Frame, handle_changed-Tracked}
use aio.Task.Step.Wake.{exec_op-Wakeful}
use aio.Task.Step.Turns.{AllAwake, AllAwake-Wakeful, after_call, YieldsKnown, turn-AllAwake}

module _ {V : Type 0} where
  -- What is done from outside of all tasks: by a callback that is no step, or before the loop runs.
  act-Wakeful :
      (n : ℕ) (o : Op V) (w : World V) (u : ℕ)
      → AllAwake w
      → Wakeful w (suc (w.next_fut + u)) (exec_op n o w)
  act-Wakeful n o w u k =
      let t = suc (w.next_fut + u) in
      exec_op-Wakeful n t o w (λ i. absurd (omega (arith, ((k.awake t).ready i).known)))
        (AllAwake-Wakeful t w k)

  pub act-AllAwake : (n : ℕ) (o : Op V) (w : World V) → AllAwake w → AllAwake (exec_op n o w)
  act-AllAwake n o w k = record {
    tracked = (act-Wakeful n o w 0 k).tracked;
    awake = λ u. (act-Wakeful n o w u k).awake u (ground (arith, ==_iff u (suc (w.next_fut + u))));
  }

  pub act-Calls : (n : ℕ) (o : Op V) (w : World V) → AllAwake w → Calls w (exec_op n o w)
  act-Calls n o w k = (act-Wakeful n o w 0 k).calls

  pub mark_closure-AllAwake :
      (h c : ℕ) (w : World V)
      → AllAwake w
      → (w.handles h).callback ≡ closure c
      → AllAwake (after_call w h)
  mark_closure-AllAwake h c w k e = record {
    tracked = handle_changed-Tracked w h _ refl k.tracked;
    awake = λ u. Awake-Frame u (handle_changed-Frame w h _ u (rw e refl)) (k.awake u);
  }

  -- What happens in a store of futures: a task's handle is called and its step raises nothing,
  -- something is done from outside of all tasks, and a handle of another callback is called.
  pub data Runs : World V → World V → Type 0 where
    ends : {w : World V} → Runs w w
    turns :
        {w x : World V} (n t h : ℕ) (code : Code V)
        → Live w t h
        → (step n t code w).1 ≡ ok tt
        → YieldsKnown (comes_out (state w t) (w.futs t).coro code) (step n t code w).0
        → Runs (after_call (step n t code w).0 h) x
        → Runs w x
    acts : {w x : World V} (n : ℕ) (o : Op V) → Runs (exec_op n o w) x → Runs w x
    calls :
        {w x : World V} (h c : ℕ)
        → (w.handles h).callback ≡ closure c
        → Runs (after_call w h) x
        → Runs w x

  -- Whatever the steps of tasks, the other callbacks and the program do, from a store in which
  -- every task is awake, as long as steps raise nothing and coroutines yield futures that exist:
  -- every task that is not finished is awake. It is of a state that can be stepped, and it has a
  -- live handle that steps it, or it waits for a future that has its step among its callbacks or,
  -- finished, among its live handles. No wake-up is lost.
  pub Runs-AllAwake : {w x : World V} → Runs w x → AllAwake w → AllAwake x
  Runs-AllAwake ends k = k
  Runs-AllAwake (turns {w} n t h code l fine b r) k =
      Runs-AllAwake r (turn-AllAwake n t h code w k l fine b)
  Runs-AllAwake (acts {w} n o r) k = Runs-AllAwake r (act-AllAwake n o w k)
  Runs-AllAwake (calls {w} h c e r) k = Runs-AllAwake r (mark_closure-AllAwake h c w k e)
