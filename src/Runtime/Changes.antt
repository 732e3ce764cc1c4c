-- ===== src/Runtime/Changes.antt =====
-- aio/future/pure.py: what callbacks, programs and timers keep of a store in which every task is
-- awake.
use aio.Prelude.{ℕ, suc, ◌≡◌, refl, ==_iff, Option, List, [], ◌∷◌, arith}
use aio.World.{closure, World, cancel_handle}
use aio.Sleep.{timer}
use aio.Task.{Op}
use aio.Task.Handles.{HandlesKept-refl, HandlesKept-trans, cancelled-Keeps}
use aio.Task.Step.{exec_op, exec_ops}
use aio.Task.Step.Runs.{act-AllAwake, act-Calls}
use aio.Task.Step.Turns.{AllAwake}
use aio.Task.Wake.{Awake-Frame, Calls, Moves}
use aio.Task.Wake.Handles.{new_handle-Moves, handle_changed-Moves}

module _ {V : Type 0} where
  -- What no task is the doer of.
  pub Moves-AllAwake : {w w' : World V} → ((t : ℕ) → Moves t w w') → AllAwake w → AllAwake w'
  Moves-AllAwake m k = record {
    tracked = (m 0).still;
    awake = λ u. Awake-Frame u ((m (suc u)).frame u (ground (arith, ==_iff u (suc u)))) (k.awake u);
  }

  -- What a function of the program does to futures.
  pub exec_ops-AllAwake :
      (n : ℕ) (os : List (Op V)) (w : World V) → AllAwake w → AllAwake (exec_ops n os w)
  unfolding exec_ops
  exec_ops-AllAwake n [] w k = k
  exec_ops-AllAwake n (o ∷ os) w k = exec_ops-AllAwake n os (exec_op n o w) (act-AllAwake n o w k)

  pub exec_ops-Calls :
      (n : ℕ) (os : List (Op V)) (w : World V) → AllAwake w → Calls w (exec_ops n os w)
  unfolding exec_ops
  exec_ops-Calls n [] w k = HandlesKept-refl w.next_handle w.handles
  exec_ops-Calls n (o ∷ os) w k =
      HandlesKept-trans (act-Calls n o w k)
        (exec_ops-Calls n os (exec_op n o w) (act-AllAwake n o w k))

  -- A new handle of a function of the program.
  pub timer-Moves :
      (t : ℕ) (when : Option ℕ) (l k : ℕ) (w : World V) → AllAwake w → Moves t w (timer when l k w)
  unfolding timer
  timer-Moves t when l k w a =
      new_handle-Moves t w _ (record { unused = refl; step_soon = λ u e. absurd (cc) }) a.tracked

  -- The handle of such a function is cancelled.
  pub dropped-Moves :
      (t h k : ℕ) (w : World V)
      → (w.handles h).callback ≡ closure k
      → AllAwake w
      → Moves t w (cancel_handle w h)
  dropped-Moves t h k w e a =
      handle_changed-Moves t w h _ (cancelled-Keeps (w.handles h)) (λ u ne. rw e refl) a.tracked
