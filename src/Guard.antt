-- ===== src/Guard.antt =====
-- aio/future/_factories.py: `_guard_task`, the context manager that `create_task` returns. `t` is
-- the task that it guards, `k` the number of its function `on_task_done`, and `j` that of the
-- function of the shield in its `finally`.
pub mod Failed
pub mod Exit
use aio.Prelude.{ℕ, Bool, true, false, Option, none, some, if◌then◌else◌}
use aio.Exceptions.{
  Exc, CancelClass, cancelled, is_caught, CancelArg, instance_of, Result, ok, raised, type_error,
}
use aio.World.{closure, World, M}
use aio.Future.{is_finished, exception, add_callback, remove_callback}
use aio.Task.{Resume, cancel_future}
use aio.Promises.{Started, at_once, waiting}
use aio.Shield.{shield_start, shield_resume}

-- What implements a future: the C module, the pure one, or something else.
pub data FutureImpl : Type 0 where
  c_future pure_future other_future : FutureImpl

-- `cancel_future` of the factories; that of the C module is an argument.
unfoldable pub cancel_by_impl :
    {V : Type 0}
    → (ℕ → CancelArg → M V (Unit {0}))
    → FutureImpl
    → ℕ
    → ℕ
    → CancelArg
    → M V (Unit {0})
cancel_by_impl c_cancel c_future n f arg w = c_cancel f arg w
cancel_by_impl c_cancel pure_future n f arg w = cancel_future n f arg w
cancel_by_impl c_cancel other_future n f arg w = (w, raised type_error)

-- `CancelledByChild(...)` and `CancelledByParent(...)`, as the arguments of `cancel_future`.
abbrev pub by_child_arg : CancelArg
by_child_arg = instance_of CancelClass.by_child (some "Child task finished with an exception")

abbrev pub by_parent_arg : CancelArg
by_parent_arg =
    instance_of CancelClass.by_parent (some "Parent task being aborted with an exception")

abbrev pub is_by_child : Exc → Bool
is_by_child (cancelled CancelClass.by_child m) = true
is_by_child _ = false

abbrev pub is_by_parent : Exc → Bool
is_by_parent (cancelled CancelClass.by_parent m) = true
is_by_parent _ = false

-- What leaves the context manager when the exception `x`, or none, is on its way.
abbrev pub in_flight : Option Exc → Result (Unit {0})
in_flight none = ok tt
in_flight (some e) = raised e

-- `sys.exc_info()` in the `finally`: the exception on its way, or else the one that the code round
-- the context manager is handling, `outer`.
abbrev pub parent_exc : Option Exc → Option Exc → Option Exc
parent_exc outer (some e) = some e
parent_exc outer none = outer

abbrev pub is_child_cancel : Option Exc → Bool
is_child_cancel none = false
is_child_cancel (some e) = is_by_child e

-- The `try` round `await shield(task)`, by how that ends.
pub guard_end : {V : Type 0} → Option Exc → Option Exc → Result V → Result (Unit {0})
guard_end outer x (ok v) = in_flight x
guard_end outer x (raised e) =
    if is_by_parent e
    then in_flight x
    else if is_caught e
    then if is_child_cancel (parent_exc outer x) then raised e else in_flight x
    else raised e

-- The context manager at its end: it is left, or it waits for a promise, with an exception on its
-- way.
pub data GuardExit : Type 0 where
  leaves : Result (Unit {0}) → GuardExit
  waits : ℕ → Option Exc → GuardExit

module _ {V : Type 0} where
  -- `on_task_done`; `parent` is the task that made the context manager.
  child_done : ℕ → ℕ → World V × Result (Option Exc) → World V × Result (Unit {0})
  child_done n parent (w, raised e) = (w, raised e)
  child_done n parent (w, ok none) = (w, ok tt)
  child_done n parent (w, ok (some e)) = cancel_future n parent by_child_arg w

  unfoldable pub on_task_done : ℕ → ℕ → ℕ → M V (Unit {0})
  unfolding child_done
  on_task_done n parent t w = child_done n parent (exception t w)

  -- Up to the `yield`.
  unfoldable pub guard_enter : ℕ → ℕ → M V (Unit {0})
  guard_enter t k w = add_callback t (closure k) w

  in_flight_after : Exc → World V × Result (Unit {0}) → World V × Option Exc
  in_flight_after e (w, ok u) = (w, some e)
  in_flight_after e (w, raised x) = (w, some x)

  -- The `except` clause: an exception of `cancel_future` takes the place of the body's.
  pub guard_except : ℕ → ℕ → ℕ → Exc → World V → World V × Option Exc
  unfolding in_flight_after
  guard_except n t k e w =
      let w' = remove_callback t (closure k) w in
      if is_finished w' t
      then (w', some e)
      else in_flight_after e (cancel_future n t by_parent_arg w')

  -- How the body of the `async with` ended.
  pub guard_leave : ℕ → ℕ → ℕ → Result (Unit {0}) → World V → World V × Option Exc
  unfolding guard_except
  guard_leave n t k (ok u) w = (w, none)
  guard_leave n t k (raised e) w = if is_caught e then guard_except n t k e w else (w, some e)

  pub guard_shield : Option Exc → Option Exc → World V × Result (Started V) → World V × GuardExit
  guard_shield outer x (w, ok (at_once v)) = (w, leaves (guard_end outer x (ok v)))
  guard_shield outer x (w, ok (waiting p)) = (w, waits p x)
  guard_shield outer x (w, raised e) = (w, leaves (guard_end {V = V} outer x (raised e)))

  -- From the `yield` up to the `await` of the `finally`.
  unfoldable pub guard_exit :
      ℕ → ℕ → ℕ → ℕ → ℕ → Option Exc → Result (Unit {0}) → World V → World V × GuardExit
  unfolding guard_leave guard_shield guard_end
  guard_exit l n t k j outer body w =
      let (w', x) = guard_leave n t k body w in
      guard_shield outer x (shield_start l t j (remove_callback t (closure k) w'))

  -- From that `await` on.
  unfoldable pub guard_resume : ℕ → ℕ → ℕ → Option Exc → Option Exc → Resume → M V (Unit {0})
  unfolding guard_end
  guard_resume t j p outer x how w =
      let (w', r) = shield_resume t j p how w in (w', guard_end outer x r)
