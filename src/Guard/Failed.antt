-- ===== src/Guard/Failed.antt =====
-- aio/future/_factories.py: how the guard of a task ends, when the task is finished.
use aio.Prelude.{
  ℕ, Bool, Option-cases, Bool-cases, inl, inr, ◌≡◌, refl, ap, ◌∙◌, true, false, Option, none, some,
  List, arith,
}
use aio.Exceptions.{Exc, is_caught, Result, ok, raised}
use aio.World.{Callback, closure, success, failed, World, handle_of, pop_from}
use aio.Future.{state, is_finished, result, remove_callback}
use aio.Future.Settle.{Outcome, returns, raises, read_back}
use aio.Shield.{shield_start}
use aio.Guard.{
  is_by_child, is_by_parent, is_child_cancel, guard_end, leaves, guard_except, guard_leave,
  guard_shield, guard_exit,
}

-- The exception with which the body ended.
abbrev pub body_exc : Result (Unit {0}) → Option Exc
body_exc (ok u) = none
body_exc (raised e) = some e

module _ {V : Type 0} where
  -- A future that is finished with `o`, whether that was read or not.
  abbrev pub HasOutcome : Outcome V → World V → ℕ → Type 0
  HasOutcome (returns v) w t = (s : List (Callback × ℕ)) × (state w t ≡ success v s)
  HasOutcome (raises e) w t =
      (seen : Bool) × (s : List (Callback × ℕ)) × (state w t ≡ failed e seen s)

  remove_success :
      (w : World V) (t : ℕ) (cb : Callback) (v : V) (s : List (Callback × ℕ))
      → state w t ≡ success v s
      → (s' : List (Callback × ℕ)) × (state (remove_callback t cb w) t ≡ success v s')
  unfolding remove_callback
  remove_success w t cb v s h = elim (Option-cases (handle_of cb s)) [
    | inl e ↦ (s, ground arith)
    | inr (n, e) ↦ (pop_from cb s, ground arith)
  ]

  remove_failed :
      (w : World V) (t : ℕ) (cb : Callback) (e : Exc) (seen : Bool) (s : List (Callback × ℕ))
      → state w t ≡ failed e seen s
      → (s' : List (Callback × ℕ)) × (state (remove_callback t cb w) t ≡ failed e seen s')
  unfolding remove_callback
  remove_failed w t cb e seen s h = elim (Option-cases (handle_of cb s)) [
    | inl m ↦ (s, ground arith)
    | inr (n, m) ↦ (pop_from cb s, ground arith)
  ]

  pub remove_callback-HasOutcome :
      (w : World V) (t : ℕ) (cb : Callback) (o : Outcome V)
      → HasOutcome o w t
      → HasOutcome o (remove_callback t cb w) t
  remove_callback-HasOutcome w t cb (returns v) (s, h) = remove_success w t cb v s h
  remove_callback-HasOutcome w t cb (raises e) (seen, s, h) =
      let (s', h') = remove_failed w t cb e seen s h in (seen, s', h')

  HasOutcome-finished :
      (w : World V) (t : ℕ) (o : Outcome V) → HasOutcome o w t → is_finished w t ≡ true
  unfolding is_finished
  HasOutcome-finished w t (returns v) (s, h) = ground arith
  HasOutcome-finished w t (raises e) (seen, s, h) = ground arith

  guard_leave-finished :
      (n t k : ℕ) (body : Result (Unit {0})) (w : World V) (o : Outcome V)
      → HasOutcome o w t
      → let (w', x) = guard_leave n t k body w in (x ≡ body_exc body) × HasOutcome o w' t
  unfolding guard_leave guard_except
  guard_leave-finished n t k (ok u) w o h = (refl, h)
  guard_leave-finished n t k (raised e) w o h =
      let h' = remove_callback-HasOutcome w t (closure k) o h in
      let d = HasOutcome-finished (remove_callback t (closure k) w) t o h' in
      (elim (Bool-cases (is_caught e)) [
        | inl c ↦ rw (c, guard_leave) (rw (d, guard_except) (refl, h'))
        | inr c ↦ rw (c, guard_leave) (refl, h)
      ])

  guard_shield-finished :
      (l t j : ℕ) (outer x : Option Exc) (w : World V) (o : Outcome V)
      → HasOutcome o w t
      → (guard_shield outer x (shield_start l t j w)).1 ≡ leaves (guard_end outer x (read_back o))
  unfolding guard_shield shield_start is_finished result guard_end
  guard_shield-finished l t j outer x w (returns v) (s, h) = rw (h, shield_start) (refl)
  guard_shield-finished l t j outer x w (raises e) (seen, s, h) = rw (h, shield_start) (refl)

  pub guard_exit-finished :
      (l n t k j : ℕ) (outer : Option Exc) (body : Result (Unit {0})) (w : World V) (o : Outcome V)
      → HasOutcome o w t
      → (guard_exit l n t k j outer body w).1
        ≡ leaves (guard_end outer (body_exc body) (read_back o))
  unfolding guard_exit
  guard_exit-finished l n t k j outer body w o h =
      let (x, h') = guard_leave-finished n t k body w o h in
      let w' : World V = (guard_leave n t k body w).0 in
      guard_shield-finished l t j outer (guard_leave n t k body w).1
        (remove_callback t (closure k) w') o (remove_callback-HasOutcome w' t (closure k) o h')
      ∙ ap (λ y. leaves (guard_end outer y (read_back o))) x

  -- When the guarded task has failed with an exception `e` that is no foreign `BaseException` and
  -- no `CancelledByParent`, the context manager does not wait. If the body was ended by the
  -- `CancelledByChild` that the failure caused, `e` leaves it; if the body ended by another
  -- exception, that one does; and if the body ended well, and no `CancelledByChild` is being
  -- handled round it, nothing leaves it: the failure of the task is lost.
  pub guard_exit_failed :
      (l n t k j : ℕ) (outer : Option Exc) (e x : Exc) (w : World V)
      → HasOutcome (raises e) w t
      → is_caught e ≡ true
      → is_by_parent e ≡ false
      → (is_by_child x ≡ true → (guard_exit l n t k j outer (raised x) w).1 ≡ leaves (raised e))
        × (is_by_child x ≡ false → (guard_exit l n t k j outer (raised x) w).1 ≡ leaves (raised x))
        × (is_child_cancel outer ≡ false
            → (guard_exit l n t k j outer (ok tt) w).1 ≡ leaves (ok tt))
  unfolding guard_end
  guard_exit_failed l n t k j outer e x w h c p = (
    (λ b. guard_exit-finished l n t k j outer (raised x) w (raises e) h ∙ ap leaves (ground arith)),
    (λ b. guard_exit-finished l n t k j outer (raised x) w (raises e) h ∙ ap leaves (ground arith)),
    (λ b. guard_exit-finished l n t k j outer (ok tt) w (raises e) h ∙ ap leaves (ground arith)),
  )
