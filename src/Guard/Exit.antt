-- ===== src/Guard/Exit.antt =====
-- aio/future/_factories.py: the guard of a task that is not finished when its body ends.
use aio.Prelude.{
  ℕ, suc, ◌<◌, ◌≡◌, refl, ap, sym, ◌∙◌, true, false, Option, some, List, [], arith, ◌==◌,
}
use aio.Exceptions.{Exc, is_caught, coerce_cancel_arg, Result, ok, raised}
use aio.World.{
  Callback, closure, pending, running, plain_future, task_future, coro_suspended, set_state, World,
  remove_from, add_to, failed,
}
use aio.Future.{
  state, is_finished, remove_callback, create_promise, new_promise, add_callback, handles_from,
}
use aio.Future.Callbacks.{futs-call_all, next_fut-call_all}
use aio.Promises.{Started, at_once, waiting}
use aio.Future.Settle.{Outcome, raises, settled}
use aio.Task.Cancel.{WaitsThrough, here, next, cancel_reaches}
use aio.Shield.{shield_start}
use aio.Guard.{by_parent_arg, waits, guard_except, guard_leave, guard_shield, guard_exit}

module _ {V : Type 0} where
  remove_running :
      (w : World V) (t g : ℕ) (cb : Callback) (cbs : List Callback)
      → state w t ≡ running cbs g
      → remove_callback t cb w ≡ set_state w t (running (remove_from cb cbs) g)
  unfolding remove_callback
  remove_running w t g cb cbs h = rw (h, remove_callback)

  -- The world after the `except` clause has told the awaited future to cancel.
  abbrev cancelled_child : World V → ℕ → ℕ → ℕ → List Callback → List Callback → World V
  cancelled_child w t g k cbs gcbs =
      settled (set_state w t (running (remove_from (closure k) cbs) g)) g
        (raises (coerce_cancel_arg by_parent_arg)) gcbs

  guard_leave-running :
      (n t k g : ℕ) (e : Exc) (w : World V) (cbs gcbs : List Callback)
      → (t == g) ≡ false
      → (w.futs t).kind ≡ task_future
      → (w.futs t).coro ≡ coro_suspended
      → state w t ≡ running cbs g
      → (w.futs g).kind ≡ plain_future
      → state w g ≡ pending gcbs
      → is_caught e ≡ true
      → guard_leave (suc (suc n)) t k (raised e) w ≡ (cancelled_child w t g k cbs gcbs, some e)
  unfolding guard_leave guard_except is_finished
  guard_leave-running n t k g e w cbs gcbs ne tk tc ts gk gs c =
      let w1 : World V = set_state w t (running (remove_from (closure k) cbs) g) in
      let chain : WaitsThrough w1 g 1 t =
        next (remove_from (closure k) cbs) g (ground arith) (ground arith) (ground arith)
          (ground arith) (here refl) in
      let told =
        cancel_reaches 1 (suc (suc n)) t g gcbs by_parent_arg w1 chain (omega arith) (ground arith)
          (ground arith) in
      rw (c, guard_leave)
        (rw (remove_running w t g (closure k) cbs ts, guard_except) (ground (arith, told)))

  shield_start-running :
      (l t j g : ℕ) (w : World V) (cbs : List Callback)
      → t < w.next_fut
      → state w t ≡ running cbs g
      → let (w', r) = shield_start l t j w in
        (r ≡ ok (waiting w.next_fut))
        × (state w' t ≡ running (add_to (closure j) cbs) g)
        × (state w' w.next_fut ≡ pending [])
        × ((f : ℕ) → (t == f) ≡ false → (w.next_fut == f) ≡ false → w'.futs f ≡ w.futs f)
  unfolding shield_start is_finished create_promise new_promise add_callback
  shield_start-running l t j g w cbs lt h =
      (ground arith, ground arith, ground arith, (λ f a b. ground arith))

  guard_shield-waiting :
      (outer x : Option Exc) (m : World V × Result (Started V)) {p : ℕ}
      → m.1 ≡ ok (waiting p)
      → guard_shield outer x m ≡ (m.0, waits p x)
  unfolding guard_shield
  guard_shield-waiting outer x (w, ok (at_once v)) h = absurd (ground arith)
  guard_shield-waiting outer x (w, ok (waiting q)) {p} h = ap (λ a. (w, waits a x)) (ground arith)
  guard_shield-waiting outer x (w, raised y) h = absurd (ground arith)

  -- When the body ends by an exception `e` that is no foreign `BaseException`, and the guarded task
  -- waits for a pending future `g`, then `g` is finished with a `CancelledByParent`, the context
  -- manager waits for a new pending promise with `e` on its way, and the task has the callback of
  -- the shield in place of the guard's.
  pub guard_exit_cancels :
      (l n t k j g : ℕ) (outer : Option Exc) (e : Exc) (w : World V) (cbs gcbs : List Callback)
      → (t == g) ≡ false
      → t < w.next_fut
      → g < w.next_fut
      → (w.futs t).kind ≡ task_future
      → (w.futs t).coro ≡ coro_suspended
      → state w t ≡ running cbs g
      → (w.futs g).kind ≡ plain_future
      → state w g ≡ pending gcbs
      → is_caught e ≡ true
      → let (w', x) = guard_exit l (suc (suc n)) t k j outer (raised e) w in
        (x ≡ waits w.next_fut (some e))
        × (state w' w.next_fut ≡ pending [])
        × (state w' g
            ≡ failed (coerce_cancel_arg by_parent_arg) false (handles_from w.next_handle gcbs))
        × (state w' t
            ≡ running
                (add_to (closure j) (remove_from (closure k) (remove_from (closure k) cbs)))
                g)
  unfolding guard_exit guard_shield
  guard_exit_cancels l n t k j g outer e w cbs gcbs ne lt lg tk tc ts gk gs c =
      let w1 : World V = set_state w t (running (remove_from (closure k) cbs) g) in
      let o : Outcome V = raises (coerce_cancel_arg by_parent_arg) in
      let w2 : World V = settled w1 g o gcbs in
      let t2 : state w2 t ≡ running (remove_from (closure k) cbs) g =
        ground (arith, ap (λ fs. fs t) (futs-call_all w1 (w1.futs g).loop g gcbs)) in
      let n2 : w2.next_fut ≡ w.next_fut = next_fut-call_all w1 (w1.futs g).loop g gcbs in
      let w3 : World V =
        set_state w2 t (running (remove_from (closure k) (remove_from (closure k) cbs)) g) in
      let (r, st, sp, others) =
        shield_start-running l t j g w3 (remove_from (closure k) (remove_from (closure k) cbs))
          (omega (arith, n2)) (ground arith) in
      let w4 : World V = (shield_start l t j w3).0 in
      let g3 : state w3 g
          ≡ failed (coerce_cancel_arg by_parent_arg) false (handles_from w.next_handle gcbs) =
        ground arith in
      rw (guard_leave-running n t k g e w cbs gcbs ne tk tc ts gk gs c) (
        rw (remove_running w2 t g (closure k) (remove_from (closure k) cbs) t2) (
          rw (guard_shield-waiting outer (some e) (shield_start l t j w3) r) (
            ap (λ m. waits m (some e)) n2,
            ap (λ m. state w4 m) (sym n2) ∙ sp,
            ap (λ f. f.state) (others g ne (ground (arith, n2))) ∙ g3,
            st,
          )))
