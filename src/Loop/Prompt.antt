-- ===== src/Loop/Prompt.antt =====
-- aio/loop/pure/impl.py: handles that were called or cancelled.
pub mod Step
pub mod Late
use aio.Prelude.{
  ℕ, ◌+◌, ◌<◌, ◌≡◌, refl, Bool, true, Option, none, some, List, [], ◌∷◌, ◌++◌, arith, Bool-cases,
  inl, inr, ◌||◌, ltb, ◌==◌,
}
use aio.Exceptions.{Exc, is_exception, Result, ok, raised}
use aio.World.{Callback, Args}
use aio.Scheduler.Heap.{Heapq}
use aio.Scheduler.Times.{times, times-append}
use aio.Loop.{
  Loop, LoopOp, calls_soon, calls_later, cancels_handle, stops, Effect, Turn, wakeup_if_in_poll,
  add_handle, call_soon, call_later, exec_op, exec_ops, report, invoke_callback, mark_executed,
  invoke_handle, invoke_handles, invoke_events, pop, poll, late_part, events_part,
}

-- The handle was called, or it is cancelled.
abbrev pub is_settled : ℕ → Loop → Bool
is_settled h l = (l.handles h).is_cancelled || ltb 0 (times h l.called)

-- The handle is of the loop, and settled if `p`.
abbrev pub Settles : Bool → ℕ → Loop → Type 0
Settles p h l = (h < l.next_handle) × (p ≡ true → is_settled h l ≡ true)

module _ (hq : Heapq ℕ) (p : Bool) (h : ℕ) where
  add_handle-Settles :
      (when : Option ℕ) (cb : Callback) (args : Args) (l : Loop)
      → Settles p h l
      → Settles p h (add_handle hq when cb args l)
  unfolding add_handle wakeup_if_in_poll
  add_handle-Settles when cb args l s = elim (Bool-cases l.in_poll) [
    | inl e ↦ rw e ((omega (arith, s.0)), (λ q. ground (arith, s.0, s.1 q)))
    | inr e ↦ rw e ((omega (arith, s.0)), (λ q. ground (arith, s.0, s.1 q)))
  ]

  exec_op-Settles : (o : LoopOp) (l : Loop) → Settles p h l → Settles p h (exec_op hq o l)
  unfolding exec_op call_soon call_later
  exec_op-Settles (calls_soon cb args) l s = add_handle-Settles none cb args l s
  exec_op-Settles (calls_later now timeout cb args) l s = elim (Bool-cases (timeout == 0)) [
    | inl e ↦ rw (e, call_later) (add_handle-Settles none cb args l s)
    | inr e ↦ rw (e, call_later) (add_handle-Settles (some (now + timeout)) cb args l s)
  ]
  exec_op-Settles (cancels_handle x) l s = (s.0, (λ q. ground (arith, s.1 q)))
  exec_op-Settles stops l s = s

  exec_ops-Settles : (os : List LoopOp) (l : Loop) → Settles p h l → Settles p h (exec_ops hq os l)
  unfolding exec_ops
  exec_ops-Settles [] l s = s
  exec_ops-Settles (o ∷ os) l s = exec_ops-Settles os (exec_op hq o l) (exec_op-Settles o l s)

  report-Settles : (y x : Option Exc) (l : Loop) → Settles p h l → Settles p h (report hq y x l).0
  unfolding report
  report-Settles y none l s = s
  report-Settles none (some e) l s = elim (Bool-cases (is_exception e)) [
    | inl caught ↦ rw caught s
    | inr foreign ↦ rw foreign s
  ]
  report-Settles (some broken) (some e) l s = s

  pub invoke_callback-Settles :
      (eff : Effect) (l : Loop) → Settles p h l → Settles p h (invoke_callback hq eff l).0
  unfolding invoke_callback
  invoke_callback-Settles eff l s =
      report-Settles eff.handler eff.exc (exec_ops hq eff.ops l) (exec_ops-Settles eff.ops l s)

  pub mark_executed-Settles :
      (x : ℕ) (m : Loop × Result (Unit {0}))
      → Settles p h m.0
      → Settles p h (mark_executed hq x m).0
  unfolding mark_executed
  mark_executed-Settles x (l, ok u) s = (s.0, (λ q. ground (arith, s.1 q)))
  mark_executed-Settles x (l, raised e) s = s

  -- A call of another handle.
  pub invoke_handle-Settles :
      (code : ℕ → Effect) (x : ℕ) (l : Loop)
      → Settles p h l
      → Settles p h (invoke_handle hq code x l).0
  unfolding invoke_handle
  invoke_handle-Settles code x l s = elim (Bool-cases (l.handles x).is_cancelled) [
    | inl e ↦ rw (e, invoke_handle) s
    | inr e ↦
        let told : Loop = record l { called = l.called ++ x ∷ [] } in
        rw (e, invoke_handle)
          (mark_executed-Settles x (invoke_callback hq (code x) told) (
            invoke_callback-Settles (code x) told
              (s.0, (λ q. ground (arith, s.1 q, times-append h l.called (x ∷ []))))))
  ]

  -- The loop goes on after the first call, or that was the last.
  pub invoke_handles-cons :
      (code : ℕ → Effect) (x : ℕ) (xs : List ℕ) (l : Loop)
      → Settles p h (invoke_handle hq code x l).0
      → Settles p h (invoke_handles hq code xs (invoke_handle hq code x l).0).0
      → Settles p h (invoke_handles hq code (x ∷ xs) l).0
  unfolding invoke_handles
  invoke_handles-cons code x xs l s rest = go (invoke_handle hq code x l).1 refl
    where
      go :
          (r : Result (Unit {0}))
          → (invoke_handle hq code x l).1 ≡ r
          → Settles p h (invoke_handles hq code (x ∷ xs) l).0
      go (ok u) e = rw (e, invoke_handles) rest
      go (raised y) e = rw (e, invoke_handles) s

  pub invoke_handles-Settles :
      (code : ℕ → Effect) (hs : List ℕ) (l : Loop)
      → Settles p h l
      → Settles p h (invoke_handles hq code hs l).0
  unfolding invoke_handles
  invoke_handles-Settles code [] l s = s
  invoke_handles-Settles code (x ∷ xs) l s =
      let first = invoke_handle-Settles code x l s in
      invoke_handles-cons code x xs l first
        (invoke_handles-Settles code xs (invoke_handle hq code x l).0 first)

  invoke_events-Settles :
      (xs : List Effect) (l : Loop) → Settles p h l → Settles p h (invoke_events hq xs l).0
  unfolding invoke_events
  invoke_events-Settles [] l s = s
  invoke_events-Settles (x ∷ xs) l s =
      go (invoke_callback hq x l).1 refl
        (invoke_events-Settles xs (invoke_callback hq x l).0 (invoke_callback-Settles x l s))
    where
      go :
          (r : Result (Unit {0}))
          → (invoke_callback hq x l).1 ≡ r
          → Settles p h (invoke_events hq xs (invoke_callback hq x l).0).0
          → Settles p h (invoke_events hq (x ∷ xs) l).0
      go (ok u) e rest = rw (e, invoke_events) rest
      go (raised y) e rest = rw (e, invoke_events) (invoke_callback-Settles x l s)

  pub pop-Settles : (threshold : ℕ) (l : Loop) → Settles p h l → Settles p h (pop hq threshold l).0
  unfolding pop
  pop-Settles threshold l s = s

  pub poll-Settles : (os : List LoopOp) (l : Loop) → Settles p h l → Settles p h (poll hq os l)
  unfolding poll
  poll-Settles os l s = exec_ops-Settles os (record l { in_poll = true }) s

  pub events_part-Settles :
      (turn : Turn) (m : Loop × Result (Unit {0}))
      → Settles p h m.0
      → Settles p h (events_part hq turn m).0
  unfolding events_part
  events_part-Settles turn (l, ok u) s = invoke_events-Settles turn.io l s
  events_part-Settles turn (l, raised e) s = s

  pub late_part-Settles :
      (code : ℕ → Effect) (turn : Turn) (m : Loop × Result (Unit {0}))
      → Settles p h m.0
      → Settles p h (late_part hq code turn m).0
  unfolding late_part
  late_part-Settles code turn (l, ok u) s =
      let threshold = turn.after_select + turn.resolution in
      invoke_handles-Settles code (pop hq threshold l).1 (pop hq threshold l).0
        (pop-Settles threshold l s)
  late_part-Settles code turn (l, raised e) s = s
