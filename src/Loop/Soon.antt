-- ===== src/Loop/Soon.antt =====
-- aio/loop/pure/impl.py: the handles to be called soon, until the scheduler is popped.
use aio.Prelude.{
  ℕ, ◌+◌, ◌≤◌, ◌<◌, ◌≡◌, refl, Option, none, some, List, [], ◌∷◌, ◌++◌, arith, Bool-cases, inl, inr,
  ◌==◌,
}
use aio.Exceptions.{Exc, is_exception, Result, ok, raised}
use aio.World.{Callback, Args}
use aio.Scheduler.{handle_priority}
use aio.Scheduler.Heap.{Heapq}
use aio.Scheduler.Times.{times, times-append, soon-enqueue}
use aio.Loop.Threads.{min_priority-store}
use aio.Loop.{
  Loop, LoopOp, calls_soon, calls_later, cancels_handle, stops, Effect, Turn, store_handle,
  wakeup_if_in_poll, add_handle, call_soon, call_later, exec_op, exec_ops, report, invoke_callback,
  mark_executed, invoke_handle, invoke_handles, early_part, invoke_events, events_part,
}

-- The handle is to be called soon.
abbrev pub IsSoon : ℕ → Loop → Type 0
IsSoon h l = 0 < times h l.scheduler.min_priority

module _ (hq : Heapq ℕ) (h : ℕ) where
  add_handle-IsSoon :
      (when : Option ℕ) (cb : Callback) (args : Args) (l : Loop)
      → IsSoon h l
      → IsSoon h (add_handle hq when cb args l)
  unfolding add_handle wakeup_if_in_poll
  add_handle-IsSoon when cb args l s = elim (Bool-cases l.in_poll) [
    | inl e ↦ rw e (omega (arith, s, kept))
    | inr e ↦ rw e (omega (arith, s, kept))
  ]
    where
      kept :
          times h l.scheduler.min_priority
          ≤ times h (store_handle hq when cb args l).scheduler.min_priority
      kept =
          soon-enqueue hq (handle_priority (store_handle hq when cb args l).handles) l.next_handle h
            l.scheduler

  exec_op-IsSoon : (o : LoopOp) (l : Loop) → IsSoon h l → IsSoon h (exec_op hq o l)
  unfolding exec_op call_soon call_later
  exec_op-IsSoon (calls_soon cb args) l s = add_handle-IsSoon none cb args l s
  exec_op-IsSoon (calls_later now timeout cb args) l s = elim (Bool-cases (timeout == 0)) [
    | inl e ↦ rw (e, call_later) (add_handle-IsSoon none cb args l s)
    | inr e ↦ rw (e, call_later) (add_handle-IsSoon (some (now + timeout)) cb args l s)
  ]
  exec_op-IsSoon (cancels_handle x) l s = s
  exec_op-IsSoon stops l s = s

  pub exec_ops-IsSoon : (os : List LoopOp) (l : Loop) → IsSoon h l → IsSoon h (exec_ops hq os l)
  unfolding exec_ops
  exec_ops-IsSoon [] l s = s
  exec_ops-IsSoon (o ∷ os) l s = exec_ops-IsSoon os (exec_op hq o l) (exec_op-IsSoon o l s)

  report-IsSoon : (y x : Option Exc) (l : Loop) → IsSoon h l → IsSoon h (report hq y x l).0
  unfolding report
  report-IsSoon y none l s = s
  report-IsSoon none (some e) l s = elim (Bool-cases (is_exception e)) [
    | inl caught ↦ rw caught s
    | inr foreign ↦ rw foreign s
  ]
  report-IsSoon (some broken) (some e) l s = s

  invoke_callback-IsSoon :
      (eff : Effect) (l : Loop) → IsSoon h l → IsSoon h (invoke_callback hq eff l).0
  unfolding invoke_callback
  invoke_callback-IsSoon eff l s =
      report-IsSoon eff.handler eff.exc (exec_ops hq eff.ops l) (exec_ops-IsSoon eff.ops l s)

  mark_executed-IsSoon :
      (x : ℕ) (m : Loop × Result (Unit {0})) → IsSoon h m.0 → IsSoon h (mark_executed hq x m).0
  unfolding mark_executed
  mark_executed-IsSoon x (l, ok u) s = s
  mark_executed-IsSoon x (l, raised e) s = s

  invoke_handle-IsSoon :
      (code : ℕ → Effect) (x : ℕ) (l : Loop) → IsSoon h l → IsSoon h (invoke_handle hq code x l).0
  unfolding invoke_handle
  invoke_handle-IsSoon code x l s = elim (Bool-cases (l.handles x).is_cancelled) [
    | inl e ↦ rw (e, invoke_handle) s
    | inr e ↦
        let told : Loop = record l { called = l.called ++ x ∷ [] } in
        rw (e, invoke_handle)
          (mark_executed-IsSoon x (invoke_callback hq (code x) told)
            (invoke_callback-IsSoon (code x) told s))
  ]

  pub invoke_handles-IsSoon :
      (code : ℕ → Effect) (hs : List ℕ) (l : Loop)
      → IsSoon h l
      → IsSoon h (invoke_handles hq code hs l).0
  unfolding invoke_handles
  invoke_handles-IsSoon code [] l s = s
  invoke_handles-IsSoon code (x ∷ xs) l s =
      let first = invoke_handle-IsSoon code x l s in
      go (invoke_handle hq code x l).1 refl first
        (invoke_handles-IsSoon code xs (invoke_handle hq code x l).0 first)
    where
      go :
          (r : Result (Unit {0}))
          → (invoke_handle hq code x l).1 ≡ r
          → IsSoon h (invoke_handle hq code x l).0
          → IsSoon h (invoke_handles hq code xs (invoke_handle hq code x l).0).0
          → IsSoon h (invoke_handles hq code (x ∷ xs) l).0
      go (ok u) e first rest = rw (e, invoke_handles) rest
      go (raised y) e first rest = rw (e, invoke_handles) first

  invoke_events-IsSoon :
      (xs : List Effect) (l : Loop) → IsSoon h l → IsSoon h (invoke_events hq xs l).0
  unfolding invoke_events
  invoke_events-IsSoon [] l s = s
  invoke_events-IsSoon (x ∷ xs) l s =
      let first = invoke_callback-IsSoon x l s in
      go (invoke_callback hq x l).1 refl first
        (invoke_events-IsSoon xs (invoke_callback hq x l).0 first)
    where
      go :
          (r : Result (Unit {0}))
          → (invoke_callback hq x l).1 ≡ r
          → IsSoon h (invoke_callback hq x l).0
          → IsSoon h (invoke_events hq xs (invoke_callback hq x l).0).0
          → IsSoon h (invoke_events hq (x ∷ xs) l).0
      go (ok u) e first rest = rw (e, invoke_events) rest
      go (raised y) e first rest = rw (e, invoke_events) first

  pub early_part-IsSoon :
      (code : ℕ → Effect) (early : List ℕ) (x : Option Exc) (l : Loop)
      → IsSoon h l
      → IsSoon h (early_part hq code early x l).0
  unfolding early_part
  early_part-IsSoon code early none l s = invoke_handles-IsSoon code early l s
  early_part-IsSoon code early (some e) l s = s

  pub events_part-IsSoon :
      (turn : Turn) (m : Loop × Result (Unit {0}))
      → IsSoon h m.0
      → IsSoon h (events_part hq turn m).0
  unfolding events_part
  events_part-IsSoon turn (l, ok u) s = invoke_events-IsSoon turn.io l s
  events_part-IsSoon turn (l, raised e) s = s

  stored-IsSoon :
      (cb : Callback) (args : Args) (l : Loop)
      → h ≡ l.next_handle
      → IsSoon h (store_handle hq none cb args l)
  stored-IsSoon cb args l e =
      rw (min_priority-store hq cb args l)
        (ground (arith, times-append h l.scheduler.min_priority (l.next_handle ∷ []), e))

  -- A new handle with no time is to be called soon.
  pub call_soon-IsSoon :
      (cb : Callback) (args : Args) (l : Loop)
      → h ≡ l.next_handle
      → IsSoon h (call_soon hq cb args l)
  unfolding call_soon add_handle wakeup_if_in_poll
  call_soon-IsSoon cb args l e = elim (Bool-cases l.in_poll) [
    | inl q ↦ rw q (stored-IsSoon cb args l e)
    | inr q ↦ rw q (stored-IsSoon cb args l e)
  ]
