-- ===== src/Loop/Once.antt =====
-- aio/loop/pure/impl.py: what a call of a callback adds to the handles that were called.
pub mod Run
use aio.Prelude.{
  ℕ, ◌+◌, ◌≤◌, ◌≡◌, refl, Option, none, some, List, [], ◌∷◌, ◌++◌, arith, if◌then◌else◌, Bool-cases,
  inl, inr, ltb, ◌==◌,
}
use aio.Exceptions.{Exc, is_exception, Result, ok, raised}
use aio.World.{Callback, Args}
use aio.Scheduler.{handle_priority}
use aio.Scheduler.Heap.{Heapq}
use aio.Scheduler.Times.{times, times-append, waiting, waiting-enqueue}
use aio.Loop.{
  Loop, LoopOp, calls_soon, calls_later, cancels_handle, stops, Effect, store_handle,
  wakeup_if_in_poll, add_handle, call_soon, call_later, exec_op, exec_ops, report, invoke_callback,
  mark_executed, invoke_handle, invoke_handles, invoke_events,
}

-- A handle of the loop is at most at one place: among those to be called next, in the scheduler, or among those
-- that were called; and a handle not yet made is at none.
abbrev pub AtMostOnce : List ℕ → Loop → Type 0
AtMostOnce batch l =
    (h : ℕ)
    → times h batch + waiting h l.scheduler + times h l.called
      ≤ (if ltb h l.next_handle then 1 else 0)

module _ (hq : Heapq ℕ) where
  wakeup-AtMostOnce :
      (batch : List ℕ) (l : Loop) → AtMostOnce batch l → AtMostOnce batch (wakeup_if_in_poll hq l)
  unfolding wakeup_if_in_poll
  wakeup-AtMostOnce batch l o = elim (Bool-cases l.in_poll) [
    | inl e ↦ rw (e, wakeup_if_in_poll) o
    | inr e ↦ rw (e, wakeup_if_in_poll) o
  ]

  add_handle-AtMostOnce :
      (batch : List ℕ) (when : Option ℕ) (cb : Callback) (args : Args) (l : Loop)
      → AtMostOnce batch l
      → AtMostOnce batch (add_handle hq when cb args l)
  unfolding add_handle
  add_handle-AtMostOnce batch when cb args l o =
      wakeup-AtMostOnce batch (store_handle hq when cb args l) (λ h. ground (
        arith,
        o h,
        waiting-enqueue hq (handle_priority (store_handle hq when cb args l).handles) l.next_handle
            h l.scheduler,
      ))

  exec_op-AtMostOnce :
      (batch : List ℕ) (o : LoopOp) (l : Loop)
      → AtMostOnce batch l
      → AtMostOnce batch (exec_op hq o l)
  unfolding exec_op call_soon call_later
  exec_op-AtMostOnce batch (calls_soon cb args) l o = add_handle-AtMostOnce batch none cb args l o
  exec_op-AtMostOnce batch (calls_later now timeout cb args) l o =
      elim (Bool-cases (timeout == 0)) [
        | inl e ↦ rw (e, call_later) (add_handle-AtMostOnce batch none cb args l o)
        | inr e ↦
            rw (e, call_later) (add_handle-AtMostOnce batch (some (now + timeout)) cb args l o)
      ]
  exec_op-AtMostOnce batch (cancels_handle h) l o = o
  exec_op-AtMostOnce batch stops l o = o

  pub exec_ops-AtMostOnce :
      (batch : List ℕ) (os : List LoopOp) (l : Loop)
      → AtMostOnce batch l
      → AtMostOnce batch (exec_ops hq os l)
  unfolding exec_ops
  exec_ops-AtMostOnce batch [] l o = o
  exec_ops-AtMostOnce batch (x ∷ xs) l o =
      exec_ops-AtMostOnce batch xs (exec_op hq x l) (exec_op-AtMostOnce batch x l o)

  report-AtMostOnce :
      (batch : List ℕ) (y x : Option Exc) (l : Loop)
      → AtMostOnce batch l
      → AtMostOnce batch (report hq y x l).0
  unfolding report
  report-AtMostOnce batch y none l o = o
  report-AtMostOnce batch none (some e) l o = elim (Bool-cases (is_exception e)) [
    | inl caught ↦ rw caught o
    | inr foreign ↦ rw foreign o
  ]
  report-AtMostOnce batch (some broken) (some e) l o = o

  invoke_callback-AtMostOnce :
      (batch : List ℕ) (eff : Effect) (l : Loop)
      → AtMostOnce batch l
      → AtMostOnce batch (invoke_callback hq eff l).0
  unfolding invoke_callback
  invoke_callback-AtMostOnce batch eff l o =
      report-AtMostOnce batch eff.handler eff.exc (exec_ops hq eff.ops l)
        (exec_ops-AtMostOnce batch eff.ops l o)

  mark_executed-AtMostOnce :
      (batch : List ℕ) (h : ℕ) (m : Loop × Result (Unit {0}))
      → AtMostOnce batch m.0
      → AtMostOnce batch (mark_executed hq h m).0
  unfolding mark_executed
  mark_executed-AtMostOnce batch h (l, ok u) o = o
  mark_executed-AtMostOnce batch h (l, raised e) o = o

  -- The first of the batch is called, or passed over.
  invoke_handle-AtMostOnce :
      (batch : List ℕ) (code : ℕ → Effect) (h : ℕ) (l : Loop)
      → AtMostOnce (h ∷ batch) l
      → AtMostOnce batch (invoke_handle hq code h l).0
  unfolding invoke_handle
  invoke_handle-AtMostOnce batch code h l o = elim (Bool-cases (l.handles h).is_cancelled) [
    | inl e ↦ rw (e, invoke_handle) (λ x. omega (arith, o x))
    | inr e ↦
        rw (e, invoke_handle)
          (mark_executed-AtMostOnce batch h
            (invoke_callback hq (code h) (record l { called = l.called ++ h ∷ [] }))
            (invoke_callback-AtMostOnce batch (code h) (record l { called = l.called ++ h ∷ [] })
              (λ x. omega (arith, o x, times-append x l.called (h ∷ [])))))
  ]

  pub fewer-AtMostOnce : (batch : List ℕ) (l : Loop) → AtMostOnce batch l → AtMostOnce [] l
  fewer-AtMostOnce batch l o h = omega (arith, o h)

  pub invoke_handles-AtMostOnce :
      (code : ℕ → Effect) (hs : List ℕ) (l : Loop)
      → AtMostOnce hs l
      → AtMostOnce [] (invoke_handles hq code hs l).0
  unfolding invoke_handles
  invoke_handles-AtMostOnce code [] l o = o
  invoke_handles-AtMostOnce code (h ∷ hs) l o = go (invoke_handle hq code h l).1 refl (
      invoke_handles-AtMostOnce code hs (invoke_handle hq code h l).0
        (invoke_handle-AtMostOnce hs code h l o))
    where
      first : AtMostOnce hs (invoke_handle hq code h l).0
      first = invoke_handle-AtMostOnce hs code h l o

      go :
          (r : Result (Unit {0}))
          → (invoke_handle hq code h l).1 ≡ r
          → AtMostOnce [] (invoke_handles hq code hs (invoke_handle hq code h l).0).0
          → AtMostOnce [] (invoke_handles hq code (h ∷ hs) l).0
      go (ok u) e rest = rw (e, invoke_handles) rest
      go (raised x) e rest =
          rw (e, invoke_handles) (fewer-AtMostOnce hs (invoke_handle hq code h l).0 first)

  pub invoke_events-AtMostOnce :
      (xs : List Effect) (l : Loop) → AtMostOnce [] l → AtMostOnce [] (invoke_events hq xs l).0
  unfolding invoke_events
  invoke_events-AtMostOnce [] l o = o
  invoke_events-AtMostOnce (x ∷ xs) l o =
      go (invoke_callback hq x l).1 refl (
        invoke_events-AtMostOnce xs (invoke_callback hq x l).0
          (invoke_callback-AtMostOnce [] x l o))
    where
      first : AtMostOnce [] (invoke_callback hq x l).0
      first = invoke_callback-AtMostOnce [] x l o

      go :
          (r : Result (Unit {0}))
          → (invoke_callback hq x l).1 ≡ r
          → AtMostOnce [] (invoke_events hq xs (invoke_callback hq x l).0).0
          → AtMostOnce [] (invoke_events hq (x ∷ xs) l).0
      go (ok u) e rest = rw (e, invoke_events) rest
      go (raised y) e rest = rw (e, invoke_events) first
