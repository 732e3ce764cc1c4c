-- ===== src/Loop/Prompt/Late.antt =====
-- aio/loop/pure/impl.py: what becomes of handles that other threads enqueue while the selector polls.
use aio.Prelude.{
  ℕ, ◌+◌, ◌<◌, ◌≡◌, ◌⊎◌, refl, sym, ap, ◌∙◌, true, false, List, [], ◌∷◌, ◌++◌, arith, Bool-cases,
  inl, inr, subst,
}
use aio.Exceptions.{Result, ok, raised}
use aio.World.{Callback, Args}
use aio.Scheduler.Heap.{Heapq}
use aio.Scheduler.Times.{times, due_times}
use aio.Loop.{
  Loop, LoopOp, calls_soon, Effect, Turn, call_soon, exec_op, exec_ops, early_part, pop, poll,
  late_part, events_part, run_step,
}
use aio.Loop.Inv.{LoopInv}
use aio.Loop.Inv.Run.{pop-LoopInv, poll-LoopInv, early_part-LoopInv, events_part-LoopInv}
use aio.Loop.Once.{AtMostOnce}
use aio.Loop.Once.Run.{
  pop-AtMostOnce, poll-AtMostOnce, early_part-AtMostOnce, events_part-AtMostOnce,
  run_step-AtMostOnce,
}
use aio.Loop.Soon.{IsSoon, exec_ops-IsSoon, call_soon-IsSoon, early_part-IsSoon, events_part-IsSoon}
use aio.Loop.Prompt.{Settles, invoke_handles-Settles, pop-Settles}
use aio.Loop.Prompt.Step.{invoke_handles-is_settled, taken_early, fresh_handle, called_or_cancelled}

module _ (hq : Heapq ℕ) where
  exec_ops-append :
      (xs ys : List LoopOp) (l : Loop)
      → exec_ops hq (xs ++ ys) l ≡ exec_ops hq ys (exec_ops hq xs l)
  unfolding exec_ops
  exec_ops-append [] ys l = refl
  exec_ops-append (x ∷ xs) ys l = exec_ops-append xs ys (exec_op hq x l)

  -- The loop of a turn after the early callbacks and those of the events.
  abbrev before_late : (ℕ → Effect) → Turn → Loop → Loop × Result (Unit {0})
  before_late code turn l =
      let (popped, early) = pop hq (turn.at_start + turn.resolution) l in
      events_part hq turn
        (early_part hq code early turn.select_raises (poll hq turn.during_select popped))

  -- The loop that polls, after some calls of other threads.
  abbrev pub polling_after : List LoopOp → Turn → Loop → Loop
  polling_after before turn l =
      exec_ops hq before (record (pop hq (turn.at_start + turn.resolution) l).0 { in_poll = true })

  before_late-LoopInv :
      (code : ℕ → Effect) (turn : Turn) (l : Loop)
      → LoopInv l
      → AtMostOnce [] l
      → LoopInv (before_late code turn l).0 × AtMostOnce [] (before_late code turn l).0
  before_late-LoopInv code turn l i o =
      let threshold = turn.at_start + turn.resolution in
      let (popped, early) = pop hq threshold l in
      let polled = poll hq turn.during_select popped in
      let inv = poll-LoopInv hq turn.during_select popped (pop-LoopInv hq threshold l i) in
      let m = early_part hq code early turn.select_raises polled in
      (
        events_part-LoopInv hq turn m
            (early_part-LoopInv hq code early turn.select_raises polled inv),
        events_part-AtMostOnce hq turn m (
            early_part-AtMostOnce hq code early turn.select_raises polled (
              poll-AtMostOnce hq early turn.during_select popped
                (pop-AtMostOnce hq threshold l i o))),
      )

  run_step-before_late :
      (code : ℕ → Effect) (turn : Turn) (l : Loop)
      → run_step hq code turn l ≡ late_part hq code turn (before_late code turn l)
  unfolding run_step
  run_step-before_late code turn l = refl

module _ (hq : Heapq ℕ) (h : ℕ) where
  -- What is to be called soon, or due, when the late callbacks are taken.
  late_part-is_settled :
      (code : ℕ → Effect) (turn : Turn) (m : Loop × Result (Unit {0}))
      → LoopInv m.0
      → h < m.0.next_handle
      → 0
        < times h m.0.scheduler.min_priority
          + due_times (turn.after_select + turn.resolution) h m.0.scheduler.prioritized
      → (late_part hq code turn m).1 ≡ ok tt
      → Settles true h (late_part hq code turn m).0
  unfolding late_part
  late_part-is_settled code turn (l, raised e) i k due fine = cc
  late_part-is_settled code turn (l, ok u) i k due fine =
      let threshold = turn.after_select + turn.resolution in
      let (popped, late) = pop hq threshold l in
      elim (Bool-cases (l.handles h).is_cancelled) [
        | inl e ↦
            invoke_handles-Settles hq true h code late popped
              (pop-Settles hq true h threshold l (k, λ q. ground (arith, e)))
        | inr e ↦
            invoke_handles-is_settled hq h code late popped
              (pop-Settles hq false h threshold l (k, λ q. absurd (cc q))).0 fine
              (taken_early hq h threshold l i due e)
      ]

  polled-IsSoon :
      (code : ℕ → Effect) (turn : Turn) (l : Loop) (before after : List LoopOp) (cb : Callback)
      (args : Args)
      → turn.during_select ≡ before ++ calls_soon cb args ∷ after
      → h ≡ (polling_after hq before turn l).next_handle
      → IsSoon h (before_late hq code turn l).0
  unfolding poll exec_ops exec_op
  polled-IsSoon code turn l before after cb args e n =
      let (popped, early) = pop hq (turn.at_start + turn.resolution) l in
      let polling : Loop = record popped { in_poll = true } in
      let asleep = polling_after hq before turn l in
      let soon : IsSoon h (exec_ops hq turn.during_select polling) =
        subst (IsSoon h)
          (sym (
            ap (λ os. exec_ops hq os polling) e
            ∙ exec_ops-append hq before (calls_soon cb args ∷ after) polling))
          (exec_ops-IsSoon hq h after (call_soon hq cb args asleep)
            (call_soon-IsSoon hq h cb args asleep n)) in
      events_part-IsSoon hq h turn _ (
        early_part-IsSoon hq h code early turn.select_raises (poll hq turn.during_select popped)
          soon)

module _ (hq : Heapq ℕ) where
  -- If the invariant of the loop holds and each handle is at most at one place: a callback that
  -- another thread gives to `call_soon_thread_safe` while the selector polls, among any other
  -- calls, is called in that turn, exactly once, unless the turn ends with an exception or the
  -- handle is cancelled at its end.
  pub run_step_calls_thread :
      (code : ℕ → Effect) (turn : Turn) (l : Loop) (before after : List LoopOp) (cb : Callback)
      (args : Args)
      → LoopInv l
      → AtMostOnce [] l
      → turn.during_select ≡ before ++ calls_soon cb args ∷ after
      → (run_step hq code turn l).1 ≡ ok tt
      → let h = (polling_after hq before turn l).next_handle in
        let l' = (run_step hq code turn l).0 in
        ((l'.handles h).is_cancelled ≡ true) ⊎ (times h l'.called ≡ 1)
  unfolding late_part run_step
  run_step_calls_thread code turn l before after cb args i o e fine =
      let h = (polling_after hq before turn l).next_handle in
      let m = before_late hq code turn l in
      let (inv, once) = before_late-LoopInv hq code turn l i o in
      let soon = polled-IsSoon hq h code turn l before after cb args e refl in
      let due : 0
          < times h m.0.scheduler.min_priority
            + due_times (turn.after_select + turn.resolution) h m.0.scheduler.prioritized =
        omega (arith, soon) in
      let (first, k) = fresh_handle hq h (turn.after_select + turn.resolution) m.0 once due in
      let done = late_part-is_settled hq h code turn m inv k due fine in
      let l' = (run_step hq code turn l).0 in
      elim (called_or_cancelled hq h l' m.0 first (done.1 refl)
        (run_step-AtMostOnce hq code turn l i o h)) [ inl c ↦ inl c | inr (was, now) ↦ inr now ]
