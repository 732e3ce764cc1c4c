-- ===== src/Loop/Prompt/Step.antt =====
-- aio/loop/pure/impl.py: what becomes of the handles that are due when a turn starts.
use aio.Prelude.{
  ℕ, ◌+◌, ◌≤◌, ◌<◌, ◌≡◌, refl, sym, ap, ◌∙◌, true, false, Option, none, some, List, [], ◌∷◌, ◌++◌,
  arith, if◌then◌else◌, Bool-cases, inl, inr, ltb, ◌⊎◌, ◌==◌, ==_iff, subst,
}
use aio.Exceptions.{Exc, Result, ok, raised}
use aio.Scheduler.Heap.{Heapq}
use aio.Scheduler.Times.{times, times-append}
use aio.Loop.{
  Loop, Effect, Turn, invoke_callback, invoke_handle, invoke_handles, pop, poll, early_part,
  late_part, events_part, run_step,
}
use aio.Scheduler.Times.{waiting, due_times, due_times-items, pop_pending-takes}
use aio.Loop.Inv.{LoopInv}
use aio.Loop.Once.{AtMostOnce}
use aio.Loop.Once.Run.{run_step-AtMostOnce}
use aio.Loop.Prompt.{
  is_settled, Settles, mark_executed-Settles, invoke_callback-Settles, invoke_handle-Settles,
  invoke_handles-cons, invoke_handles-Settles, pop-Settles, poll-Settles, events_part-Settles,
  late_part-Settles,
}

module _ (hq : Heapq ℕ) (h : ℕ) where
  -- The call of the handle itself.
  invoke_handle-is_settled :
      (code : ℕ → Effect) (l : Loop)
      → h < l.next_handle
      → Settles true h (invoke_handle hq code h l).0
  unfolding invoke_handle
  invoke_handle-is_settled code l k = elim (Bool-cases (l.handles h).is_cancelled) [
    | inl e ↦ rw (e, invoke_handle) (k, (λ q. ground (arith, e)))
    | inr e ↦
        let told : Loop = record l { called = l.called ++ h ∷ [] } in
        rw (e, invoke_handle)
          (mark_executed-Settles hq true h h (invoke_callback hq (code h) told) (
            invoke_callback-Settles hq true h (code h) told
              (k, (λ q. ground (arith, times-append h l.called (h ∷ []))))))
  ]

  invoke_handles_ok :
      (code : ℕ → Effect) (x : ℕ) (xs : List ℕ) (l : Loop)
      → (invoke_handles hq code (x ∷ xs) l).1 ≡ ok tt
      → invoke_handles hq code (x ∷ xs) l ≡ invoke_handles hq code xs (invoke_handle hq code x l).0
  unfolding invoke_handles
  invoke_handles_ok code x xs l fine = go (invoke_handle hq code x l).1 refl
    where
      go :
          (r : Result (Unit {0}))
          → (invoke_handle hq code x l).1 ≡ r
          → invoke_handles hq code (x ∷ xs) l
            ≡ invoke_handles hq code xs (invoke_handle hq code x l).0
      go (ok u) e = rw (e, invoke_handles) refl
      go (raised y) e = absurd (cc (rw (e, invoke_handles) at fine))

  -- A batch whose calls raise nothing.
  pub invoke_handles-is_settled :
      (code : ℕ → Effect) (hs : List ℕ) (l : Loop)
      → h < l.next_handle
      → (invoke_handles hq code hs l).1 ≡ ok tt
      → 0 < times h hs
      → Settles true h (invoke_handles hq code hs l).0
  invoke_handles-is_settled code [] l k fine there = absurd (omega (arith, there))
  invoke_handles-is_settled code (x ∷ xs) l k fine there = elim (Bool-cases (x == h)) [
    | inl e ↦
        let same : h ≡ x = sym ((==_iff x h).0 e) in
        let first =
          subst (λ y. Settles true h (invoke_handle hq code y l).0) same
            (invoke_handle-is_settled code l k) in
        invoke_handles-cons hq true h code x xs l first
          (invoke_handles-Settles hq true h code xs (invoke_handle hq code x l).0 first)
    | inr e ↦
        let bound = invoke_handle-Settles hq false h code x l (k, λ q. absurd (cc q)) in
        let rest = invoke_handles-is_settled code xs (invoke_handle hq code x l).0 bound.0 in
        let on = invoke_handles_ok code x xs l fine in
        subst (λ m. Settles true h m.0) (sym on)
          (rest (ap (λ m. m.1) (sym on) ∙ fine) (ground (arith, there, e)))
  ]

  late_part_ok :
      (code : ℕ → Effect) (turn : Turn) (m : Loop × Result (Unit {0}))
      → (late_part hq code turn m).1 ≡ ok tt
      → m.1 ≡ ok tt
  unfolding late_part
  late_part_ok code turn (l, ok u) e = refl
  late_part_ok code turn (l, raised x) e = cc

  events_part_ok :
      (turn : Turn) (m : Loop × Result (Unit {0})) → (events_part hq turn m).1 ≡ ok tt → m.1 ≡ ok tt
  unfolding events_part
  events_part_ok turn (l, ok u) e = refl
  events_part_ok turn (l, raised x) e = cc

  pub early_part_ok :
      (code : ℕ → Effect) (early : List ℕ) (x : Option Exc) (l : Loop)
      → (early_part hq code early x l).1 ≡ ok tt
      → early_part hq code early x l ≡ invoke_handles hq code early l
  unfolding early_part
  early_part_ok code early none l e = refl
  early_part_ok code early (some y) l e = cc

  early_part-Settles :
      (code : ℕ → Effect) (early : List ℕ) (x : Option Exc) (l : Loop)
      → Settles true h l
      → Settles true h (early_part hq code early x l).0
  unfolding early_part
  early_part-Settles code early none l s = invoke_handles-Settles hq true h code early l s
  early_part-Settles code early (some e) l s = s

  -- The rest of a turn, once the early callbacks are to be called.
  run_step-after :
      (code : ℕ → Effect) (turn : Turn) (l : Loop)
      → let (l', early) = pop hq (turn.at_start + turn.resolution) l in
        Settles true h
          (early_part hq code early turn.select_raises (poll hq turn.during_select l')).0
        → Settles true h (run_step hq code turn l).0
  unfolding run_step
  run_step-after code turn l s =
      let (l', early) = pop hq (turn.at_start + turn.resolution) l in
      let m = early_part hq code early turn.select_raises (poll hq turn.during_select l') in
      late_part-Settles hq true h code turn (events_part hq turn m)
        (events_part-Settles hq true h turn m s)

  early_fine :
      (code : ℕ → Effect) (turn : Turn) (l : Loop)
      → (run_step hq code turn l).1 ≡ ok tt
      → let (l', early) = pop hq (turn.at_start + turn.resolution) l in
        (early_part hq code early turn.select_raises (poll hq turn.during_select l')).1 ≡ ok tt
  unfolding run_step
  early_fine code turn l fine = events_part_ok turn _ (late_part_ok code turn _ fine)

  pub run_step_ok :
      (code : ℕ → Effect) (turn : Turn) (l : Loop)
      → (run_step hq code turn l).1 ≡ ok tt
      → let (l', early) = pop hq (turn.at_start + turn.resolution) l in
        early_part hq code early turn.select_raises (poll hq turn.during_select l')
        ≡ invoke_handles hq code early (poll hq turn.during_select l')
  run_step_ok code turn l fine =
      early_part_ok code _ turn.select_raises _ (early_fine code turn l fine)

  pub taken_early :
      (threshold : ℕ) (l : Loop)
      → LoopInv l
      → 0 < times h l.scheduler.min_priority + due_times threshold h l.scheduler.prioritized
      → (l.handles h).is_cancelled ≡ false
      → 0 < times h (pop hq threshold l).1
  unfolding pop
  taken_early threshold l i due e = omega (
    arith,
    due,
    pop_pending-takes threshold h hq l.handles l.scheduler i.queue.heap (ground (arith, e)),
  )

  run_step-is_settled :
      (code : ℕ → Effect) (turn : Turn) (l : Loop)
      → LoopInv l
      → h < l.next_handle
      → 0
        < times h l.scheduler.min_priority
          + due_times (turn.at_start + turn.resolution) h l.scheduler.prioritized
      → (run_step hq code turn l).1 ≡ ok tt
      → Settles true h (run_step hq code turn l).0
  run_step-is_settled code turn l i k due fine = elim (Bool-cases (l.handles h).is_cancelled) [
    | inl e ↦
        let s : Settles true h l = (k, λ q. ground (arith, e)) in
        run_step-after code turn l (
          early_part-Settles code early turn.select_raises polled (
            poll-Settles hq true h turn.during_select popped (pop-Settles hq true h threshold l s)))
    | inr e ↦
        let s : Settles false h l = (k, λ q. absurd (cc q)) in
        let bound =
          poll-Settles hq false h turn.during_select popped
            (pop-Settles hq false h threshold l s) in
        let on = run_step_ok code turn l fine in
        run_step-after code turn l (
          subst (λ m. Settles true h m.0) (sym on)
            (invoke_handles-is_settled code early polled bound.0
              (ap (λ m. m.1) (sym on) ∙ early_fine code turn l fine)
              (taken_early threshold l i due e)))
  ]
    where
      threshold : ℕ
      threshold = turn.at_start + turn.resolution

      early : List ℕ
      early = (pop hq threshold l).1

      popped : Loop
      popped = (pop hq threshold l).0

      polled : Loop
      polled = poll hq turn.during_select popped

  pub fresh_handle :
      (threshold : ℕ) (l : Loop)
      → AtMostOnce [] l
      → 0 < times h l.scheduler.min_priority + due_times threshold h l.scheduler.prioritized
      → (times h l.called ≡ 0) × (h < l.next_handle)
  fresh_handle threshold l o due =
      let there = due_times-items threshold h l.scheduler.prioritized in
      (ground (arith, o h, due, there), ground (arith, o h, due, there))

  pub called_or_cancelled :
      (l' l : Loop)
      → times h l.called ≡ 0
      → is_settled h l' ≡ true
      → times h [] + waiting h l'.scheduler + times h l'.called
        ≤ (if ltb h l'.next_handle then 1 else 0)
      → ((l'.handles h).is_cancelled ≡ true) ⊎ ((times h l.called ≡ 0) × (times h l'.called ≡ 1))
  called_or_cancelled l' l first s once = elim (Bool-cases (l'.handles h).is_cancelled) [
    | inl e ↦ inl e
    | inr e ↦ inr (first, ground (arith, s, once, e))
  ]

  -- If the invariant of the loop holds and each handle is at most at one place, in the scheduler or
  -- among those that were called: a turn that ends without an exception has called a handle that
  -- was to be called soon at its start, or whose time had come then, exactly once, and it was not
  -- called before, unless the handle is cancelled at the end of the turn.
  pub run_step_calls_due :
      (code : ℕ → Effect) (turn : Turn) (l : Loop)
      → LoopInv l
      → AtMostOnce [] l
      → 0
        < times h l.scheduler.min_priority
          + due_times (turn.at_start + turn.resolution) h l.scheduler.prioritized
      → (run_step hq code turn l).1 ≡ ok tt
      → let l' = (run_step hq code turn l).0 in
        ((l'.handles h).is_cancelled ≡ true) ⊎ ((times h l.called ≡ 0) × (times h l'.called ≡ 1))
  run_step_calls_due code turn l i o due fine =
      let (first, k) = fresh_handle (turn.at_start + turn.resolution) l o due in
      let after = run_step-is_settled code turn l i k due fine in
      let once = run_step-AtMostOnce hq code turn l i o h in
      called_or_cancelled (run_step hq code turn l).0 l first (after.1 refl) once
