-- ===== src/Loop/Threads.antt =====
-- aio/interfaces.py, aio/loop/pure/impl.py: `call_soon_thread_safe`, called by another thread while the
-- loop goes from the start of `run_step` to the poll of its selector.
use mathlib.Core.List.{Mem, mem-cons, mem-cons_self, not-mem-nil}
use mathlib.Core.Logic.Or
use aio.Prelude.{
  ℕ, suc, ◌+◌, ◌≤◌, ◌<◌, ◌≡◌, refl, sym, ap, subst, true, false, Option, none, some, List, [], ◌∷◌,
  ◌++◌, arith, Bool-cases, inl, inr, if◌then◌else◌, ◌==◌, update,
}
use aio.World.{Callback, Args, Handle}
use aio.Scheduler.{
  next_event, next_live, live_of, is_live, pop_pending, pop_below_priority, enqueue,
}
use aio.Scheduler.Heap.{Entry, Heapq, All}
use aio.Loop.{Loop, Turn, pop, wait_events, step_wait, store_handle, wakeup_if_in_poll}
use aio.Loop.Inv.{LoopInv}
use aio.Loop.Inv.Run.{pop-LoopInv}

-- Where a step of the other thread falls: before `pop_pending`, between it and `next_event`, between that
-- and `self._selector_in_poll = True`, or after it.
pub data Gap : Type 0 where
  before_pop : Gap
  after_pop : Gap
  after_ask : Gap
  polling : Gap

abbrev pub rank : Gap → ℕ
rank before_pop = 0
rank after_pop = 1
rank after_ask = 2
rank polling = 3

abbrev pub at_gap : Gap → Gap → (Loop → Loop) → Loop → Loop
at_gap i k f l = if rank i == rank k then f l else l

module _ (hq : Heapq ℕ) where
  -- What a call of the other thread does in a gap: `call_soon_thread_safe` is `call_soon`, which enqueues
  -- the handle, and then reads the flag of the poll.
  thread_part : Callback → Args → Gap → Gap → Gap → Loop → Loop
  unfolding wakeup_if_in_poll
  thread_part cb args i j k l =
      at_gap j k (wakeup_if_in_poll hq) (at_gap i k (store_handle hq none cb args) l)

  -- `run_step` up to the poll: the loop, and how long the selector is asked to wait.
  unfoldable pub open_turn : Callback → Args → Gap → Gap → Turn → Loop → Loop × Option ℕ
  unfolding pop thread_part
  open_turn cb args i j turn l =
      let l0 = thread_part cb args i j before_pop l in
      let (l1, early) = pop hq (turn.at_start + turn.resolution) l0 in
      let l2 = thread_part cb args i j after_pop l1 in
      let wait = wait_events early (next_event l2.handles l2.scheduler) turn.before_select in
      let l3 = thread_part cb args i j after_ask l2 in
      let l4 = thread_part cb args i j polling (record l3 { in_poll = true }) in (l4, wait)

  wakeup_idle : (l : Loop) → l.in_poll ≡ false → wakeup_if_in_poll hq l ≡ l
  unfolding wakeup_if_in_poll
  wakeup_idle l e = rw (e, wakeup_if_in_poll) refl

  -- A handle to be called soon is put after the others.
  pub min_priority-store :
      (cb : Callback) (args : Args) (l : Loop)
      → (store_handle hq none cb args l).scheduler
        ≡ record l.scheduler { min_priority = l.scheduler.min_priority ++ l.next_handle ∷ [] }
  unfolding enqueue
  min_priority-store cb args l = ground arith

  next_live-update :
      (handles : ℕ → Handle) (n : ℕ) (x : Handle) (es : List (Entry ℕ))
      → All (λ e. e.item < n) es
      → next_live (update handles n x) es ≡ next_live handles es
  unfolding next_live
  next_live-update handles n x [] k = refl
  next_live-update handles n x (e ∷ es) k = ground (arith, k.0, next_live-update handles n x es k.1)

  wait_events-some :
      (n : ℕ) (hs : List ℕ) (next : Option ℕ) (now : ℕ)
      → Mem n hs
      → wait_events hs next now ≡ some 0
  unfolding wait_events
  wait_events-some n [] next now m = absurd (not-mem-nil m)
  wait_events-some n (h ∷ hs) next now m = refl

  live_of-mem :
      (handles : ℕ → Handle) (n : ℕ) (hs : List ℕ) (more : List ℕ)
      → is_live handles n ≡ true
      → Mem n (live_of handles ((hs ++ n ∷ []) ++ more))
  live_of-mem handles n [] more live = rw live mem-cons_self
  live_of-mem handles n (h ∷ hs) more live = elim (Bool-cases (is_live handles h)) [
    | inl e ↦ rw e (mem-cons.1 (Or.inr (live_of-mem handles n hs more live)))
    | inr e ↦ rw e (live_of-mem handles n hs more live)
  ]

  pop_stored :
      (cb : Callback) (args : Args) (threshold : ℕ) (l : Loop)
      → Mem l.next_handle (pop hq threshold (store_handle hq none cb args l)).1
  unfolding pop pop_pending pop_below_priority
  pop_stored cb args threshold l = rw (min_priority-store cb args l) (
      live_of-mem (store_handle hq none cb args l).handles l.next_handle l.scheduler.min_priority _
        (ground arith))

  stored_first :
      (cb : Callback) (args : Args) (j : Gap) (turn : Turn) (l : Loop)
      → l.in_poll ≡ false
      → (open_turn cb args before_pop j turn l).1 ≡ some 0
  unfolding open_turn thread_part
  stored_first cb args before_pop turn l idle =
      rw (wakeup_idle (store_handle hq none cb args l) idle)
        (wait_events-some l.next_handle _ _ _ (pop_stored cb args _ l))
  stored_first cb args after_pop turn l idle =
      wait_events-some l.next_handle _ _ _ (pop_stored cb args _ l)
  stored_first cb args after_ask turn l idle =
      wait_events-some l.next_handle _ _ _ (pop_stored cb args _ l)
  stored_first cb args polling turn l idle =
      wait_events-some l.next_handle _ _ _ (pop_stored cb args _ l)

  woken_last :
      (cb : Callback) (args : Args) (i : Gap) (turn : Turn) (l : Loop)
      → (open_turn cb args i polling turn l).0.wakeups ≡ suc l.wakeups
  unfolding open_turn thread_part pop wakeup_if_in_poll
  woken_last cb args before_pop turn l = refl
  woken_last cb args after_pop turn l = refl
  woken_last cb args after_ask turn l = refl
  woken_last cb args polling turn l = refl

  -- The loop after the early callbacks were taken.
  abbrev taken : Turn → Loop → Loop
  taken turn l = (pop hq (turn.at_start + turn.resolution) l).0

  -- What `next_event` answers does not change with a handle to be called soon.
  next_event-store :
      (cb : Callback) (args : Args) (l : Loop)
      → LoopInv l
      → next_event
          (store_handle hq none cb args l).handles
          (store_handle hq none cb args l).scheduler
        ≡ next_event l.handles l.scheduler
  unfolding next_event
  next_event-store cb args l i =
      rw (min_priority-store cb args l)
        (next_live-update l.handles l.next_handle _ l.scheduler.prioritized i.known)

  one_pending :
      (cb : Callback) (args : Args) (turn : Turn) (l : Loop)
      → (store_handle hq none cb args (taken turn l)).scheduler.min_priority ≡ l.next_handle ∷ []
  unfolding pop pop_pending pop_below_priority
  one_pending cb args turn l = ap (λ q. q.min_priority) (min_priority-store cb args (taken turn l))

  wait_kept :
      (cb : Callback) (args : Args) (turn : Turn) (l : Loop)
      → LoopInv l
      → wait_events
          (pop hq (turn.at_start + turn.resolution) l).1
          (next_event
            (store_handle hq none cb args (taken turn l)).handles
            (store_handle hq none cb args (taken turn l)).scheduler)
          turn.before_select
        ≡ step_wait hq turn l
  unfolding step_wait
  wait_kept cb args turn l inv =
      ap (λ n. wait_events (pop hq (turn.at_start + turn.resolution) l).1 n turn.before_select)
        (next_event-store cb args (taken turn l) (pop-LoopInv hq _ l inv))

  -- The call goes unnoticed: its handle is there, the selector is not woken, and the wait is the one of a
  -- turn without the call.
  abbrev pub Unnoticed : Turn → Loop → Loop × Option ℕ → Type 0
  Unnoticed turn l r =
      (r.0.scheduler.min_priority ≡ l.next_handle ∷ [])
      × (r.0.wakeups ≡ l.wakeups)
      × (r.1 ≡ step_wait hq turn l)

  stored_between :
      (cb : Callback) (args : Args) (i j : Gap) (turn : Turn) (l : Loop)
      → LoopInv l
      → l.in_poll ≡ false
      → rank i ≤ rank j
      → 0 < rank i
      → rank j < 3
      → Unnoticed turn l (open_turn cb args i j turn l)
  unfolding open_turn thread_part pop step_wait pop_pending pop_below_priority
  stored_between cb args before_pop j turn l inv idle le lt gt = absurd (omega (arith, lt))
  stored_between cb args polling j turn l inv idle le lt gt = absurd (omega (arith, le, gt))
  stored_between cb args i before_pop turn l inv idle le lt gt = absurd (omega (arith, le, lt))
  stored_between cb args i polling turn l inv idle le lt gt = absurd (omega (arith, gt))
  stored_between cb args after_ask after_pop turn l inv idle le lt gt = absurd (omega (arith, le))
  stored_between cb args after_pop after_pop turn l inv idle le lt gt =
      rw (wakeup_idle (store_handle hq none cb args (taken turn l)) idle)
        (one_pending cb args turn l, refl, wait_kept cb args turn l inv)
  stored_between cb args after_pop after_ask turn l inv idle le lt gt =
      rw (wakeup_idle (store_handle hq none cb args (taken turn l)) idle)
        (one_pending cb args turn l, refl, wait_kept cb args turn l inv)
  stored_between cb args after_ask after_ask turn l inv idle le lt gt =
      rw (wakeup_idle (store_handle hq none cb args (taken turn l)) idle)
        (one_pending cb args turn l, refl, refl)

  -- Another thread calls `call_soon_thread_safe` while the loop, whose invariant holds and which
  -- was not polling, goes from the start of a turn to the poll; the handle is enqueued in one gap
  -- and the flag of the poll is read in the same or a later one. If the handle is enqueued before
  -- the early callbacks are taken, the selector is asked not to wait. If the flag is read after it
  -- was set, the selector is woken once. In all other orders the call goes unnoticed: the handle
  -- alone waits to be called soon, no one wakes the selector, and it is asked to wait as long as
  -- without the call.
  pub thread_call_cases :
      (cb : Callback) (args : Args) (i j : Gap) (turn : Turn) (l : Loop)
      → LoopInv l
      → l.in_poll ≡ false
      → rank i ≤ rank j
      → (i ≡ before_pop → (open_turn cb args i j turn l).1 ≡ some 0)
        × (j ≡ polling → (open_turn cb args i j turn l).0.wakeups ≡ suc l.wakeups)
        × (0 < rank i → rank j < 3 → Unnoticed turn l (open_turn cb args i j turn l))
  thread_call_cases cb args i j turn l inv idle le = (
    λ e.
        subst (λ k. (open_turn cb args k j turn l).1 ≡ some 0) (sym e)
          (stored_first cb args j turn l idle),
    λ e.
        subst (λ k. (open_turn cb args i k turn l).0.wakeups ≡ suc l.wakeups) (sym e)
          (woken_last cb args i turn l),
    λ lt gt. stored_between cb args i j turn l inv idle le lt gt,
  )
