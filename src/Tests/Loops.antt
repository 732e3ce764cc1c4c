-- ===== src/Tests/Loops.antt =====
-- The scheduler and the loop at concrete inputs, with the heapq that keeps its arrays sorted.
use aio.Prelude.{
  ℕ, ◌≡◌, ◌≤◌, ◌<◌, refl, true, false, none, some, Option, List, [], ◌∷◌, arith, ◌==◌,
  if◌then◌else◌, ltb, ◌-◌, ◌++◌, ◌⊎◌,
}
use aio.Exceptions.{ok, raised, value_error, runtime_error}
use aio.World.{Handle, no_args, closure}
use aio.Scheduler.{
  PriorityQueue, pop_below_priority, pop_low, pop_pending, next_event, live_of, is_live, enqueue,
  new_scheduler,
}
use aio.Scheduler.Heap.{Entry, IsHeap, All}
use aio.Scheduler.Pop.{Popped, items}
use mathlib.Core.List.{not-mem-nil}
use aio.Scheduler.Agree.{HaveIds-cons, due_of, pop_pending-due}
use aio.Scheduler.Pending.{QueueInv, pop_pending-Popped, next_event_late}
use aio.Scheduler.Sorted.{sorted_heapq, pop_sorted, sort, insert, IsSorted-IsHeap}
use aio.Loop.{
  Loop, calls_soon, calls_later, cancels_handle, stops, Effect, Turn, run_loop, run_step, new_loop,
  step_wait, invoke_handles, invoke_handle, exec_ops, exec_op, call_soon, invoke_callback,
  call_later, invoke_events,
}
use aio.Loop.Inv.{LoopInv}
use aio.Loop.Once.{AtMostOnce}
use aio.Loop.Once.Run.{run_loop-AtMostOnce}
use aio.Loop.Prompt.Late.{polling_after, run_step_calls_thread}
use aio.Loop.Prompt.Step.{run_step_calls_due}
use aio.Scheduler.Times.{times, due_times}
use aio.Scheduler.New.{HaveNoTime, HaveTimes}
use aio.Loop.New.{AreGiven, new_loop_starts}
use aio.Loop.Inv.Run.{run_loop-LoopInv}
use aio.Loop.Threads.{
  before_pop, after_pop, after_ask, polling, rank, open_turn, Unnoticed, thread_call_cases,
}
use aio.Loop.Wait.{early_callbacks, after_early, step_wait_cases}

abbrev handle_at : Option ℕ → Handle
handle_at when = record {
  when = when;
  loop = 0;
  callback = closure 0;
  args = no_args;
  executed = false;
  is_cancelled = false;
}

-- The handles 0 and 1 are to be called soon, 2 is due at 3 but cancelled, 3 at 9, any other at 7.
abbrev some_handles : ℕ → Handle
some_handles h =
    if h == 0
    then handle_at none
    else if h == 1
    then handle_at none
    else if h == 2
    then record (handle_at (some 3)) { is_cancelled = true }
    else if h == 3
    then handle_at (some 9)
    else handle_at (some 7)

abbrev entry : ℕ → ℕ → ℕ → Entry ℕ
entry p n x = record { priority = p; seq = n; item = x }

-- In the order of the times.
abbrev some_queue : PriorityQueue ℕ
some_queue = record {
  next_id = 3;
  min_priority = 0 ∷ 1 ∷ [];
  prioritized = entry 3 0 2 ∷ entry 7 2 4 ∷ entry 9 1 3 ∷ [];
}

some_queue-IsHeap : IsHeap some_queue.prioritized
some_queue-IsHeap = IsSorted-IsHeap _ ((refl, (refl, tt)), ((refl, tt), (tt, tt)))

-- Without the cancelled handle.
abbrev live_queue : PriorityQueue ℕ
live_queue = record some_queue { prioritized = entry 7 2 4 ∷ entry 9 1 3 ∷ [] }

live_queue-IsHeap : IsHeap live_queue.prioritized
live_queue-IsHeap = IsSorted-IsHeap _ ((refl, tt), (tt, tt))

-- A heap whose array is not in the order of the times.
abbrev late_queue : PriorityQueue ℕ
late_queue = record some_queue { prioritized = entry 3 0 2 ∷ entry 9 1 3 ∷ entry 7 2 4 ∷ [] }

taken_below : (pop_below_priority (sorted_heapq ℕ) 7 some_queue).1 ≡ 0 ∷ 1 ∷ 2 ∷ 4 ∷ []
unfolding pop_below_priority pop_low sorted_heapq pop_sorted sort insert
taken_below = refl

some_queue-QueueInv : QueueInv some_queue
some_queue-QueueInv = record {
  heap = some_queue-IsHeap;
  fresh = (omega arith, (omega arith, (omega arith, tt)));
}

pop_pending-Popped_example :
    let (q', taken) = pop_pending (sorted_heapq ℕ) some_handles 7 some_queue in
    (ready : List ℕ) × (taken
      ≡ live_of some_handles some_queue.min_priority ++ live_of some_handles ready)
    × (q'.min_priority ≡ [])
    × Popped 7 some_queue.prioritized ready q'.prioritized
pop_pending-Popped_example =
    pop_pending-Popped (sorted_heapq ℕ) some_handles 7 some_queue some_queue-IsHeap

-- Enqueued from the latest to the earliest.
abbrev reversed_queue : PriorityQueue ℕ
reversed_queue = record some_queue { prioritized = entry 3 2 2 ∷ entry 7 1 4 ∷ entry 9 0 3 ∷ [] }

pop_pending-due_example :
    (pop_pending (sorted_heapq ℕ) some_handles 7 reversed_queue).1
    ≡ live_of some_handles (0 ∷ 1 ∷ [])
      ++ live_of some_handles (items (due_of 7 (sort reversed_queue.prioritized)))
pop_pending-due_example =
    pop_pending-due (sorted_heapq ℕ) some_handles 7 reversed_queue
      (IsSorted-IsHeap _ ((refl, (refl, tt)), ((refl, tt), (tt, tt))))
      (HaveIds-cons _ _ (omega arith, (omega arith, tt))
        (HaveIds-cons _ _ (omega arith, tt)
          (HaveIds-cons _ [] tt (λ a b m n e. absurd (not-mem-nil m)))))

next_event_late_example : (t : ℕ) × (next_event some_handles late_queue ≡ some t) × (7 < t)
next_event_late_example =
    next_event_late some_handles late_queue (entry 3 0 2) (entry 9 1 3) (entry 7 2 4) [] refl
      (refl, (refl, (refl, tt))) refl refl refl (omega arith)

abbrev some_loop : Loop
some_loop = record {
  id = 0;
  handles = some_handles;
  next_handle = 5;
  scheduler = live_queue;
  in_poll = false;
  wakeups = 0;
  reported = [];
  called = [];
  is_running = false;
}

abbrev some_turn : Turn
some_turn = record {
  at_start = 6;
  resolution = 0;
  before_select = 6;
  during_select = calls_soon (closure 1) no_args ∷ [];
  select_raises = none;
  io = record { ops = cancels_handle 3 ∷ []; exc = some runtime_error; handler = none } ∷ [];
  after_select = 8;
}

-- The first handle sets another going, and the others stop the loop.
abbrev some_code : ℕ → Effect
some_code h =
    if h == 0
    then record { ops = calls_later 6 4 (closure 2) no_args ∷ []; exc = none; handler = none }
    else record { ops = stops ∷ []; exc = some runtime_error; handler = none }

-- The handle 4 alone waits.
abbrev waiting_loop : Loop
waiting_loop = record some_loop { scheduler = record live_queue { min_priority = [] } }

step_wait_cases_example :
    ((h : ℕ) (hs : List ℕ)
      → early_callbacks (sorted_heapq ℕ) some_turn waiting_loop ≡ h ∷ hs
      → step_wait (sorted_heapq ℕ) some_turn waiting_loop ≡ some 0)
    × ((e : Entry ℕ) (es : List (Entry ℕ))
        → early_callbacks (sorted_heapq ℕ) some_turn waiting_loop ≡ []
        → (after_early (sorted_heapq ℕ) some_turn waiting_loop).prioritized ≡ e ∷ es
        → is_live some_handles e.item ≡ true
        → (step_wait (sorted_heapq ℕ) some_turn waiting_loop
            ≡ some (
                if ltb e.priority some_turn.before_select
                then 0
                else e.priority - some_turn.before_select))
          × All (λ x. e.priority ≤ x.priority) es)
    × (step_wait (sorted_heapq ℕ) some_turn waiting_loop ≡ none
        → (early_callbacks (sorted_heapq ℕ) some_turn waiting_loop ≡ [])
          × All
              (λ x. is_live some_handles x.item ≡ false)
              (after_early (sorted_heapq ℕ) some_turn waiting_loop).prioritized)
step_wait_cases_example =
    step_wait_cases (sorted_heapq ℕ) some_turn waiting_loop live_queue-IsHeap (refl, (refl, tt))

some_loop-LoopInv : LoopInv some_loop
some_loop-LoopInv = record {
  queue = record { heap = live_queue-IsHeap; fresh = (omega arith, (omega arith, tt)) };
  timed = (refl, (refl, tt));
  known = (omega arith, (omega arith, tt));
}

run_loop-LoopInv_example :
    LoopInv (run_loop (sorted_heapq ℕ) some_code (some_turn ∷ some_turn ∷ []) some_loop).0
run_loop-LoopInv_example =
    run_loop-LoopInv (sorted_heapq ℕ) some_code (some_turn ∷ some_turn ∷ []) some_loop
      some_loop-LoopInv

some_loop-AtMostOnce : AtMostOnce [] some_loop
some_loop-AtMostOnce h = grind arith

run_loop-AtMostOnce_example :
    AtMostOnce [] (run_loop (sorted_heapq ℕ) some_code (some_turn ∷ some_turn ∷ []) some_loop).0
run_loop-AtMostOnce_example =
    run_loop-AtMostOnce (sorted_heapq ℕ) some_code (some_turn ∷ some_turn ∷ []) some_loop
      some_loop-LoopInv some_loop-AtMostOnce

some_step_fine : (run_step (sorted_heapq ℕ) some_code some_turn some_loop).1 ≡ ok tt
unfolding sorted_heapq run_step invoke_handles pop_pending pop_below_priority invoke_handle exec_ops
    exec_op call_soon invoke_callback call_later pop_low invoke_events enqueue sort insert
some_step_fine = refl

-- The handle 0 is called in the turn.
run_step_calls_due_example :
    let l' = (run_step (sorted_heapq ℕ) some_code some_turn some_loop).0 in
    ((l'.handles 0).is_cancelled ≡ true) ⊎ ((times 0 [] ≡ 0) × (times 0 l'.called ≡ 1))
unfolding due_times
run_step_calls_due_example =
    run_step_calls_due (sorted_heapq ℕ) 0 some_code some_turn some_loop some_loop-LoopInv
      some_loop-AtMostOnce (omega arith) some_step_fine

-- The call falls between the taking of the early callbacks and the flag.
thread_call_cases_example :
    let after =
      open_turn (sorted_heapq ℕ) (closure 3) no_args after_pop after_ask some_turn some_loop in
    (after_pop ≡ before_pop → after.1 ≡ some 0)
    × (after_ask ≡ polling → after.0.wakeups ≡ 1)
    × (0 < rank after_pop
        → rank after_ask < 3
        → Unnoticed (sorted_heapq ℕ) some_turn some_loop after)
thread_call_cases_example =
    thread_call_cases (sorted_heapq ℕ) (closure 3) no_args after_pop after_ask some_turn some_loop
      some_loop-LoopInv refl (omega arith)

given_handles : AreGiven 5 (0 ∷ 1 ∷ []) (2 ∷ 3 ∷ 4 ∷ [])
given_handles h = grind arith

new_loop_starts_example :
    (LoopInv (new_loop 0 some_handles 5 none) × AtMostOnce [] (new_loop 0 some_handles 5 none))
    × (((q : PriorityQueue ℕ) × (new_scheduler
              (sorted_heapq ℕ)
              some_handles
              (0 ∷ 1 ∷ [])
              (2 ∷ 3 ∷ 4 ∷ [])
            ≡ ok q)
          × LoopInv (new_loop 0 some_handles 5 (some q))
          × AtMostOnce [] (new_loop 0 some_handles 5 (some q))
          × HaveNoTime some_handles (0 ∷ 1 ∷ [])
          × HaveTimes some_handles (2 ∷ 3 ∷ 4 ∷ []))
        ⊎ ((new_scheduler (sorted_heapq ℕ) some_handles (0 ∷ 1 ∷ []) (2 ∷ 3 ∷ 4 ∷ [])
              ≡ raised value_error)
            × ¬ (HaveNoTime some_handles (0 ∷ 1 ∷ []) × HaveTimes some_handles (2 ∷ 3 ∷ 4 ∷ []))))
new_loop_starts_example =
    new_loop_starts (sorted_heapq ℕ) some_handles 5 0 (0 ∷ 1 ∷ []) (2 ∷ 3 ∷ 4 ∷ []) given_handles

-- The call of `some_turn` while the selector polls.
run_step_calls_thread_example :
    let h = (polling_after (sorted_heapq ℕ) [] some_turn some_loop).next_handle in
    let l' = (run_step (sorted_heapq ℕ) some_code some_turn some_loop).0 in
    ((l'.handles h).is_cancelled ≡ true) ⊎ (times h l'.called ≡ 1)
run_step_calls_thread_example =
    run_step_calls_thread (sorted_heapq ℕ) some_code some_turn some_loop [] [] (closure 1) no_args
      some_loop-LoopInv some_loop-AtMostOnce refl some_step_fine
