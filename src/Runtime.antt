-- ===== src/Runtime.antt =====
-- aio/future/pure.py on aio/loop/pure/impl.py: futures and tasks with the loops that call their
-- handles. A future makes its handles with `call_soon` of its loop, which enqueues them in its
-- scheduler; a turn of the loop takes those that are due and calls them one after the other.
pub mod Queues
pub mod Inv
pub mod Changes
pub mod Run
pub mod Turn
use aio.Prelude.{
  ℕ, zero, suc, ◌-◌, ◌≡◌, Bool, true, false, Option, List, [], ◌∷◌, if◌then◌else◌, update,
}
use aio.Exceptions.{is_exception, Result, ok, raised}
use aio.World.{Callback, step_of, closure, Handle, World, cancel_handle}
use aio.Scheduler.{PriorityQueue, enqueue, handle_priority, pop_pending}
use aio.Scheduler.Heap.{Heapq}
use aio.Sleep.{timer}
use aio.Task.{Op, Code}
use aio.Task.Step.{exec_op, exec_ops, step}
use aio.Task.Step.Run.{comes_out}
use aio.Task.Step.Turns.{after_call, YieldsKnown}

-- `queues` are the schedulers of the loops, and `batches` the handles that a loop has taken for this
-- turn and not passed yet: the first of them is the next to be called, or the one being called.
pub record Runtime (V : Type 0) : Type 0 where
  pub world : World V
  pub queues : ℕ → PriorityQueue ℕ
  pub batches : ℕ → List ℕ

module _ {V : Type 0} where
  -- A call of a callback: `code` says what the coroutine of a task does, and `ops` what a
  -- function of the program does to futures.
  unfoldable pub call_back :
      ℕ → Code V → List (Op V) → Callback → World V → World V × Result (Unit {0})
  call_back n code ops (step_of t) w = step n t code w
  call_back n code ops (closure k) w = (exec_ops n ops w, ok tt)

  -- The handle `h` of the loop `l` was passed, and was called if `called`.
  unfoldable pub pass : ℕ → ℕ → List ℕ → Bool → Runtime V → Runtime V
  pass l h hs called s = record s {
    world = if called then after_call s.world h else s.world;
    batches = update s.batches l hs;
  }

  -- `_invoke_callback_within_context` hands an `Exception` to the handler and raises what is
  -- none.
  pass_called : ℕ → ℕ → List ℕ → Result (Unit {0}) → Runtime V → Runtime V × Result (Unit {0})
  unfolding pass
  pass_called l h hs (ok u) s = (pass l h hs true s, ok tt)
  pass_called l h hs (raised e) s =
      if is_exception e then (pass l h hs true s, ok tt) else (s, raised e)

  -- A step that raises nothing, of a coroutine that yields no future that does not exist.
  abbrev pub GoesWell : ℕ → Code V → Callback → World V → Type 0
  GoesWell n code (step_of t) w =
      ((step n t code w).1 ≡ ok tt)
      × YieldsKnown (comes_out (w.futs t).state (w.futs t).coro code) (step n t code w).0
  GoesWell n code (closure k) w = Unit {0}

module _ (hq : Heapq ℕ) where
  -- The enqueueing in `BaseEventLoop.call_soon` and `call_later`: `count` handles from `first` on,
  -- each in the scheduler of its loop.
  unfoldable pub enqueue_new : ℕ → ℕ → (ℕ → Handle) → (ℕ → PriorityQueue ℕ) → (ℕ → PriorityQueue ℕ)
  enqueue_new zero first handles queues = queues
  enqueue_new (suc count) first handles queues =
      let l = (handles first).loop in
      enqueue_new count (suc first) handles
        (update queues l (enqueue hq (handle_priority handles) first (queues l)))

  module _ {V : Type 0} where
    -- The world becomes `w`, and the handles that are new in it are enqueued.
    unfoldable pub become : World V → Runtime V → Runtime V
    become w s = record s {
      world = w;
      queues =
          enqueue_new (w.next_handle - s.world.next_handle) s.world.next_handle w.handles s.queues;
    }

    -- `pop_pending` in a turn of the loop `l`.
    unfoldable pub take : ℕ → ℕ → Runtime V → Runtime V
    take l threshold s =
        let (q, hs) = pop_pending hq s.world.handles threshold (s.queues l) in
        record s { queues = update s.queues l q; batches = update s.batches l hs }

    -- `_invoke_handle`.
    pub invoke_taken :
        ℕ → Code V → List (Op V) → ℕ → ℕ → List ℕ → Runtime V → Runtime V × Result (Unit {0})
    unfolding become call_back pass pass_called
    invoke_taken n code ops l h hs s =
        if (s.world.handles h).is_cancelled
        then (pass l h hs false s, ok tt)
        else (let (w, r) = call_back n code ops (s.world.handles h).callback s.world in
            pass_called l h hs r (become w s))

    -- One round of the `for` loops of `run_step`.
    unfoldable pub invoke_next :
        ℕ → Code V → List (Op V) → ℕ → Runtime V → Runtime V × Result (Unit {0})
    unfolding invoke_taken
    invoke_next n code ops l s = elim (s.batches l) [
      | [] ↦ (s, ok tt)
      | h ∷ hs ↦ invoke_taken n code ops l h hs s
    ]

    -- What happens, one event after the other: something is done to a future from outside of the
    -- callbacks; a function is to be called at some time; the handle of a function is cancelled; a
    -- turn of a loop takes what is due; it passes the next handle that it took.
    pub data Occurs : Runtime V → Runtime V → Type 0 where
      acts : {s : Runtime V} (n : ℕ) (o : Op V) → Occurs s (become (exec_op n o s.world) s)
      delays :
          {s : Runtime V} (when : Option ℕ) (l k : ℕ) → Occurs s (become (timer when l k s.world) s)
      drops :
          {s : Runtime V} (h k : ℕ)
          → (s.world.handles h).callback ≡ closure k
          → Occurs s (become (cancel_handle s.world h) s)
      takes : {s : Runtime V} (l threshold : ℕ) → s.batches l ≡ [] → Occurs s (take l threshold s)
      calls :
          {s : Runtime V} (n : ℕ) (code : Code V) (ops : List (Op V)) (l h : ℕ) (hs : List ℕ)
          → s.batches l ≡ h ∷ hs
          → ((s.world.handles h).is_cancelled ≡ false
              → GoesWell n code (s.world.handles h).callback s.world)
          → Occurs s (invoke_next n code ops l s).0

    pub data Runs : Runtime V → Runtime V → Type 0 where
      ends : {s : Runtime V} → Runs s s
      then_runs : {s x y : Runtime V} → Occurs s x → Runs x y → Runs s y
