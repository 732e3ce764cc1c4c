-- ===== src/World.antt =====
-- The objects that futures, tasks and the loop share: `Handle` (aio/interfaces.py), the states of
-- `Future` and `Task` (aio/future/pure.py), and the store in which they live. Objects are numbered
-- in the order in which they are created, so that two references to one object are equal numbers.
-- A method is a function from the store to the store and a value or an exception: what was written
-- before an exception was raised stays written.
use aio.Prelude.{
  ℕ, suc, Bool, true, false, Option, none, some, List, [], ◌∷◌, ◌++◌, ◌==◌, if◌then◌else◌, update,
}
use aio.Exceptions.{Exc, Result}

-- What can be called back: the bound method `_step` of a task, or a function of the program.
pub data Callback : Type 0 where
  step_of : ℕ → Callback
  closure : ℕ → Callback

abbrev pub same_callback : Callback → Callback → Bool
same_callback (step_of t) (step_of u) = t == u
same_callback (closure n) (closure m) = n == m
same_callback (step_of t) (closure n) = false
same_callback (closure n) (step_of t) = false

-- `args`: nothing, `None`, or a future.
pub data Args : Type 0 where
  no_args with_none : Args
  with_future : ℕ → Args

pub record Handle : Type 0 where
  pub when : Option ℕ
  pub loop : ℕ
  pub callback : Callback
  pub args : Args
  pub executed : Bool
  pub is_cancelled : Bool

-- The objects `_state` of a future or a task. The callbacks of a state that is not finished are a
-- set; those of a finished state map each callback to its handle.
pub data FutState (V : Type 0) : Type 0 where
  pending : List Callback → FutState V
  created : List Callback → FutState V
  scheduled : List Callback → ℕ → FutState V
  cancelling : List Callback → ℕ → Exc → FutState V
  running : List Callback → ℕ → FutState V
  success : V → List (Callback × ℕ) → FutState V
  failed : Exc → Bool → List (Callback × ℕ) → FutState V

-- `inspect.getcoroutinestate`.
pub data CoroState : Type 0 where
  coro_created coro_suspended coro_running coro_closed : CoroState

-- `Future` or `Task`; the coroutine's state is of use in a task only.
pub data Kind : Type 0 where
  plain_future task_future : Kind

pub record Fut (V : Type 0) : Type 0 where
  pub kind : Kind
  pub loop : ℕ
  pub state : FutState V
  pub coro : CoroState

pub record World (V : Type 0) : Type 0 where
  pub futs : ℕ → Fut V
  pub next_fut : ℕ
  pub handles : ℕ → Handle
  pub next_handle : ℕ
  pub current_task : Option ℕ

abbrev pub M : Type 0 → Type 0 → Type 0
M V A = World V → World V × Result A

module _ {V : Type 0} where
  -- `isinstance(self._state, _PendingState)`, with its `result_callbacks`.
  abbrev pub waiting_callbacks : FutState V → Option (List Callback)
  waiting_callbacks (pending cbs) = some cbs
  waiting_callbacks (created cbs) = some cbs
  waiting_callbacks (scheduled cbs h) = some cbs
  waiting_callbacks (cancelling cbs h e) = some cbs
  waiting_callbacks (running cbs f) = some cbs
  waiting_callbacks (success v s) = none
  waiting_callbacks (failed e r s) = none

  abbrev pub is_pending : FutState V → Bool
  is_pending s = elim (waiting_callbacks s) [ none ↦ false | some cbs ↦ true ]

  abbrev pub is_done : FutState V → Bool
  is_done s = elim (waiting_callbacks s) [ none ↦ true | some cbs ↦ false ]

  -- `isinstance(self._state, _BaseTaskState)`.
  abbrev pub is_task_state : FutState V → Bool
  is_task_state (pending cbs) = false
  is_task_state (success v s) = false
  is_task_state (failed e r s) = false
  is_task_state _ = true

  -- `result_callbacks` is one object that the successive states of a task share.
  abbrev pub with_callbacks : FutState V → List Callback → FutState V
  with_callbacks (pending _) cbs = pending cbs
  with_callbacks (created _) cbs = created cbs
  with_callbacks (scheduled _ h) cbs = scheduled cbs h
  with_callbacks (cancelling _ h e) cbs = cancelling cbs h e
  with_callbacks (running _ f) cbs = running cbs f
  with_callbacks (success v s) _ = success v s
  with_callbacks (failed e r s) _ = failed e r s

  abbrev pub set_state : World V → ℕ → FutState V → World V
  set_state w f s = record w { futs = update w.futs f (record (w.futs f) { state = s }) }

  abbrev pub set_coro : World V → ℕ → CoroState → World V
  set_coro w f c = record w { futs = update w.futs f (record (w.futs f) { coro = c }) }

  -- `handle.cancel()`.
  abbrev pub cancel_handle : World V → ℕ → World V
  cancel_handle w h = record w {
    handles = update w.handles h (record (w.handles h) { is_cancelled = true });
  }

  -- `EventLoop.call_soon`: a new handle, which the loop will call.
  abbrev pub call_soon : World V → ℕ → Callback → Args → World V
  call_soon w l cb a = record w {
    handles = update w.handles w.next_handle (record {
      when = none;
      loop = l;
      callback = cb;
      args = a;
      executed = false;
      is_cancelled = false;
    });
    next_handle = suc w.next_handle;
  }

-- `cbs.add(cb)`, `cbs.remove(cb)` with the `KeyError` passed over, and `cb in cbs`.
unfoldable pub has_callback : Callback → List Callback → Bool
has_callback cb [] = false
has_callback cb (x ∷ xs) = if same_callback x cb then true else has_callback cb xs

unfoldable pub add_to : Callback → List Callback → List Callback
unfolding has_callback
add_to cb cbs = if has_callback cb cbs then cbs else cbs ++ cb ∷ []

unfoldable pub remove_from : Callback → List Callback → List Callback
remove_from cb [] = []
remove_from cb (x ∷ xs) = if same_callback x cb then xs else x ∷ remove_from cb xs

-- `cbs.pop(cb)` of a dict: the handle, and what is left.
unfoldable pub handle_of : Callback → List (Callback × ℕ) → Option ℕ
handle_of cb [] = none
handle_of cb ((x, h) ∷ xs) = if same_callback x cb then some h else handle_of cb xs

unfoldable pub pop_from : Callback → List (Callback × ℕ) → List (Callback × ℕ)
pop_from cb [] = []
pop_from cb ((x, h) ∷ xs) = if same_callback x cb then xs else (x, h) ∷ pop_from cb xs
