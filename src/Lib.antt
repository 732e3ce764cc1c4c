-- ===== src/Lib.antt =====
-- Verification of aio, an event loop for Python with futures, tasks, channels and networking.
--
-- The program. A `Future` (aio/future/pure.py) is pending until it is given a value or an exception,
-- and then schedules its callbacks on its loop. A `Task` is a future that drives a coroutine: its
-- `_step` resumes the coroutine, which yields the future that it waits for, and the step becomes a
-- callback of that future. The loop (aio/loop/pure/impl.py) takes the handles that `call_soon` and
-- `call_later` made from its scheduler (aio/loop/pure/scheduler.py) and calls them. A channel
-- (aio/channel.py) is a queue whose getters and putters wait on promises.
--
-- The model. Futures, tasks and handles are objects that others hold references to, so they live in
-- a store, `World`, under numbers given in the order of their creation; a method takes the store and
-- returns the new one and a value or an exception. The values that futures hold are a parameter of
-- the model.
--
--   Exceptions      aio/exceptions.py, aio/future/utils.py: the exceptions as one data type
--   World           the store; `Handle` of aio/interfaces.py; the states of futures and tasks;
--                   `call_soon` as far as a future sees it: a new handle
--   Future          `Future`, `FuturePromise`, `create_promise` of aio/future/pure.py
--     .Callbacks    the sets and dicts of callbacks, and the handles made for them
--     .Settle       what holds when a future is finished, and after
--   Task            `Task._cancel`, `_schedule_first_step`, `create_task`, `cancel_future`
--     .Step         `Task._step`, the coroutine protocol; .Run, .Wait, .Raises: what a step does
--     .Protect      what a running coroutine cannot do to its own task
--     .Cancel       where cancellations go
--     .Wake         what wakes a task that is not finished; .Step.Wake, .Step.Turns, .Step.Runs: the events
--                   of a store of futures, and what wakes each task after them
--     .Handles      what is kept of the handles
--   Channel         `_Queue` of aio/channel.py: the methods that do not wait
--     .Async        the methods that wait, in two parts each, before and after the `await`; `close`
--     .Errors, .Invariant, .Fifo, .Waiters, .Close: what holds of a channel
--     .Spec         an abstract queue; .Refine: what each call is as steps of it
--   Scheduler       `PriorityQueue` and `Scheduler` of aio/loop/pure/scheduler.py
--     .Heap         heapq as an interface of documented laws; .Sorted: an instance of it
--     .Pop          what is taken off a queue; .Pending: the handles of the scheduler
--     .Agree        `pop_pending` against a sort; .New: a new one; .Times: how often a handle waits
--   Loop            `BaseEventLoop` and `BaseLoopRunner` of aio/loop/pure/impl.py
--     .Inv, .Wait, .Leaves, .Stop: what every callback and (.Inv.Run) every run keeps, how long it waits, how it ends
--     .Once         how often a handle is called (.Run: over a run)
--     .Prompt       handles that were called or cancelled; .Step: those due at the start of a turn;
--                   .Late: those enqueued in its course, which .Soon follows to its end
--     .New          what holds of a new loop
--     .Threads      calls from other threads, step by step
--   Runtime         futures and tasks on their loops: a store of futures with the schedulers and the
--                   batches of its loops, and the events that change them
--     .Queues       where new handles stand in the schedulers; .Changes: what keeps tasks awake
--     .Inv          each handle that is still to be called stands at one place of its loop
--     .Run, .Turn   what becomes of the tasks that are not finished
--   Selector        `SelectorsEventsSelector` of aio/loop/pure/networking.py
--     .Watches      what its watches bring
--     .Wakeup       `_SelectorWakeupper`, over an interface for its sockets; .Keys, .Woken: wake-ups and `select`
--   Networking      `SelectorNetworking` of aio/loop/pure/networking.py
--     .Refs, .Close the counts of the sockets in use, and what `close` stops
--     .Events       `_wait_sock_events`; .Watch: how it ends
--     .Write, .Ends what the loops that retry a call of a socket do, and that they end
--   Promises        `create_promise` of aio/future/_factories.py, and the wait for a promise
--   Shield, Sleep   `shield` and `sleep` of aio/funcs.py; .Mirror, .Protect, .Ends: how they end
--   Guard           `_guard_task` of aio/future/_factories.py; .Exit, .Failed: how it ends
--   Executor        aio/components/executor.py; .Deliver: how a result comes back
--   Policy          aio/loop/pure/policy.py, aio/loop/_priv.py; .Share: what its users share
--   Entry           `run` of aio/loop/entry.py; .Interrupt: keyboard interrupts
--   Utils           aio/utils.py; .Once: the warnings of `WarnUndoneAsyncGens`
--   Gather          `iter_done_futures` of aio/gather.py; .Enter
--   GenAll          scripts/gen_all.py, on syntax trees; .Rewrite: what it leaves of a module
--   Tests           concrete runs
--
-- Functions that wait. An `async` function of the library is a function for each part between its waits:
-- what it does up to an `await`, and what it does from there on, by how the wait ends. A nested function
-- that it hands out as a callback is a definition with the variables of its closure as arguments; the
-- callback itself is a number, its name.
--
-- Coroutines. The code of a coroutine is the program's, not the library's: between two suspensions it
-- is a list of the operations that it makes on futures and tasks, and the way it comes out (`Segment`).
-- Every theorem about a step holds for every such code. An exception that such an operation raises
-- leaves what it wrote; the code may go on or end, which the list says.
--
-- Bounds. `cancel_future` is called by tasks on the futures that they wait for; its first argument is
-- the depth of such calls before Python's `RecursionError`, and one more than the length of the chain
-- is enough (Task.Cancel.cancel_reaches). The loop that pops the heap has the heap's length as fuel: each
-- round takes one entry off. A run of the event loop is over a list of turns, which hold what comes from
-- outside: the readings of the clock, in ticks, the events of the selector or what `select` raises, what
-- the callbacks do, and what the exception handler raises when it is told of an exception of theirs.
-- The loops that retry a socket call have fuel, one for each round (Networking.Ends). All other loops
-- are structural.
--
-- Sets of callbacks are lists here, in the order of insertion; no theorem speaks of that order.
-- Not modelled: logging, labels, `__repr__`, the chaining of exceptions, the C implementation
-- (aio/future/cimpl.c, cimpl.py), context variables, the `ValueError` of `register` for an empty event
-- mask, and the callback of `iter_done_futures`, which never has a channel.
mod Prelude
pub mod Exceptions
pub mod World
pub mod Future
pub mod Task
pub mod Promises
pub mod Channel
pub mod Shield
pub mod Sleep
pub mod Runtime
pub mod Guard
pub mod Executor
pub mod Policy
pub mod Entry
pub mod Utils
pub mod Gather
pub mod Scheduler
pub mod Loop
pub mod Selector
mod Tests
pub mod Networking
pub mod GenAll
