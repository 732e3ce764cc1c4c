-- ===== src/Tests/Channels.antt =====
-- Channels at concrete inputs (tests/test_loop.py and examples/queue_producer_consumer.py use
-- them).
use aio.Prelude.{
  ℕ, ◌≡◌, refl, inl, inr, false, none, some, Option, List, [], ◌∷◌, arith, ◌==◌, if◌then◌else◌,
}
use aio.Exceptions.{raised, channel_closed}
use aio.World.{no_args, closure, Fut, pending, success, coro_closed, plain_future, World}
use aio.Task.{send}
use aio.Channel.{Chan}
use aio.Channel.Async.{put_resume, close}
use aio.Channel.Invariant.{Call, Inv, gets, gets_now, puts, closes, run, run-Inv}
use aio.Channel.Refine.{accepted, delivered, lost, Implements, all_of}
use aio.Channel.Refine.Runs.{run-Implements}
use aio.Channel.Close.{close_wakes}

abbrev promise_in : Fut (Option ℕ)
promise_in = record { kind = plain_future; loop = 0; state = pending []; coro = coro_closed }

abbrev finished_promise : Fut (Option ℕ)
finished_promise = record promise_in { state = success none [] }

-- The futures 0 and 1 are pending, the others are finished.
abbrev promises : World (Option ℕ)
promises = record {
  futs = λ f. if f == 0 then promise_in else if f == 1 then promise_in else finished_promise;
  next_fut = 5;
  handles = λ h. record {
    when = none;
    loop = 0;
    callback = closure 0;
    args = no_args;
    executed = false;
    is_cancelled = false;
  };
  next_handle = 0;
  current_task = none;
}

abbrev empty_chan : Chan ℕ
empty_chan = record {
  world = promises;
  queue = record {
    container = [];
    read_waiters = [];
    write_waiters = [];
    max_capacity = some 2;
    closed = false;
  };
}

abbrev full_chan : Chan ℕ
full_chan = record empty_chan {
  queue = record {
    container = 3 ∷ 4 ∷ [];
    read_waiters = [];
    write_waiters = (5, 1) ∷ [];
    max_capacity = some 2;
    closed = false;
  };
}

abbrev getters_wait : ℕ → Chan ℕ
getters_wait p = record empty_chan {
  queue = record {
    container = [];
    read_waiters = p ∷ 1 ∷ [];
    write_waiters = [];
    max_capacity = some 2;
    closed = false;
  };
}

empty_chan-Inv : Inv empty_chan.queue
empty_chan-Inv = ground arith

full_chan-Inv : Inv full_chan.queue
full_chan-Inv = record { bounded = omega arith; readers = inl refl; writers = inr refl }

getters_wait-Inv : (p : ℕ) → Inv (getters_wait p).queue
getters_wait-Inv p = record { bounded = omega arith; readers = inr refl; writers = inl refl }

run-Inv_example :
    Inv (run (puts 0 7 ∷ puts 0 8 ∷ puts 0 9 ∷ gets_now ∷ closes ∷ []) empty_chan).queue
run-Inv_example =
    run-Inv (puts 0 7 ∷ puts 0 8 ∷ puts 0 9 ∷ gets_now ∷ closes ∷ []) empty_chan empty_chan-Inv

-- A get that waits, four puts, of which the first serves it and the last waits, and two gets.
abbrev four_puts : List (Call ℕ)
four_puts = gets 0 ∷ puts 0 6 ∷ puts 0 7 ∷ puts 0 8 ∷ puts 0 9 ∷ gets_now ∷ gets 0 ∷ []

run-Implements_example :
    Implements
      (all_of accepted four_puts empty_chan)
      (all_of delivered four_puts empty_chan)
      (all_of lost four_puts empty_chan)
      empty_chan.queue
      (run four_puts empty_chan).queue
run-Implements_example = run-Implements four_puts empty_chan empty_chan-Inv

close_wakes_example : (put_resume 1 send (close full_chan)).1 ≡ raised channel_closed
close_wakes_example = (close_wakes full_chan 1 [] (inl refl) refl refl).1
