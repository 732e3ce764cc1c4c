-- ===== src/Tests/Futures.antt =====
-- Futures at concrete inputs (tests/test_future.py has the like).
use aio.Prelude.{ℕ, ◌≡◌, refl, true, false, none, some, [], ◌∷◌}
use aio.World.{closure, no_args, pending, coro_closed, plain_future, World}
use aio.Future.{is_finished, set_result, base_set_result}
use aio.Future.Settle.{returns, settle_schedules}

-- One pending future with two callbacks.
abbrev two_callbacks : World ℕ
two_callbacks = record {
  futs = λ f. record {
    kind = plain_future;
    loop = 0;
    state = pending (closure 7 ∷ closure 8 ∷ []);
    coro = coro_closed;
  };
  next_fut = 1;
  handles = λ h. record {
    when = none;
    loop = 0;
    callback = closure 0;
    args = no_args;
    executed = true;
    is_cancelled = false;
  };
  next_handle = 3;
  current_task = none;
}

settle_schedules_example : (set_result 0 (some 5) none two_callbacks).0.next_handle ≡ 5
settle_schedules_example =
    (settle_schedules two_callbacks 0 (returns 5) (closure 7 ∷ closure 8 ∷ []) refl refl).3

-- The future that `finished_once` is applied to.
abbrev settled_world : World ℕ
settled_world = (set_result 0 (some 5) none two_callbacks).0

settled_world_finished : is_finished settled_world 0 ≡ true
unfolding is_finished set_result base_set_result
settled_world_finished = refl
