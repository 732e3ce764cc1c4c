-- ===== src/Executor/Deliver.antt =====
-- aio/components/executor.py: how the end of a call comes to the task that waits for it.
use aio.Prelude.{Bool, false, none}
use aio.Exceptions.{cancelled, CancelClass, is_cancel}
use aio.World.{World}
use aio.Future.Settle.{Outcome, returns, raises}
use aio.Executor.{DoneFuture, was_cancelled, has_exception, has_result}

module _ {V : Type 0} where
  -- What the waiter is finished with.
  abbrev pub outcome_of : V → DoneFuture V → Outcome V
  outcome_of method was_cancelled = raises (cancelled CancelClass.plain none)
  outcome_of method (has_exception e) = raises e
  outcome_of method (has_result v) = returns method

  -- An exception of the call that is a `Cancelled` of aio.
  abbrev pub is_cancel_result : DoneFuture V → Bool
  is_cancel_result (has_exception e) = is_cancel e
  is_cancel_result _ = false
