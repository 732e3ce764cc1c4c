-- ===== src/Exceptions.antt =====
-- aio/exceptions.py and aio/future/utils.py: the exceptions of the library, and how the argument
-- of a cancellation becomes one.
use aio.Prelude.{ℕ, String, Bool, true, false, Option, none, some}

-- `Cancelled` and its subclasses.
pub data CancelClass : Type 0 where
  plain keyboard by_child by_parent : CancelClass

-- Every exception that the library raises or meets. `cancelled` holds the class and the message;
-- `user` is an `Exception` of the program, `base` a `BaseException` that is neither an
-- `Exception` nor a `Cancelled`. `os_error` is the one that the operating system raises.
pub data Exc : Type 0 where
  cancelled : CancelClass → Option String → Exc
  future_not_ready future_finished_error already_cancelling self_cancel_forbidden : Exc
  socket_configuration_error blocking_io_error os_error key_error : Exc
  channel_closed channel_empty channel_overflowed : Exc
  runtime_error recursion_error type_error value_error attribute_error : Exc
  assertion_error task_inner_error : Exc
  stop_async_iteration loop_stopped : Exc
  user : ℕ → Exc
  base : ℕ → Exc

-- `isinstance(exc, Cancelled)`.
abbrev pub is_cancel : Exc → Bool
is_cancel (cancelled c m) = true
is_cancel _ = false

-- `isinstance(exc, (Exception, Cancelled))`: all but the foreign `BaseException`s.
abbrev pub is_caught : Exc → Bool
is_caught (base n) = false
is_caught _ = true

-- `isinstance(exc, Exception)`: a `Cancelled` is a `BaseException` and no `Exception`.
abbrev pub is_exception : Exc → Bool
is_exception (base n) = false
is_exception (cancelled c m) = false
is_exception _ = true

-- `exc: str | Cancelled | None`. A `Cancelled` carries its class and message.
pub data CancelArg : Type 0 where
  message : String → CancelArg
  instance_of : CancelClass → Option String → CancelArg
  no_arg : CancelArg

-- `Cancelled.__init__` keeps the message it is given; no message is `None`.
abbrev pub coerce_cancel_arg : CancelArg → Exc
coerce_cancel_arg (message m) = cancelled CancelClass.plain (some m)
coerce_cancel_arg no_arg = cancelled CancelClass.plain none
coerce_cancel_arg (instance_of c m) = cancelled c m

-- A computation of the program: a value or the exception it raises.
pub data Result {ℓ} (A : Type ℓ) : Type ℓ where
  ok : A → Result A
  raised : Exc → Result A
