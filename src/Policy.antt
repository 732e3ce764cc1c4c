-- ===== src/Policy.antt =====
-- aio/loop/pure/policy.py and aio/loop/_priv.py: the policy of a thread, which makes its loop and
-- keeps the networking and the executor that its users share. A context manager is two functions,
-- one to enter it and one to leave it; objects are numbers, new ones are arguments.
pub mod Share
use aio.Prelude.{ℕ, Bool, true, false, Option, none, some}
use aio.Exceptions.{Result, ok, raised, runtime_error, type_error, assertion_error, attribute_error}
use aio.Executor.{StdExecutor, thread_pool, given, make_executor, Job}

pub record Policy : Type 0 where
  pub selector : Option ℕ
  pub loop : Option ℕ
  pub cached_networking : Option ℕ
  pub cached_executor : Option StdExecutor

-- `BaseLoopPolicy.__init__`.
abbrev pub new_policy : Policy
new_policy = record {
  selector = none;
  loop = none;
  cached_networking = none;
  cached_executor = none;
}

-- The selector is kept before the loop is made of it.
make_loop : Result ℕ → Result ℕ → Policy → Policy × Result ℕ
make_loop (raised e) built p = (p, raised e)
make_loop (ok s) (raised e) p = (record p { selector = some s }, raised e)
make_loop (ok s) (ok l) p = (record p { selector = some s; loop = some l }, ok l)

-- `create_loop`, entered: `made` is what the factory of the selector gives, `built` the loop that
-- is made of it, or what that raises.
unfoldable pub loop_enter : Result ℕ → Result ℕ → Policy → Policy × Result ℕ
unfolding make_loop
loop_enter made built p = elim p.selector [
  | some s ↦ (p, raised runtime_error)
  | none ↦ make_loop made built p
]

unfoldable pub loop_exit : Policy → Policy
loop_exit p = record p { selector = none; loop = none }

networking_for : ℕ → Option ℕ → Policy → Policy × Result (ℕ × Bool)
networking_for new (some n) p = (p, ok (n, false))
networking_for new none p = (record p { cached_networking = some new }, ok (new, true))

-- `create_networking`, entered: the networking, and whether this user made it.
unfoldable pub networking_enter : ℕ → Policy → Policy × Result (ℕ × Bool)
unfolding networking_for
networking_enter new p = elim p.selector [
  | none ↦ (p, raised assertion_error)
  | some s ↦ networking_for new p.cached_networking p
]

unfoldable pub networking_exit : Bool → Policy → Policy
networking_exit false p = p
networking_exit true p = record p { cached_networking = none }

executor_for : ℕ → Option StdExecutor → Policy → Policy × Result StdExecutor
executor_for s (some x) p = (p, ok x)
executor_for s none p =
    (record p { cached_executor = some (make_executor (some s)) }, ok (make_executor (some s)))

-- `create_executor`, entered; when it is left nothing changes. What it gives the factory is the
-- selector.
unfoldable pub executor_enter : Policy → Policy × Result StdExecutor
unfolding executor_for make_executor
executor_enter p = elim p.selector [
  | none ↦ (p, raised assertion_error)
  | some s ↦ executor_for s p.cached_executor p
]

-- `self._executor.submit`, where what is given is a selector, which has no such method.
unfoldable pub submit_on : {V : Type 0} → (Job V → Result ℕ) → StdExecutor → Job V → Result ℕ
submit_on pool thread_pool job = pool job
submit_on pool (given s) job = raised attribute_error

-- What `loop_global_cfg.policy` of a thread holds.
pub data Configured : Type 0 where
  is_policy is_other : ℕ → Configured

check_policy : Configured → Result ℕ
check_policy (is_policy n) = ok n
check_policy (is_other n) = raised type_error

-- `get_loop_policy`: a thread that has none gets a new one, `new`.
unfoldable pub get_loop_policy : ℕ → Option Configured → Option Configured × Result ℕ
unfolding check_policy
get_loop_policy new none = (some (is_policy new), ok new)
get_loop_policy new (some c) = (some c, check_policy c)

-- `set_loop_policy`.
unfoldable pub set_loop_policy : Configured → Option Configured → Option Configured
set_loop_policy c old = some c
