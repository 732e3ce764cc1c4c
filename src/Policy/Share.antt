-- ===== src/Policy/Share.antt =====
-- aio/loop/pure/policy.py: what the users of one policy share.
use aio.Prelude.{ℕ, ◌≡◌, refl, Bool, true, false, none, some, List, [], ◌∷◌, ◌++◌, arith}
use aio.Exceptions.{Exc, Result, ok, raised, runtime_error, attribute_error}
use aio.World.{World}
use aio.Executor.{given, Job, execute_start}
use aio.Policy.{
  Policy, loop_enter, loop_exit, networking_enter, networking_exit, executor_enter, submit_on,
}

-- One loop at a time: while there is a selector, `create_loop` raises `RuntimeError` and changes
-- nothing; once a loop is made no other is until it is left, and then another is made. If the loop
-- cannot be made of the selector, the exception leaves `create_loop` and the selector stays, so
-- that no loop can ever be made again.
pub loop_enter_cases :
    (p : Policy) (s l : ℕ) (e : Exc) (made built : Result ℕ)
    → (p.selector ≡ some s → loop_enter made built p ≡ (p, raised runtime_error))
      × (p.selector ≡ none
          → let (p', r) = loop_enter (ok s) (ok l) p in
            (r ≡ ok l)
            × (loop_enter made built p' ≡ (p', raised runtime_error))
            × ((loop_enter (ok s) (ok l) (loop_exit p')).1 ≡ ok l))
      × (p.selector ≡ none
          → let (p', r) = loop_enter (ok s) (raised e) p in
            (r ≡ raised e) × (loop_enter made built p' ≡ (p', raised runtime_error)))
unfolding loop_enter loop_exit
loop_enter_cases p s l e made built = (
  (λ h. ground arith),
  (λ h. (ground arith, ground arith, ground arith)),
  (λ h. (ground arith, ground arith)),
)

-- What other users of the networking do: they enter, or leave what they did not make.
pub data User : Type 0 where
  enters : ℕ → User
  leaves : User

user_step : User → Policy → Policy × List (Result (ℕ × Bool))
user_step (enters new) p = let (p', r) = networking_enter new p in (p', r ∷ [])
user_step leaves p = (networking_exit false p, [])

pub run_users : List User → Policy → Policy × List (Result (ℕ × Bool))
unfolding user_step
run_users [] p = (p, [])
run_users (u ∷ us) p =
    ((run_users us (user_step u p).0).0, (user_step u p).1 ++ (run_users us (user_step u p).0).1)

abbrev pub AllGet : ℕ → List (Result (ℕ × Bool)) → Type 0
AllGet n [] = Unit {0}
AllGet n (r ∷ rs) = (r ≡ ok (n, false)) × AllGet n rs

networking_cached :
    (new : ℕ) (p : Policy) (s n : ℕ)
    → p.selector ≡ some s
    → p.cached_networking ≡ some n
    → networking_enter new p ≡ (p, ok (n, false))
unfolding networking_enter
networking_cached new p s n h c = ground arith

run_users-shared :
    (us : List User) (p : Policy) (s n : ℕ)
    → p.selector ≡ some s
    → p.cached_networking ≡ some n
    → ((run_users us p).0 ≡ p) × AllGet n (run_users us p).1
unfolding run_users user_step networking_enter networking_exit
run_users-shared [] p s n h c = (refl, tt)
run_users-shared (enters new ∷ us) p s n h c =
    let (same, all) = run_users-shared us p s n h c in
    rw (networking_cached new p s n h c) (same, (refl, all))
run_users-shared (leaves ∷ us) p s n h c = run_users-shared us p s n h c

-- The first user of the networking makes it. Until that user leaves, whatever the others do, each
-- of them gets that same networking and the policy stays as it is; after that the policy is as it
-- was before, and the next user makes a new one.
pub networking_shared :
    (p : Policy) (s n m : ℕ) (us : List User)
    → p.selector ≡ some s
    → p.cached_networking ≡ none
    → let (p', r) = networking_enter n p in
      (r ≡ ok (n, true))
      × ((run_users us p').0 ≡ p')
      × AllGet n (run_users us p').1
      × (networking_exit true p' ≡ p)
      × ((networking_enter m (networking_exit true p')).1 ≡ ok (m, true))
unfolding networking_enter networking_exit
networking_shared p s n m us h c =
    let p' : Policy = record p { cached_networking = some n } in
    let (same, all) = run_users-shared us p' s n h refl in
    let made : networking_enter n p ≡ (p', ok (n, true)) = ground arith in
    rw made (refl, same, all, ground arith, ground arith)

-- The executor of a policy wraps the selector: every call on it raises `AttributeError` before
-- anything is run, and every later user gets it as well.
pub executor_unusable :
    {V : Type 0} (p : Policy) (s : ℕ) (pool : Job V → Result ℕ) (tuple : List V → V) (l fn : ℕ)
    (args : List V) (w : World V)
    → p.selector ≡ some s
    → p.cached_executor ≡ none
    → let (p', r) = executor_enter p in
      (r ≡ ok (given s))
      × (executor_enter p' ≡ (p', ok (given s)))
      × (execute_start (submit_on pool (given s)) tuple l fn args w ≡ (w, raised attribute_error))
unfolding executor_enter submit_on execute_start
executor_unusable p s pool tuple l fn args w h c = (ground arith, ground arith, refl)
