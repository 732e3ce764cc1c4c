-- ===== src/Channel/Errors.antt =====
-- aio/channel.py: when the methods that do not wait raise, and what they raise.
use aio.Prelude.{ℕ, ◌≡◌, refl, ◌⊎◌, Bool, true, false, Option, none, some, List, [], ◌∷◌, arith}
use aio.Exceptions.{
  Exc, raised, assertion_error, channel_empty, channel_overflowed, future_finished_error,
  self_cancel_forbidden, runtime_error,
}
use aio.World.{World}
use aio.Future.{promise_set_result, set_result, base_set_result, task_set_result}
use aio.Channel.{
  Chan, get_refilled, get_taken, get_from, get_no_wait, over_capacity, put_to, put_no_wait,
}

-- What setting the result of a promise can raise: nothing that a channel raises itself.
abbrev pub settle_error : Exc → Bool
settle_error future_finished_error = true
settle_error self_cancel_forbidden = true
settle_error runtime_error = true
settle_error _ = false

module _ {T : Type 0} where
  pub promise_set_result-raised :
      (p : ℕ) (v : Option T) (w : World (Option T)) (x : Exc)
      → (promise_set_result p v w).1 ≡ raised x
      → settle_error x ≡ true
  unfolding promise_set_result set_result task_set_result base_set_result
  promise_set_result-raised p v w x e = ground arith

  pub get_taken-raised :
      (e : T) (rest : List T) (ws : List (T × ℕ)) (cap : Option ℕ) (c : Chan T) (x : Exc)
      → (get_taken e rest ws cap c).1 ≡ raised x
      → (settle_error x ≡ true) ⊎ (x ≡ assertion_error)
  unfolding get_taken get_refilled
  get_taken-raised e rest ((y, p) ∷ ws) (some m) c x h =
      ground (arith, promise_set_result-raised p none c.world x)
  get_taken-raised e rest ((y, p) ∷ ws) none c x h = cc
  get_taken-raised e rest [] capacity c x h = cc

  -- `EmptyError` is raised of an empty container only.
  pub get_no_wait-empty :
      (c : Chan T)
      → (get_no_wait c).1 ≡ raised channel_empty
      → (c.queue.container ≡ []) × ((get_no_wait c).0 ≡ c)
  unfolding get_no_wait
  get_no_wait-empty c h = go c.queue.container refl (h)
    where
      go :
          (xs : List T)
          → c.queue.container ≡ xs
          → (get_from xs c).1 ≡ raised channel_empty
          → (xs ≡ []) × ((get_from xs c).0 ≡ c)
      go [] e h = ground arith
      go (x ∷ rest) e h = absurd (
          ground (
            arith,
            get_taken-raised x rest c.queue.write_waiters c.queue.max_capacity c channel_empty,
          ))

  pub put_to-raised :
      (ps : List ℕ) (e : T) (c : Chan T) (x : Exc)
      → (put_to ps e c).1 ≡ raised x
      → (settle_error x ≡ true) ⊎ (x ≡ assertion_error)
  unfolding put_to
  put_to-raised [] e c x h = cc
  put_to-raised (p ∷ ps) e c x h = ground (arith, promise_set_result-raised p (some e) c.world x)

  -- `OverflowedError` is raised at the capacity only, and changes nothing.
  pub put_no_wait-overflowed :
      (e : T) (c : Chan T)
      → (put_no_wait e c).1 ≡ raised channel_overflowed
      → (over_capacity c.queue.max_capacity c.queue.container ≡ true)
        × (c.queue.read_waiters ≡ [])
        × ((put_no_wait e c).0 ≡ c)
  unfolding put_no_wait
  put_no_wait-overflowed e c h =
      ground (arith, put_to-raised c.queue.read_waiters e c channel_overflowed)
