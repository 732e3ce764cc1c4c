-- ===== src/Channel/Fifo.antt =====
-- aio/channel.py: a channel is a queue. What it holds is its container and, behind it, the elements
-- of the putters that wait.
use mathlib.Core.List.{append-nil, append_assoc}
use aio.Prelude.{ℕ, ◌≡◌, refl, ap, sym, ◌∙◌, ◌≢◌, Option, none, some, List, [], ◌∷◌, ◌++◌, arith}
use aio.Exceptions.{Result, ok, raised, assertion_error, channel_overflowed}
use aio.World.{World}
use aio.Future.{create_promise}
use aio.Promises.{Started}
use aio.Channel.{Queue, Chan, get_refilled, get_taken, get_from, get_no_wait, put_to, put_no_wait}
use aio.Channel.Async.{put_after, put_bounded, wait_with, put_start}
use aio.Channel.Errors.{promise_set_result-raised, put_no_wait-overflowed}
use aio.Channel.Invariant.{Inv}

module _ {T : Type 0} where
  abbrev pub elements : List (T × ℕ) → List T
  elements [] = []
  elements ((x, p) ∷ ws) = x ∷ elements ws

  abbrev pub contents : Queue T → List T
  contents q = q.container ++ elements q.write_waiters

  elements-append :
      (ws : List (T × ℕ)) (x : T) (p : ℕ) → elements (ws ++ (x, p) ∷ []) ≡ elements ws ++ x ∷ []
  elements-append [] x p = refl
  elements-append ((y, q) ∷ ws) x p = ap (λ r. y ∷ r) (elements-append ws x p)

  get_taken-contents :
      (e : T) (rest : List T) (ws : List (T × ℕ)) (capacity : Option ℕ) (c : Chan T) {a : T}
      → c.queue.write_waiters ≡ ws
      → (get_taken e rest ws capacity c).1 ≡ ok a
      → e ∷ (rest ++ elements ws) ≡ a ∷ contents (get_taken e rest ws capacity c).0.queue
  unfolding get_taken get_refilled
  get_taken-contents e rest ((x, p) ∷ ws) (some m) c u h =
      ground (arith, append_assoc rest (x ∷ []) (elements ws))
  get_taken-contents e rest ((x, p) ∷ ws) none c u h = ground arith
  get_taken-contents e rest [] capacity c u h = ground arith

  -- An element that `get_no_wait` returns is the first of what the channel holds, and the rest
  -- stays in order: the element of a putter that waited goes to the end of the container.
  pub get_no_wait-contents :
      (c : Chan T) {a : T}
      → (get_no_wait c).1 ≡ ok a
      → contents c.queue ≡ a ∷ contents (get_no_wait c).0.queue
  unfolding get_no_wait
  get_no_wait-contents c h = go c.queue.container refl h
    where
      go :
          (xs : List T) {a : T}
          → c.queue.container ≡ xs
          → (get_from xs c).1 ≡ ok a
          → xs ++ elements c.queue.write_waiters ≡ a ∷ contents (get_from xs c).0.queue
      go [] e h = ground arith
      go (x ∷ rest) {a} e h = ground (
        arith,
        get_taken-contents x rest c.queue.write_waiters c.queue.max_capacity c {a = a} refl,
      )

  -- The `assert`s of the two methods hold.
  get_taken_asserts :
      (e : T) (rest : List T) (ws : List (T × ℕ)) (capacity : Option ℕ) (c : Chan T)
      → c.queue.container ≡ e ∷ rest
      → c.queue.write_waiters ≡ ws
      → c.queue.max_capacity ≡ capacity
      → Inv c.queue
      → (get_taken e rest ws capacity c).1 ≢ raised assertion_error
  unfolding get_taken get_refilled
  get_taken_asserts e rest ((x, p) ∷ ws) (some m) c h u k i =
      ground (arith, i.writers, promise_set_result-raised p none c.world assertion_error)
  get_taken_asserts e rest ((x, p) ∷ ws) none c h u k i = λ b. cc
  get_taken_asserts e rest [] capacity c h u k i = λ b. cc

  get_no_wait_asserts : (c : Chan T) → Inv c.queue → (get_no_wait c).1 ≢ raised assertion_error
  unfolding get_no_wait
  get_no_wait_asserts c i = go c.queue.container refl
    where
      go : (xs : List T) → c.queue.container ≡ xs → (get_from xs c).1 ≢ raised assertion_error
      go [] e = ground arith
      go (x ∷ rest) e = ground (
        arith,
        i.readers,
        get_taken_asserts x rest c.queue.write_waiters c.queue.max_capacity c e refl refl i,
      )

  put_no_wait_asserts :
      (e : T) (c : Chan T) → Inv c.queue → (put_no_wait e c).1 ≢ raised assertion_error
  unfolding put_no_wait put_to
  put_no_wait_asserts e c i = go c.queue.read_waiters refl
    where
      go : (ps : List ℕ) → c.queue.read_waiters ≡ ps → (put_no_wait e c).1 ≢ raised assertion_error
      go [] h = ground (arith, i.bounded)
      go (p ∷ ps) h = ground (
        arith,
        i.bounded,
        i.readers,
        promise_set_result-raised p (some e) c.world assertion_error,
      )

  -- The `assert`s of `get_no_wait` and `put_no_wait` hold in every channel that keeps the
  -- invariant.
  pub asserts_hold :
      (e : T) (c : Chan T)
      → Inv c.queue
      → ((get_no_wait c).1 ≢ raised assertion_error)
        × ((put_no_wait e c).1 ≢ raised assertion_error)
  asserts_hold e c i = (get_no_wait_asserts c i, put_no_wait_asserts e c i)

  pub put_no_wait-contents :
      (e : T) (c : Chan T)
      → Inv c.queue
      → c.queue.read_waiters ≡ []
      → (put_no_wait e c).1 ≡ ok tt
      → contents (put_no_wait e c).0.queue ≡ contents c.queue ++ e ∷ []
  unfolding put_no_wait put_to
  put_no_wait-contents e c i r h =
      ground
        (arith, i.writers, append-nil c.queue.container, append-nil (c.queue.container ++ e ∷ []))

  put_waiting-contents :
      (m : World (Option T) × Result ℕ) (e : T) (c : Chan T) {s : Started (Unit {0})}
      → let r : Chan T × Result (Started (Unit {0})) =
          wait_with m
            (λ p. record (c.queue) { write_waiters = c.queue.write_waiters ++ (e, p) ∷ [] })
            c in
        r.1 ≡ ok s → contents r.0.queue ≡ contents c.queue ++ e ∷ []
  unfolding wait_with
  put_waiting-contents (w, ok p) e c h =
      rw (elements-append c.queue.write_waiters e p)
        (sym (append_assoc c.queue.container (elements c.queue.write_waiters) (e ∷ [])))
  put_waiting-contents (w, raised x) e c h = cc

  put_wait-contents :
      (l : ℕ) (e : T) (c : Chan T) (capacity : Option ℕ) {s : Started (Unit {0})}
      → (put_bounded capacity e l c).1 ≡ ok s
      → contents (put_bounded capacity e l c).0.queue ≡ contents c.queue ++ e ∷ []
  unfolding put_bounded wait_with
  put_wait-contents l e c none h = cc
  put_wait-contents l e c (some m) h = put_waiting-contents (create_promise l c.world) e c h

  -- A `put` to which no getter waits, and that raises nothing, adds its element at the end of what
  -- the channel holds, whether it returns at once or waits.
  pub put_start-contents :
      (l : ℕ) (e : T) (c : Chan T) {s : Started (Unit {0})}
      → Inv c.queue
      → c.queue.read_waiters ≡ []
      → (put_start l e c).1 ≡ ok s
      → contents (put_start l e c).0.queue ≡ contents c.queue ++ e ∷ []
  unfolding put_start put_after
  put_start-contents l e c {s} i r h = go (put_no_wait e c) refl h
    where
      go :
          (m : Chan T × Result (Unit {0}))
          → put_no_wait e c ≡ m
          → (put_after m e l).1 ≡ ok s
          → contents (put_after m e l).0.queue ≡ contents c.queue ++ e ∷ []
      go (d, ok u) q h =
          ap (λ x. contents x.0.queue) (sym q) ∙ put_no_wait-contents e c i r (ap (λ x. x.1) q)
      go (d, raised channel_overflowed) q h =
          let same : d ≡ c =
            ap (λ x. x.0) (sym q) ∙ (put_no_wait-overflowed e c (ap (λ x. x.1) q)).2 in
          rw same (put_wait-contents l e c c.queue.max_capacity (rw same at h))
      go (d, raised other) q h = ground arith
