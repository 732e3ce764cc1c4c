-- ===== src/Channel/Invariant.antt =====
-- aio/channel.py: what holds of a channel between any two calls, whoever makes them.
use aio.Prelude.{
  ℕ, ◌≤◌, ◌<◌, ◌≡◌, refl, ap, ◌∙◌, ◌⊎◌, Option, none, some, List, [], ◌∷◌, arith, length,
  length-append,
}
use aio.Exceptions.{Result, ok, raised, channel_empty, channel_overflowed}
use aio.World.{World}
use aio.Task.{Resume}
use aio.Channel.{
  Queue, Chan, remove_waiter, remove_writer, get_refilled, get_taken, get_from, get_no_wait,
  put_no_wait,
}
use aio.Channel.Errors.{get_no_wait-empty, put_no_wait-overflowed}
use aio.Channel.Async.{get_after, put_after, get_start, get_resume, put_start, put_resume, close}

abbrev pub Within : Option ℕ → ℕ → Type 0
Within none n = Unit {0}
Within (some m) n = (0 < m) × (n ≤ m)

abbrev pub Full : Option ℕ → ℕ → Type 0
Full none n = ⊥
Full (some m) n = n ≡ m

-- A call of a method of a channel, or anything that others do to the store of futures.
pub data Call (T : Type 0) : Type 0 where
  gets_now : Call T
  puts_now : T → Call T
  gets : ℕ → Call T
  resumes_get : ℕ → Resume → Call T
  puts : ℕ → T → Call T
  resumes_put : ℕ → Resume → Call T
  closes : Call T
  elsewhere : World (Option T) → Call T

module _ {T : Type 0} where
  -- The container is within a capacity that is not 0; getters wait only while it is empty, and
  -- putters only while it is full.
  pub record Inv (q : Queue T) : Type 0 where
    pub bounded : Within q.max_capacity (length q.container)
    pub readers : (q.read_waiters ≡ []) ⊎ (q.container ≡ [])
    pub writers : (q.write_waiters ≡ []) ⊎ Full q.max_capacity (length q.container)

  unfoldable pub exec : Call T → Chan T → Chan T
  exec gets_now c = (get_no_wait c).0
  exec (puts_now e) c = (put_no_wait e c).0
  exec (gets l) c = (get_start l c).0
  exec (resumes_get p how) c = (get_resume p how c).0
  exec (puts l e) c = (put_start l e c).0
  exec (resumes_put p how) c = (put_resume p how c).0
  exec closes c = close c
  exec (elsewhere w) c = record c { world = w }

  unfoldable pub run : List (Call T) → Chan T → Chan T
  run [] c = c
  run (k ∷ ks) c = run ks (exec k c)

  get_refilled-Inv :
      (e : T) (rest : List T) (x : T) (p : ℕ) (ws : List (T × ℕ)) (m : ℕ) (c : Chan T)
      → Inv c.queue
      → c.queue.container ≡ e ∷ rest
      → c.queue.max_capacity ≡ some m
      → Inv (get_refilled e rest x p ws m c).0.queue
  unfolding get_refilled
  get_refilled-Inv e rest x p ws m c i h k = ground (arith, length-append rest (x ∷ []))

  get_taken-Inv :
      (e : T) (rest : List T) (ws : List (T × ℕ)) (cap : Option ℕ) (c : Chan T)
      → Inv c.queue
      → c.queue.container ≡ e ∷ rest
      → c.queue.write_waiters ≡ ws
      → c.queue.max_capacity ≡ cap
      → Inv (get_taken e rest ws cap c).0.queue
  unfolding get_taken
  get_taken-Inv e rest ((x, p) ∷ ws) (some m) c i h u k = get_refilled-Inv e rest x p ws m c i h k
  get_taken-Inv e rest ((x, p) ∷ ws) none c i h u k = ground arith
  get_taken-Inv e rest [] cap c i h u k = ground arith

  get_no_wait-Inv : (c : Chan T) → Inv c.queue → Inv (get_no_wait c).0.queue
  unfolding get_no_wait
  get_no_wait-Inv c i = go c.queue.container refl
    where
      go : (xs : List T) → c.queue.container ≡ xs → Inv (get_from xs c).0.queue
      go [] h = ground arith
      go (e ∷ rest) h =
          ground
            (arith, get_taken-Inv e rest c.queue.write_waiters c.queue.max_capacity c i h refl refl)

  put_no_wait-Inv : (e : T) (c : Chan T) → Inv c.queue → Inv (put_no_wait e c).0.queue
  unfolding put_no_wait
  put_no_wait-Inv e c i = ground (arith, length-append c.queue.container (e ∷ []))

  get_after-Inv :
      (c : Chan T) (r : Result T) (l : ℕ)
      → Inv c.queue
      → (r ≡ raised channel_empty → c.queue.container ≡ [])
      → Inv (get_after (c, r) l).0.queue
  unfolding get_after
  get_after-Inv c (ok e) l i h = i
  get_after-Inv c (raised x) l i h = ground arith

  get_start-Inv : (l : ℕ) (c : Chan T) → Inv c.queue → Inv (get_start l c).0.queue
  unfolding get_start
  get_start-Inv l c i =
      get_after-Inv (get_no_wait c).0 (get_no_wait c).1 l (get_no_wait-Inv c i)
        (λ e. ap (λ d. d.queue.container) (get_no_wait-empty c e).1 ∙ (get_no_wait-empty c e).0)

  put_after-Inv :
      (e : T) (c : Chan T) (r : Result (Unit {0})) (l : ℕ)
      → Inv c.queue
      → (r ≡ raised channel_overflowed → Full c.queue.max_capacity (length c.queue.container))
      → Inv (put_after (c, r) e l).0.queue
  unfolding put_after
  put_after-Inv e c (ok u) l i h = i
  put_after-Inv e c (raised x) l i h = ground arith

  put_no_wait-Full :
      (e : T) (c : Chan T)
      → Inv c.queue
      → (put_no_wait e c).1 ≡ raised channel_overflowed
      → Full c.queue.max_capacity (length c.queue.container)
  put_no_wait-Full e c i h = ground (arith, i.bounded, put_no_wait-overflowed e c h)

  put_start-Inv : (l : ℕ) (e : T) (c : Chan T) → Inv c.queue → Inv (put_start l e c).0.queue
  unfolding put_start
  put_start-Inv l e c i =
      put_after-Inv e (put_no_wait e c).0 (put_no_wait e c).1 l (put_no_wait-Inv e c i)
        (λ h. rw (put_no_wait-overflowed e c h).2 (put_no_wait-Full e c i h))

  get_resume-Inv :
      (p : ℕ) (how : Resume) (c : Chan T) → Inv c.queue → Inv (get_resume p how c).0.queue
  unfolding get_resume remove_waiter
  get_resume-Inv p how c i = ground arith

  put_resume-Inv :
      (p : ℕ) (how : Resume) (c : Chan T) → Inv c.queue → Inv (put_resume p how c).0.queue
  unfolding put_resume remove_writer
  put_resume-Inv p how c i = ground arith

  pub exec-Inv : (k : Call T) (c : Chan T) → Inv c.queue → Inv (exec k c).queue
  unfolding exec close
  exec-Inv gets_now c i = get_no_wait-Inv c i
  exec-Inv (puts_now e) c i = put_no_wait-Inv e c i
  exec-Inv (gets l) c i = get_start-Inv l c i
  exec-Inv (resumes_get p how) c i = get_resume-Inv p how c i
  exec-Inv (puts l e) c i = put_start-Inv l e c i
  exec-Inv (resumes_put p how) c i = put_resume-Inv p how c i
  exec-Inv closes c i = ground arith
  exec-Inv (elsewhere w) c i = i

  -- A channel with a capacity that is not 0, or with none, and no more elements than that to begin
  -- with: after any sequence of calls, by whichever tasks and with anything done to futures in
  -- between, the container is within the capacity, getters wait only while it is empty, and putters
  -- only while it is full.
  pub run-Inv : (ks : List (Call T)) (c : Chan T) → Inv c.queue → Inv (run ks c).queue
  unfolding run
  run-Inv [] c i = i
  run-Inv (k ∷ ks) c i = run-Inv ks (exec k c) (exec-Inv k c i)
