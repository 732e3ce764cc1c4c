-- ===== src/Channel/Close.antt =====
-- aio/channel.py: `close`, and what a channel does once it is closed.
use aio.Prelude.{
  subst, ℕ, ◌≡◌, refl, ap, ◌∙◌, ◌⊎◌, inl, inr, true, false, Option, none, some, List, [], ◌∷◌, ◌++◌,
  arith, if◌then◌else◌, ◌==◌, ==_iff, Bool-cases, length,
}
use aio.Exceptions.{ok, raised, channel_closed, future_finished_error}
use aio.World.{World, pending, plain_future, Callback, is_done}
use aio.Future.{
  promise_set_result, promise_set_exception, state, is_finished, await_resume, handles_from,
}
use aio.Future.Settle.{
  returns, raises, finished_by, settled, set_result_other, set_result-pending, finished_once,
  result-finished_by, is_finished_by,
}
use aio.Task.{send}
use aio.Channel.{Chan, put_no_wait, get_refilled, get_taken, get_from, get_no_wait}
use aio.Promises.{await_promise}
use aio.Channel.Async.{get_resume, put_resume, close_all, promises_of, close}

abbrev pub Among : ℕ → List ℕ → Type 0
Among p [] = ⊥
Among p (q ∷ qs) = (p ≡ q) ⊎ Among p qs

Among-rest : (p q : ℕ) (ps : List ℕ) → (p == q) ≡ false → Among q (p ∷ ps) → Among q ps
Among-rest p q ps ne (inl e) = absurd (ground arith)
Among-rest p q ps ne (inr a) = a

module _ {T : Type 0} where
  abbrev close_one : ℕ → World (Option T) → World (Option T)
  close_one p w = if is_finished w p then w else (promise_set_exception p channel_closed w).0

  close_one-pending :
      (p : ℕ) (w : World (Option T)) (cbs : List Callback)
      → (w.futs p).kind ≡ plain_future
      → state w p ≡ pending cbs
      → close_one p w ≡ settled w p (raises channel_closed) cbs
  unfolding promise_set_exception is_finished
  close_one-pending p w cbs k s =
      ground (arith, set_result-pending w p (raises channel_closed) cbs k s)

  close_one-other :
      (p q : ℕ) (w : World (Option T)) → (p == q) ≡ false → (close_one p w).futs q ≡ w.futs q
  unfolding promise_set_exception
  close_one-other p q w ne = ground (arith, set_result_other w p q none (some channel_closed))

  close_one-finished :
      (p q : ℕ) (w : World (Option T)) → is_finished w q ≡ true → (close_one p w).futs q ≡ w.futs q
  close_one-finished p q w d = elim (Bool-cases (p == q)) [
    | inl e ↦ ground (arith, ==_iff p q)
    | inr ne ↦ close_one-other p q w ne
  ]

  -- A future that is finished stays as it is.
  close_all-finished :
      (ps : List ℕ) (q : ℕ) (w : World (Option T))
      → is_finished w q ≡ true
      → (close_all ps w).futs q ≡ w.futs q
  unfolding close_all is_finished
  close_all-finished [] q w d = refl
  close_all-finished (p ∷ ps) q w d =
      let same = close_one-finished p q w d in
      close_all-finished ps q (close_one p w) (ap (λ x. is_done x.state) same ∙ d) ∙ same

  -- The future `q` has `Closed` for its exception.
  abbrev IsClosed : World (Option T) → ℕ → Type 0
  IsClosed w q = (s : List (Callback × ℕ)) × (state w q ≡ finished_by (raises channel_closed) s)

  close_all-closes :
      (ps : List ℕ) (q : ℕ) (w : World (Option T)) (cbs : List Callback)
      → Among q ps
      → (w.futs q).kind ≡ plain_future
      → state w q ≡ pending cbs
      → IsClosed (close_all ps w) q
  unfolding close_all
  close_all-closes [] q w cbs a k s = absurd a
  close_all-closes (p ∷ ps) q w cbs a k s = elim (Bool-cases (p == q)) [
    | inl e ↦
        let same : p ≡ q = (==_iff p q).0 e in
        let first : state (close_one p w) q
            ≡ finished_by (raises channel_closed) (handles_from w.next_handle cbs) =
          rw same (ap (λ v. state v q) (close_one-pending q w cbs k s) ∙ ground arith) in
        (
          handles_from w.next_handle cbs,
          ap (λ x. x.state)
                (close_all-finished ps q (close_one p w) (
                  is_finished_by _ q (raises channel_closed) (handles_from w.next_handle cbs)
                    first))
              ∙ first,
        )
    | inr ne ↦
        let same = close_one-other p q w ne in
        close_all-closes ps q (close_one p w) cbs (Among-rest p q ps ne a)
          (ap (λ x. x.kind) same ∙ k) (ap (λ x. x.state) same ∙ s)
  ]

  close_all-append :
      (ps qs : List ℕ) (w : World (Option T))
      → close_all (ps ++ qs) w ≡ close_all qs (close_all ps w)
  unfolding close_all
  close_all-append [] qs w = refl
  close_all-append (p ∷ ps) qs w = close_all-append ps qs (close_one p w)

  close_closes :
      (c : Chan T) (p : ℕ) (cbs : List Callback)
      → Among p (promises_of c.queue.write_waiters ++ c.queue.read_waiters)
      → (c.world.futs p).kind ≡ plain_future
      → state c.world p ≡ pending cbs
      → IsClosed (close c).world p
  unfolding close
  close_closes c p cbs a k s =
      subst (λ w. IsClosed w p)
        (close_all-append (promises_of c.queue.write_waiters) c.queue.read_waiters c.world)
        (close_all-closes (promises_of c.queue.write_waiters ++ c.queue.read_waiters) p c.world cbs
          a k s)

  await_resume-closed :
      (p : ℕ) (w : World (Option T)) → IsClosed w p → (await_resume p w).1 ≡ raised channel_closed
  unfolding await_resume
  await_resume-closed p w (s, e) = ground (arith, result-finished_by w p (raises channel_closed) s)

  -- `close` finishes every promise that is pending in one of the lines, of putters and of getters,
  -- with `Closed`, so that the `await` of that `put` or `get` raises it.
  pub close_wakes :
      (c : Chan T) (p : ℕ) (cbs : List Callback)
      → Among p (promises_of c.queue.write_waiters ++ c.queue.read_waiters)
      → (c.world.futs p).kind ≡ plain_future
      → state c.world p ≡ pending cbs
      → ((get_resume p send (close c)).1 ≡ raised channel_closed)
        × ((put_resume p send (close c)).1 ≡ raised channel_closed)
  unfolding close get_resume put_resume await_promise
  close_wakes c p cbs a k s =
      let ends = await_resume-closed p (close c).world (close_closes c p cbs a k s) in
      (ends, ground (arith, ends))

  -- On a closed channel `put_no_wait` raises `Closed` and changes nothing, and `get_no_wait` raises
  -- `Closed` when the container is empty. While it is not empty, and no putter waits, the elements
  -- that were there are returned in their order.
  pub closed_drains :
      (c : Chan T) (e : T)
      → c.queue.closed ≡ true
      → c.queue.read_waiters ≡ []
      → c.queue.write_waiters ≡ []
      → (put_no_wait e c ≡ (c, raised channel_closed))
        × (c.queue.container ≡ [] → get_no_wait c ≡ (c, raised channel_closed))
        × ((x : T) (rest : List T)
            → c.queue.container ≡ x ∷ rest
            → get_no_wait c ≡ (record c { queue = record (c.queue) { container = rest } }, ok x))
  unfolding put_no_wait get_no_wait get_from get_taken
  closed_drains c e d r u = (ground arith, (λ h. ground arith), (λ x rest h. ground arith))

  -- A putter whose promise was finished from elsewhere, as `close` does, stays in the line until
  -- its task has run. If it is first there, `get_no_wait` on the full container takes it off and
  -- raises `FutureFinishedError`, though the container holds an element to return.
  pub get_finished_putter :
      (c : Chan T) (e x : T) (rest : List T) (p m : ℕ) (ws : List (T × ℕ))
      → c.queue.container ≡ e ∷ rest
      → c.queue.read_waiters ≡ []
      → c.queue.write_waiters ≡ (x, p) ∷ ws
      → c.queue.max_capacity ≡ some m
      → length (e ∷ rest) ≡ m
      → is_finished c.world p ≡ true
      → get_no_wait c ≡ (
        record c { queue = record (c.queue) { write_waiters = ws } },
        raised future_finished_error,
      )
  unfolding get_no_wait get_from get_taken get_refilled promise_set_result
  get_finished_putter c e x rest p m ws h r u k l d =
      ground (arith, finished_once c.world p (returns none) d)
