-- ===== src/Channel/Refine/Gets.antt =====
-- aio/channel.py: the methods that take out, as steps of the abstract queue.
use aio.Prelude.{
  subst, ℕ, ◌≡◌, refl, ap, sym, ◌∙◌, false, Option, none, some, List, [], ◌∷◌, ◌++◌, arith, inl,
  inr, Bool-cases,
}
use aio.Exceptions.{Exc, Result, ok, raised, channel_empty}
use aio.World.{World}
use aio.Future.{create_promise}
use aio.Promises.{Started}
use aio.Channel.{Queue, Chan, get_refilled, get_taken, get_from, get_no_wait}
use aio.Channel.Async.{get_after, wait_with}
use aio.Channel.Errors.{settle_error, promise_set_result-raised}
use aio.Channel.Fifo.{elements, contents, get_no_wait-contents}
use aio.Channel.Spec.{popped, withdrawn}
use aio.Channel.Refine.{returned, returned_at_once, dropped, Implements, nothing}

module _ {T : Type 0} where
  get_taken_lost :
      (e : T) (rest : List T) (ws : List (T × ℕ)) (capacity : Option ℕ) (c : Chan T) {y : Exc}
      → c.queue.container ≡ e ∷ rest
      → c.queue.write_waiters ≡ ws
      → (get_taken e rest ws capacity c).1 ≡ raised y
      → Implements [] [] (dropped (raised y) ws) c.queue (get_taken e rest ws capacity c).0.queue
  unfolding get_taken get_refilled
  get_taken_lost e rest ((x, p) ∷ ws) (some m) c {y} h u r = elim (Bool-cases (settle_error y)) [
    | inl t ↦ rw t (record {
      labels = withdrawn x ∷ [];
      follows = (e ∷ rest, elements ws, ground arith, ground arith);
      ins_eq = refl;
      outs_eq = refl;
      gone_eq = refl;
    })
    | inr f ↦ rw f (nothing (ground (arith, promise_set_result-raised p none c.world y)))
  ]
  get_taken_lost e rest ((x, p) ∷ ws) none c h u r = cc
  get_taken_lost e rest [] capacity c h u r = cc

  unfoldable pub Getting : Chan T → Result T → Queue T → Type 0
  Getting c r q' = Implements [] (returned r) (dropped r c.queue.write_waiters) c.queue q'

  unsettled : (x : Exc) (ws : List (T × ℕ)) → settle_error x ≡ false → dropped (raised x) ws ≡ []
  unsettled x [] h = refl
  unsettled x ((e, p) ∷ ws) h = ground arith

  Getting-nothing :
      (c : Chan T) (x : Exc) (q' : Queue T)
      → settle_error x ≡ false
      → contents c.queue ≡ contents q'
      → Getting c (raised x) q'
  unfolding Getting
  Getting-nothing c x q' h e = rw (unsettled x c.queue.write_waiters h) (nothing e)

  get_from_taken :
      (e : T) (rest : List T) (c : Chan T)
      → c.queue.read_waiters ≡ []
      → get_from (e ∷ rest) c ≡ get_taken e rest c.queue.write_waiters c.queue.max_capacity c
  unfolding get_from
  get_from_taken e rest c u = ground arith

  get_from_raised :
      (xs : List T) (c : Chan T) {x : Exc}
      → c.queue.container ≡ xs
      → (get_from xs c).1 ≡ raised x
      → Getting c (raised x) (get_from xs c).0.queue
  unfolding Getting get_from
  get_from_raised [] c {x} h r = Getting-nothing c x _ (ground arith) (ground arith)
  get_from_raised (e ∷ rest) c {x} h r = go c.queue.read_waiters refl
    where
      go :
          (ps : List ℕ)
          → c.queue.read_waiters ≡ ps
          → Getting c (raised x) (get_from (e ∷ rest) c).0.queue
      go [] u =
          let same : _ = get_from_taken e rest c u in
          subst (λ m. Getting c (raised x) m.0.queue) (sym same)
            (get_taken_lost e rest c.queue.write_waiters c.queue.max_capacity c h refl
              (ap (λ m. m.1) (sym same) ∙ r))
      go (p ∷ ps) u = Getting-nothing c x _ (ground arith) (ground arith)

  pub get-Implements : (c : Chan T) → Getting c (get_no_wait c).1 (get_no_wait c).0.queue
  unfolding get_no_wait Getting
  get-Implements c = go (get_no_wait c).1 refl
    where
      go : (r : Result T) → (get_no_wait c).1 ≡ r → Getting c r (get_no_wait c).0.queue
      go (ok a) h = record {
        labels = popped a ∷ [];
        follows = (contents (get_no_wait c).0.queue, get_no_wait-contents c h, refl);
        ins_eq = refl;
        outs_eq = refl;
        gone_eq = refl;
      }
      go (raised x) h = get_from_raised c.queue.container c refl h

  get_waiting-Implements :
      (m : World (Option T) × Result ℕ) (gone : List T) (q : Queue T) (d : Chan T)
      → Implements [] [] gone q d.queue
      → let r : Chan T × Result (Started T) =
          wait_with m (λ p. record (d.queue) { read_waiters = d.queue.read_waiters ++ p ∷ [] }) d in
        Implements [] (returned_at_once r.1) gone q r.0.queue
  unfolding wait_with
  get_waiting-Implements (w, ok p) gone q d g = record {
    labels = g.labels;
    follows = g.follows;
    ins_eq = g.ins_eq;
    outs_eq = g.outs_eq;
    gone_eq = g.gone_eq;
  }
  get_waiting-Implements (w, raised x) gone q d g = g

  pub get_after-Implements :
      (l : ℕ) (c : Chan T) (m : Chan T × Result T)
      → get_no_wait c ≡ m
      → Getting c m.1 m.0.queue
      → Implements []
          (returned_at_once (get_after m l).1)
          (dropped m.1 c.queue.write_waiters)
          c.queue
          (get_after m l).0.queue
  unfolding get_after Getting
  get_after-Implements l c (d, ok e) q g = g
  get_after-Implements l c (d, raised channel_empty) q g =
      get_waiting-Implements (create_promise l d.world) _ c.queue d g
  get_after-Implements l c (d, raised y) q g = g
