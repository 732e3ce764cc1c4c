-- ===== src/Channel/Refine/Puts.antt =====
-- aio/channel.py: the methods that put in, as steps of the abstract queue.
use mathlib.Core.List.{append_assoc}
use aio.Prelude.{
  ℕ, ◌≡◌, refl, ap, sym, ◌∙◌, Option, none, some, List, [], ◌∷◌, ◌++◌, arith, inl, inr, ◌⊎◌, ◌==◌,
  Bool-cases,
}
use aio.Exceptions.{Exc, Result, ok, raised, channel_overflowed}
use aio.World.{World}
use aio.Future.{create_promise, result, promise_set_result}
use aio.Future.Settle.{set_result_read}
use aio.Task.{Resume}
use aio.Promises.{Started}
use aio.Channel.{Queue, Chan, remove_writer, put_to, put_no_wait}
use aio.Channel.Async.{put_after, put_bounded, wait_with, put_start, put_resume}
use aio.Channel.Errors.{put_no_wait-overflowed}
use aio.Channel.Invariant.{Inv}
use aio.Channel.Fifo.{put_no_wait-contents, elements, contents, put_start-contents}
use aio.Channel.Spec.{pushed, popped, withdrawn}
use aio.Channel.Refine.{if_ok, if_started, given, handed, element_of, Implements, nothing}

module _ {T : Type 0} where
  put_raised-contents :
      (e : T) (c : Chan T) {x : Exc}
      → (put_no_wait e c).1 ≡ raised x
      → contents c.queue ≡ contents (put_no_wait e c).0.queue
  unfolding put_no_wait
  put_raised-contents e c r = ground arith

  put_handed :
      (e : T) (c : Chan T) (p : ℕ) (ps : List ℕ)
      → Inv c.queue
      → c.queue.read_waiters ≡ p ∷ ps
      → (put_no_wait e c).1 ≡ ok tt
      → (contents c.queue ≡ []) × (contents (put_no_wait e c).0.queue ≡ [])
  unfolding put_no_wait put_to
  put_handed e c p ps i h r = ground (arith, i.bounded, i.readers, i.writers)

  put_settles :
      (e : T) (c : Chan T) (p : ℕ) (ps : List ℕ)
      → c.queue.read_waiters ≡ p ∷ ps
      → (put_no_wait e c).1 ≡ ok tt
      → let (w, r) = promise_set_result p (some e) c.world in
        ((put_no_wait e c).0.world ≡ w) × (r ≡ ok tt)
  unfolding put_no_wait put_to
  put_settles e c p ps h r = ground (arith, h, r)

  -- A getter that waits is given the element.
  put_given :
      (e : T) (c : Chan T) (p : ℕ) (ps : List ℕ)
      → c.queue.read_waiters ≡ p ∷ ps
      → (put_no_wait e c).1 ≡ ok tt
      → given (result p (put_no_wait e c).0.world).1 ≡ e ∷ []
  unfolding promise_set_result
  put_given e c p ps h r =
      let (same, fine) = put_settles e c p ps h r in
      ap (λ w. given (result p w).1) same ∙ ap given (set_result_read c.world p (some e) fine)

  handed_none : (ps : List ℕ) (w : World (Option T)) → handed {T = T} ps w [] ≡ []
  handed_none [] w = refl
  handed_none (p ∷ ps) w = refl

  unfoldable pub Putting : List ℕ → World (Option T) → List T → Queue T → Queue T → Type 0
  Putting ps w es q q' = Implements es (handed ps w es) [] q q'

  Putting-nothing :
      (ps : List ℕ) (w : World (Option T)) (q q' : Queue T)
      → contents q ≡ contents q'
      → Putting ps w [] q q'
  unfolding Putting
  Putting-nothing ps w q q' h = rw (handed_none ps w) (nothing h)

  Putting-added :
      (e : T) (w : World (Option T)) (q q' : Queue T)
      → contents q' ≡ contents q ++ e ∷ []
      → Putting [] w (e ∷ []) q q'
  unfolding Putting
  Putting-added e w q q' h = record {
    labels = pushed e ∷ [];
    follows = sym h;
    ins_eq = refl;
    outs_eq = refl;
    gone_eq = refl;
  }

  Putting-handed :
      (e : T) (p : ℕ) (ps : List ℕ) (w : World (Option T)) (q q' : Queue T)
      → given (result p w).1 ≡ e ∷ []
      → (contents q ≡ []) × (contents q' ≡ [])
      → Putting (p ∷ ps) w (e ∷ []) q q'
  unfolding Putting
  Putting-handed e p ps w q q' g (h, h') = record {
    labels = pushed e ∷ popped e ∷ [];
    follows = ([], ap (λ xs. xs ++ e ∷ []) h, sym h');
    ins_eq = refl;
    outs_eq = sym g;
    gone_eq = refl;
  }

  pub put_now-Implements :
      (e : T) (c : Chan T)
      → Inv c.queue
      → let (c', r) = put_no_wait e c in
        Putting c.queue.read_waiters c'.world (if_ok r e) c.queue c'.queue
  put_now-Implements e c i = go c.queue.read_waiters refl (put_no_wait e c).1 refl
    where
      go :
          (ps : List ℕ)
          → c.queue.read_waiters ≡ ps
          → (r : Result (Unit {0})) → (put_no_wait e c).1 ≡ r
          → Putting ps (put_no_wait e c).0.world (if_ok r e) c.queue (put_no_wait e c).0.queue
      go ps u (raised x) h = Putting-nothing ps _ _ _ (put_raised-contents e c h)
      go [] u (ok v) h = Putting-added e _ _ _ (put_no_wait-contents e c i u h)
      go (p ∷ ps) u (ok v) h =
          Putting-handed e p ps _ _ _ (put_given e c p ps u h) (put_handed e c p ps i u h)

  wait_with_raised :
      (m : World (Option T) × Result ℕ) (q : ℕ → Queue T) (c : Chan T) {x : Exc}
      → let r : Chan T × Result (Started (Unit {0})) = wait_with m q c in
        r.1 ≡ raised x → contents c.queue ≡ contents r.0.queue
  unfolding wait_with
  wait_with_raised (w, ok p) q c h = cc
  wait_with_raised (w, raised x) q c h = refl

  put_bounded_raised :
      (l : ℕ) (e : T) (c : Chan T) (capacity : Option ℕ) {x : Exc}
      → (put_bounded capacity e l c).1 ≡ raised x
      → contents c.queue ≡ contents (put_bounded capacity e l c).0.queue
  unfolding put_bounded
  put_bounded_raised l e c none h = refl
  put_bounded_raised l e c (some m) h = wait_with_raised (create_promise l c.world) _ c h

  put_start_raised-contents :
      (l : ℕ) (e : T) (c : Chan T) {x : Exc}
      → (put_start l e c).1 ≡ raised x
      → contents c.queue ≡ contents (put_start l e c).0.queue
  unfolding put_start put_after
  put_start_raised-contents l e c {x} r = go (put_no_wait e c) refl r
    where
      go :
          (m : Chan T × Result (Unit {0}))
          → put_no_wait e c ≡ m
          → (put_after m e l).1 ≡ raised x
          → contents c.queue ≡ contents (put_after m e l).0.queue
      go (d, ok u) q h = cc
      go (d, raised channel_overflowed) q h =
          let same : d ≡ c =
            ap (λ m. m.0) (sym q) ∙ (put_no_wait-overflowed e c (ap (λ m. m.1) q)).2 in
          rw same (put_bounded_raised l e c c.queue.max_capacity (rw same at h))
      go (d, raised y) q h =
          put_raised-contents e c (ap (λ m. m.1) q) ∙ ap (λ m. contents m.0.queue) q

  put_start_handed :
      (l : ℕ) (e : T) (c : Chan T) (p : ℕ) (ps : List ℕ) {s : Started (Unit {0})}
      → Inv c.queue
      → c.queue.read_waiters ≡ p ∷ ps
      → (put_start l e c).1 ≡ ok s
      → (contents c.queue ≡ []) × (contents (put_start l e c).0.queue ≡ [])
  unfolding put_start put_after
  put_start_handed l e c p ps {s} i u h = go (put_no_wait e c) refl h
    where
      go :
          (m : Chan T × Result (Unit {0}))
          → put_no_wait e c ≡ m
          → (put_after m e l).1 ≡ ok s
          → (contents c.queue ≡ []) × (contents (put_after m e l).0.queue ≡ [])
      go (d, ok v) q h = rw⁻¹ (ap (λ m. m.0) q) (put_handed e c p ps i u (ap (λ m. m.1) q))
      go (d, raised channel_overflowed) q h =
          let full : _ = put_no_wait-overflowed e c (ap (λ m. m.1) q) in
          absurd (ground (arith, full))
      go (d, raised y) q h = cc

  given-put_start :
      (l : ℕ) (e : T) (c : Chan T) (p : ℕ) (ps : List ℕ) {s : Started (Unit {0})}
      → Inv c.queue
      → c.queue.read_waiters ≡ p ∷ ps
      → (put_start l e c).1 ≡ ok s
      → given (result p (put_start l e c).0.world).1 ≡ e ∷ []
  unfolding put_start put_after
  given-put_start l e c p ps {s} i u h = go (put_no_wait e c) refl h
    where
      go :
          (m : Chan T × Result (Unit {0}))
          → put_no_wait e c ≡ m
          → (put_after m e l).1 ≡ ok s
          → given (result p (put_after m e l).0.world).1 ≡ e ∷ []
      go (d, ok v) q h =
          ap (λ m. given (result p m.0.world).1) (sym q) ∙ put_given e c p ps u (ap (λ m. m.1) q)
      go (d, raised channel_overflowed) q h =
          let full : _ = put_no_wait-overflowed e c (ap (λ m. m.1) q) in
          absurd (ground (arith, full))
      go (d, raised y) q h = cc

  pub put-Implements :
      (l : ℕ) (e : T) (c : Chan T)
      → Inv c.queue
      → let (c', r) = put_start l e c in
        Putting c.queue.read_waiters c'.world (if_started r e) c.queue c'.queue
  put-Implements l e c i = go c.queue.read_waiters refl (put_start l e c).1 refl
    where
      go :
          (ps : List ℕ)
          → c.queue.read_waiters ≡ ps
          → (r : Result (Started (Unit {0}))) → (put_start l e c).1 ≡ r
          → Putting ps (put_start l e c).0.world (if_started r e) c.queue (put_start l e c).0.queue
      go ps u (raised x) h = Putting-nothing ps _ _ _ (put_start_raised-contents l e c h)
      go [] u (ok v) h = Putting-added e _ _ _ (put_start-contents l e c i u h)
      go (p ∷ ps) u (ok v) h =
          Putting-handed e p ps _ _ _ (given-put_start l e c p ps i u h)
            (put_start_handed l e c p ps i u h)

  Withdraws : ℕ → List (T × ℕ) → Type 0
  Withdraws p ws =
      ((element_of p ws ≡ []) × (elements (remove_writer p ws) ≡ elements ws))
      ⊎ ((e : T) × (a : List T) × (b : List T) × (element_of p ws ≡ e ∷ [])
          × (elements ws ≡ a ++ e ∷ b)
          × (elements (remove_writer p ws) ≡ a ++ b))

  remove_writer-elements : (p : ℕ) (ws : List (T × ℕ)) → Withdraws p ws
  unfolding Withdraws remove_writer
  remove_writer-elements p [] = inl (refl, refl)
  remove_writer-elements p ((e, q) ∷ ws) = elim (Bool-cases (q == p)) [
    | inl t ↦ rw t (inr (e, [], elements ws, refl, refl, refl))
    | inr f ↦ rw f (elim (remove_writer-elements p ws) [
      | inl (h, k) ↦ inl (h, ap (λ r. e ∷ r) k)
      | inr (x, a, b, h, k, l) ↦ inr (x, e ∷ a, b, h, ap (λ r. e ∷ r) k, ap (λ r. e ∷ r) l)
    ])
  ]

  pub put_resume-Implements :
      (p : ℕ) (how : Resume) (c : Chan T)
      → Implements [] [] (element_of p c.queue.write_waiters) c.queue (put_resume p how c).0.queue
  unfolding put_resume Withdraws
  put_resume-Implements p how c = elim (remove_writer-elements p c.queue.write_waiters) [
    | inl (h, k) ↦ rw h (nothing (ap (λ r. c.queue.container ++ r) (sym k)))
    | inr (e, a, b, h, k, l) ↦ rw h (record {
      labels = withdrawn e ∷ [];
      follows = (
        c.queue.container ++ a,
        b,
        ap (λ r. c.queue.container ++ r) k ∙ sym (append_assoc c.queue.container a (e ∷ b)),
        append_assoc c.queue.container a b ∙ ap (λ r. c.queue.container ++ r) (sym l),
      );
      ins_eq = refl;
      outs_eq = refl;
      gone_eq = refl;
    })
  ]
