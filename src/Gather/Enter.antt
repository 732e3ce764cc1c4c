-- ===== src/Gather/Enter.antt =====
-- aio/gather.py: how `iter_done_futures` is entered.
use aio.Prelude.{ℕ, ◌≡◌, refl, ap, ◌∙◌, true, false, List, [], ◌∷◌, ◌++◌, arith}
use aio.Exceptions.{Exc, ok, raised, future_finished_error}
use aio.World.{Callback, closure, World}
use aio.Future.{is_finished, add_callback}
use aio.Gather.{add_all, iter_enter}

module _ {V : Type 0} where
  abbrev pub AreWaiting : World V → List ℕ → Type 0
  AreWaiting w [] = Unit {0}
  AreWaiting w (f ∷ fs) = (is_finished w f ≡ false) × AreWaiting w fs

  add_callback-finished :
      (w : World V) (g f : ℕ) (cb : Callback)
      → is_finished (add_callback g cb w).0 f ≡ is_finished w f
  unfolding add_callback is_finished
  add_callback-finished w g f cb = ground arith

  add_callback-waiting :
      (w : World V) (f : ℕ) (cb : Callback)
      → is_finished w f ≡ false
      → (add_callback f cb w).1 ≡ ok tt
  unfolding add_callback is_finished
  add_callback-waiting w f cb h = ground arith

  add_callback_refused :
      (w : World V) (f : ℕ) (cb : Callback)
      → is_finished w f ≡ true
      → add_callback f cb w ≡ (w, raised future_finished_error)
  unfolding add_callback is_finished
  add_callback_refused w f cb h = ground arith

  add_callback-AreWaiting :
      (w : World V) (g : ℕ) (cb : Callback) (fs : List ℕ)
      → AreWaiting w fs
      → AreWaiting (add_callback g cb w).0 fs
  add_callback-AreWaiting w g cb [] h = tt
  add_callback-AreWaiting w g cb (f ∷ fs) h =
      (add_callback-finished w g f cb ∙ h.0, add_callback-AreWaiting w g cb fs h.1)

  add_all-waiting :
      (k : ℕ) (fs : List ℕ) (w : World V) → AreWaiting w fs → (add_all k fs w).1 ≡ ok tt
  unfolding add_all
  add_all-waiting k [] w h = refl
  add_all-waiting k (f ∷ fs) w h =
      rw (add_callback-waiting w f (closure k) h.0, add_all)
        (add_all-waiting k fs (add_callback f (closure k) w).0
          (add_callback-AreWaiting w f (closure k) fs h.1))

  add_all_stopped :
      (k f : ℕ) (gs hs : List ℕ) (w : World V)
      → AreWaiting w gs
      → is_finished w f ≡ true
      → add_all k (gs ++ f ∷ hs) w ≡ ((add_all k gs w).0, raised future_finished_error)
  unfolding add_all
  add_all_stopped k f [] hs w h d =
      let e = add_callback_refused w f (closure k) d in
      rw (ap (λ r. r.1) e, add_all) (ap (λ r. (r.0, raised future_finished_error)) e)
  add_all_stopped k f (g ∷ gs) hs w h d =
      rw (add_callback-waiting w g (closure k) h.0, add_all)
        (add_all_stopped k f gs hs (add_callback g (closure k) w).0
          (add_callback-AreWaiting w g (closure k) gs h.1)
          (add_callback-finished w g f (closure k) ∙ d))

  -- `iter_done_futures` is never entered. If no future is finished, the exception of the plain
  -- `with` leaves it. If one is, `FutureFinishedError` leaves it, and the callbacks on the futures
  -- before that one stay where they were added.
  pub iter_enter_cases :
      (no_protocol : Exc) (k f : ℕ) (fs gs hs : List ℕ) (w : World V)
      → (AreWaiting w fs → (iter_enter no_protocol k fs w).1 ≡ raised no_protocol)
        × (AreWaiting w gs
            → is_finished w f ≡ true
            → iter_enter no_protocol k (gs ++ f ∷ hs) w
              ≡ ((add_all k gs w).0, raised future_finished_error))
  unfolding iter_enter
  iter_enter_cases no_protocol k f fs gs hs w = (
    (λ h. ground (arith, add_all-waiting k fs w h)),
    (λ h d. rw (add_all_stopped k f gs hs w h d) refl),
  )
