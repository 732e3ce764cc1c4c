-- ===== src/Task/Wake/Handles.antt =====
-- aio/future/pure.py: what the changes of handles leave to the tasks that they do not step.
use aio.Prelude.{
  ℕ, suc, ◌<◌, ◌≡◌, refl, ◌∙◌, inl, inr, false, some, List, [], ◌∷◌, arith, ◌==◌, ==_iff,
  Bool-cases, update,
}
use aio.World.{
  Callback, step_of, same_callback, Args, FutState, World, handle_of, pop_from, call_soon, Handle,
}
use aio.Future.{state}
use aio.Future.Callbacks.{same_callback-eq, same_callback_refl}
use aio.Task.Handles.{Keeps, IsFresh, HandlesKept, HandlesKept-new, HandlesKept-changed}
use aio.Task.Wake.{settled_of, Live, Wakes, Tracked, Tracks, Moves, Frame}

Tracks-handles :
    (n n' : ℕ) (hs hs' : ℕ → Handle) (s : List (Callback × ℕ))
    → ((h : ℕ) → h < n → (h < n') × ((hs' h).callback ≡ (hs h).callback))
    → Tracks n hs s
    → Tracks n' hs' s
Tracks-handles n n' hs hs' [] c k = tt
Tracks-handles n n' hs hs' ((cb, h) ∷ s) c (x, y, k) =
    ((c h x).0, (c h x).1 ∙ y, Tracks-handles n n' hs hs' s c k)

pub handle_of-Tracks :
    (n : ℕ) (hs : ℕ → Handle) (cb : Callback) (s : List (Callback × ℕ)) {h : ℕ}
    → Tracks n hs s
    → handle_of cb s ≡ some h
    → (h < n) × ((hs h).callback ≡ cb)
unfolding handle_of
handle_of-Tracks n hs cb [] k e = cc
handle_of-Tracks n hs cb ((c, j) ∷ s) {h} (x, y, k) e =
    ground (arith, same_callback-eq c cb, handle_of-Tracks n hs cb s {h = h} k)

pub pop_from-Tracks :
    (n : ℕ) (hs : ℕ → Handle) (cb : Callback) (s : List (Callback × ℕ))
    → Tracks n hs s
    → Tracks n hs (pop_from cb s)
unfolding pop_from
pop_from-Tracks n hs cb [] k = tt
pop_from-Tracks n hs cb ((c, j) ∷ s) (x, y, k) = elim (Bool-cases (same_callback c cb)) [
  | inl e ↦ rw e k
  | inr e ↦ rw e (x, y, pop_from-Tracks n hs cb s k)
]

module _ {V : Type 0} where
  pub Wakes-Live :
      {w w' : World V} (u : ℕ) (s : FutState V)
      → ((h : ℕ) → Live w u h → Live w' u h)
      → Wakes w u s
      → Wakes w' u s
  Wakes-Live u s l (inl x) = inl x
  Wakes-Live u s l (inr (h, e, x)) = inr (h, e, l h x)

  -- A change of handles only.
  abbrev pub with_handles : World V → (ℕ → Handle) → ℕ → World V
  with_handles w hs n = record w { handles = hs; next_handle = n }

  handles-Frame :
      (w : World V) (hs : ℕ → Handle) (n u : ℕ)
      → ((h : ℕ) → Live w u h → Live (with_handles w hs n) u h)
      → Frame w (with_handles w hs n) u
  handles-Frame w hs n u l = record {
    kind_eq = refl;
    coro_eq = refl;
    core_eq = refl;
    live = l;
    wakes = λ f y x. Wakes-Live u (state w f) l x;
    grows = omega arith;
  }

  handles-Tracked :
      (w : World V) (hs : ℕ → Handle) (n : ℕ)
      → ((h : ℕ) → h < w.next_handle → (h < n) × ((hs h).callback ≡ (w.handles h).callback))
      → Tracked w
      → Tracked (with_handles w hs n)
  handles-Tracked w hs n c k = record {
    tracked =
        λ f. Tracks-handles w.next_handle n w.handles hs (settled_of (state w f)) c (k.tracked f);
  }

  handles-Moves :
      (t : ℕ) (w : World V) (hs : ℕ → Handle) (n : ℕ)
      → ((u h : ℕ) → (u == t) ≡ false → Live w u h → Live (with_handles w hs n) u h)
      → HandlesKept w.next_handle w.handles n hs
      → Tracked w
      → Moves t w (with_handles w hs n)
  handles-Moves t w hs n l c k = record {
    frame = λ u ne. handles-Frame w hs n u (λ h x. l u h ne x);
    still = handles-Tracked w hs n (λ h y. (omega (arith, c.more), (c.old h y).callback_eq)) k;
    calls = c;
  }

  -- A new handle.
  pub new_handle-Moves :
      (t : ℕ) (w : World V) (x : Handle)
      → IsFresh x
      → Tracked w
      → Moves t w (with_handles w (update w.handles w.next_handle x) (suc w.next_handle))
  new_handle-Moves t w x f k =
      handles-Moves t w _ _
        (λ u h ne y. ground (arith, ==_iff w.next_handle h, ==_iff h w.next_handle, y.known))
        (HandlesKept-new w.next_handle w.handles x f) k

  pub call_soon-Moves :
      (t : ℕ) (w : World V) (l : ℕ) (cb : Callback) (a : Args)
      → Tracked w
      → Moves t w (call_soon w l cb a)
  call_soon-Moves t w l cb a k =
      new_handle-Moves t w _ (record { unused = refl; step_soon = λ u e. refl }) k

  abbrev with_handle : World V → ℕ → Handle → World V
  with_handle w j x = record w { handles = update w.handles j x }

  other_handle-Live :
      (w : World V) (j : ℕ) (x : Handle) (u h : ℕ)
      → same_callback (w.handles j).callback (step_of u) ≡ false
      → Live w u h
      → Live (with_handle w j x) u h
  other_handle-Live w j x u h o y =
      ground (arith, ==_iff j h, ==_iff h j, same_callback_refl (step_of u))

  -- A handle that does not step `u` is changed.
  pub handle_changed-Frame :
      (w : World V) (j : ℕ) (x : Handle) (u : ℕ)
      → same_callback (w.handles j).callback (step_of u) ≡ false
      → Frame w (with_handle w j x) u
  handle_changed-Frame w j x u o = handles-Frame w _ _ u (λ h y. other_handle-Live w j x u h o y)

  pub handle_changed-Tracked :
      (w : World V) (j : ℕ) (x : Handle)
      → x.callback ≡ (w.handles j).callback
      → Tracked w
      → Tracked (with_handle w j x)
  handle_changed-Tracked w j x e k =
      handles-Tracked w _ _ (λ h y. ground (arith, ==_iff j h, ==_iff h j)) k

  -- The handle `j` steps `t`, or no task.
  pub handle_changed-Moves :
      (t : ℕ) (w : World V) (j : ℕ) (x : Handle)
      → Keeps (w.handles j) x
      → ((u : ℕ) → (u == t) ≡ false → same_callback (w.handles j).callback (step_of u) ≡ false)
      → Tracked w
      → Moves t w (with_handle w j x)
  handle_changed-Moves t w j x e o k =
      handles-Moves t w _ _ (λ u h ne y. other_handle-Live w j x u h (o u ne) y)
        (HandlesKept-changed w.next_handle w.handles j x e) k
