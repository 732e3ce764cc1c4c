-- ===== src/Future/Callbacks.antt =====
-- The sets and dicts of callbacks of aio/future/pure.py, and the handles that
-- `Future._schedule_callbacks` makes.
use aio.Prelude.{
  none, ℕ, ◌+◌, ◌≤◌, ◌<◌, ◌≡◌, refl, true, false, some, List, [], ◌∷◌, ◌++◌, arith, length, ==_iff,
  Bool-cases, inl, inr, if◌then◌else◌, ap, ◌∙◌,
}
use aio.World.{
  Callback, step_of, closure, same_callback, with_future, Handle, World, call_soon, has_callback,
  add_to, remove_from, handle_of, pop_from,
}
use aio.Future.{call_all, handles_from}

pub same_callback-eq : (x y : Callback) → same_callback x y ≡ true → x ≡ y
same_callback-eq (step_of t) (step_of u) h = ap step_of ((==_iff t u).0 h)
same_callback-eq (closure n) (closure m) h = ap closure ((==_iff n m).0 h)
same_callback-eq (step_of t) (closure n) h = cc
same_callback-eq (closure n) (step_of t) h = cc

pub same_callback_refl : (x : Callback) → same_callback x x ≡ true
same_callback_refl (step_of t) = ground arith
same_callback_refl (closure n) = ground arith

pub has_callback-append :
    (cb x : Callback) (cbs : List Callback)
    → has_callback cb (cbs ++ x ∷ []) ≡ (if same_callback x cb then true else has_callback cb cbs)
unfolding has_callback
has_callback-append cb x [] = refl
has_callback-append cb x (y ∷ cbs) = ground (arith, has_callback-append cb x cbs)

-- Adding makes a member, and changes no other membership.
pub has_callback-add_to :
    (cb x : Callback) (cbs : List Callback)
    → has_callback cb (add_to x cbs) ≡ (if same_callback x cb then true else has_callback cb cbs)
unfolding add_to
has_callback-add_to cb x cbs = elim (Bool-cases (has_callback x cbs)) [
  | inl old ↦ elim (Bool-cases (same_callback x cb)) [
    | inl e ↦ rw (old, e) (ap (λ c. has_callback c cbs) (cb_eq e) ∙ old)
    | inr e ↦ rw (old, e)
  ]
  | inr new ↦ rw new (has_callback-append cb x cbs)
]
  where
    cb_eq : same_callback x cb ≡ true → cb ≡ x
    cb_eq e = cc (same_callback-eq x cb e)

pub has_callback-remove_from :
    (cb x : Callback) (cbs : List Callback)
    → same_callback x cb ≡ false
    → has_callback cb (remove_from x cbs) ≡ has_callback cb cbs
unfolding has_callback remove_from
has_callback-remove_from cb x [] h = refl
has_callback-remove_from cb x (y ∷ cbs) h =
    ground (arith, has_callback-remove_from cb x cbs, same_callback-eq y x, same_callback-eq y cb)

pub handle_of-pop_from :
    (cb x : Callback) (s : List (Callback × ℕ))
    → same_callback x cb ≡ false
    → handle_of cb (pop_from x s) ≡ handle_of cb s
unfolding handle_of pop_from
handle_of-pop_from cb x [] h = refl
handle_of-pop_from cb x ((y, n) ∷ s) h =
    ground (arith, handle_of-pop_from cb x s, same_callback-eq y x, same_callback-eq y cb)

-- A fresh handle that calls `cb` with the future `f`.
abbrev pub fresh_call : ℕ → Callback → ℕ → Handle
fresh_call l cb f = record {
  when = none;
  loop = l;
  callback = cb;
  args = with_future f;
  executed = false;
  is_cancelled = false;
}

module _ {V : Type 0} where
  pub next_handle-call_all :
      (w : World V) (l f : ℕ) (cbs : List Callback)
      → (call_all w l f cbs).next_handle ≡ w.next_handle + length cbs
  unfolding call_all
  next_handle-call_all w l f [] = omega arith
  next_handle-call_all w l f (cb ∷ cbs) =
      omega (arith, next_handle-call_all (call_soon w l cb (with_future f)) l f cbs)

  pub futs-call_all :
      (w : World V) (l f : ℕ) (cbs : List Callback) → (call_all w l f cbs).futs ≡ w.futs
  unfolding call_all
  futs-call_all w l f [] = refl
  futs-call_all w l f (cb ∷ cbs) = futs-call_all (call_soon w l cb (with_future f)) l f cbs

  pub next_fut-call_all :
      (w : World V) (l f : ℕ) (cbs : List Callback) → (call_all w l f cbs).next_fut ≡ w.next_fut
  unfolding call_all
  next_fut-call_all w l f [] = refl
  next_fut-call_all w l f (cb ∷ cbs) = next_fut-call_all (call_soon w l cb (with_future f)) l f cbs

  -- The handles that were there stay as they are.
  pub handles-call_all :
      (w : World V) (l f h : ℕ) (cbs : List Callback)
      → h < w.next_handle
      → (call_all w l f cbs).handles h ≡ w.handles h
  unfolding call_all
  handles-call_all w l f h [] lt = refl
  handles-call_all w l f h (cb ∷ cbs) lt =
      ground (arith, handles-call_all (call_soon w l cb (with_future f)) l f h cbs)

  -- The calls made for a set of callbacks: a callback of the set has a handle of its own, which is
  -- new, and will call it with the future.
  pub handle_of-handles_from :
      (w : World V) (l f : ℕ) (cb : Callback) (cbs : List Callback)
      → has_callback cb cbs ≡ true
      → (h : ℕ) × (handle_of cb (handles_from w.next_handle cbs) ≡ some h)
        × (w.next_handle ≤ h)
        × (h < w.next_handle + length cbs)
        × ((call_all w l f cbs).handles h ≡ fresh_call l cb f)
  unfolding call_all handles_from has_callback handle_of
  handle_of-handles_from w l f cb [] m = cc
  handle_of-handles_from w l f cb (x ∷ cbs) m = elim (Bool-cases (same_callback x cb)) [
    | inl e ↦ (
      w.next_handle,
      rw e refl,
      omega arith,
      omega arith,
      handles-call_all next l f w.next_handle cbs (omega arith)
          ∙ ground (arith, same_callback-eq x cb),
    )
    | inr e ↦
        let (h, found, low, high, made) = handle_of-handles_from next l f cb cbs (ground arith) in
        (h, rw e found, omega arith, omega arith, made)
  ]
    where
      next : World V
      next = call_soon w l x (with_future f)
