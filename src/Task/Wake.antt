-- ===== src/Task/Wake.antt =====
-- aio/future/pure.py: what wakes a task that is not finished, and what is left of it by the changes
-- that are made to other objects.
pub mod Handles
pub mod Changes
pub mod Callbacks
pub mod Cancel
pub mod Ops
use aio.Prelude.{
  Bool-cases, ==_iff, inl, inr, ℕ, ◌≤◌, ◌<◌, ◌≡◌, refl, subst, sym, ap, ◌∙◌, ◌⊎◌, true, false, some,
  List, [], ◌∷◌, arith, ◌==◌,
}
use aio.World.{
  Handle, Callback, step_of, FutState, pending, created, scheduled, cancelling, running, success,
  failed, World, waiting_callbacks, is_task_state, has_callback, handle_of,
}
use aio.Future.{state}
use aio.Task.Handles.{HandlesKept, HandlesKept-refl, HandlesKept-trans}
use aio.Task.Step.Run.{IsReady, ready_state}

-- The handles of these callbacks are theirs.
abbrev pub Tracks : ℕ → (ℕ → Handle) → List (Callback × ℕ) → Type 0
Tracks n hs [] = Unit {0}
Tracks n hs ((cb, h) ∷ s) = (h < n) × ((hs h).callback ≡ cb) × Tracks n hs s

module _ {V : Type 0} where
  abbrev pub settled_of : FutState V → List (Callback × ℕ)
  settled_of (success v s) = s
  settled_of (failed e r s) = s
  settled_of _ = []

  -- A task's state without its set of callbacks; what is no task's state is the same for all.
  abbrev pub core : FutState V → FutState V
  core (created cbs) = created []
  core (scheduled cbs h) = scheduled [] h
  core (cancelling cbs h e) = cancelling [] h e
  core (running cbs f) = running [] f
  core _ = pending []

  -- The loop will call the handle `h`, which steps the task `u`.
  pub record Live (w : World V) (u h : ℕ) : Type 0 where
    pub known : h < w.next_handle
    pub steps : (w.handles h).callback ≡ step_of u
    pub unused : (w.handles h).executed ≡ false
    pub kept : (w.handles h).is_cancelled ≡ false

  -- A future in the state `s` has the step of `u` among its callbacks, or it is finished and its
  -- handle for that is live.
  abbrev pub Wakes : World V → ℕ → FutState V → Type 0
  Wakes w u s =
      ((cbs : List Callback) × (waiting_callbacks s ≡ some cbs)
        × (has_callback (step_of u) cbs ≡ true))
      ⊎ ((h : ℕ) × (handle_of (step_of u) (settled_of s) ≡ some h) × Live w u h)

  abbrev pub AwakeIn : World V → ℕ → FutState V → Type 0
  AwakeIn w u (scheduled cbs h) = Live w u h
  AwakeIn w u (cancelling cbs h e) = Live w u h
  AwakeIn w u (running cbs f) = (f < w.next_fut) × Wakes w u (state w f)
  AwakeIn w u _ = Unit {0}

  -- If `u` is a task that is not finished, it can be stepped, and it will be: by a live handle, or
  -- by the future for which it waits.
  pub record Awake (w : World V) (u : ℕ) : Type 0 where
    pub ready : is_task_state (state w u) ≡ true → IsReady w u
    pub awake : AwakeIn w u (state w u)

  -- The handles that finished futures keep are those of their callbacks.
  pub record Tracked (w : World V) : Type 0 where
    pub tracked : (f : ℕ) → Tracks w.next_handle w.handles (settled_of (state w f))

  -- What wakes the task `u` is left to it.
  pub record Frame (w w' : World V) (u : ℕ) : Type 0 where
    pub kind_eq : (w'.futs u).kind ≡ (w.futs u).kind
    pub coro_eq : (w'.futs u).coro ≡ (w.futs u).coro
    pub core_eq : core (state w' u) ≡ core (state w u)
    pub live : (h : ℕ) → Live w u h → Live w' u h
    pub wakes : (f : ℕ) → f < w.next_fut → Wakes w u (state w f) → Wakes w' u (state w' f)
    pub grows : w.next_fut ≤ w'.next_fut

  -- The handles are kept, and the new ones are fresh.
  abbrev pub Calls : World V → World V → Type 0
  Calls w w' = HandlesKept w.next_handle w.handles w'.next_handle w'.handles

  -- All tasks but `t` keep what wakes them.
  pub record Moves (t : ℕ) (w w' : World V) : Type 0 where
    pub frame : (u : ℕ) → (u == t) ≡ false → Frame w w' u
    pub still : Tracked w'
    pub calls : Calls w w'

  AwakeIn-core : (w : World V) (u : ℕ) (s : FutState V) → AwakeIn w u (core s) ≡ AwakeIn w u s
  AwakeIn-core w u (created cbs) = refl
  AwakeIn-core w u (scheduled cbs h) = refl
  AwakeIn-core w u (cancelling cbs h e) = refl
  AwakeIn-core w u (running cbs f) = refl
  AwakeIn-core w u (pending cbs) = refl
  AwakeIn-core w u (success v s) = refl
  AwakeIn-core w u (failed e r s) = refl

  AwakeIn-Frame :
      {w w' : World V} (u : ℕ) (s : FutState V) → Frame w w' u → AwakeIn w u s → AwakeIn w' u s
  AwakeIn-Frame u (scheduled cbs h) m a = m.live h a
  AwakeIn-Frame u (cancelling cbs h e) m a = m.live h a
  AwakeIn-Frame u (running cbs f) m (k, a) = (omega (arith, m.grows), m.wakes f k a)
  AwakeIn-Frame u (pending cbs) m a = tt
  AwakeIn-Frame u (created cbs) m a = tt
  AwakeIn-Frame u (success v s) m a = tt
  AwakeIn-Frame u (failed e r s) m a = tt

  is_task_state-core : (s : FutState V) → is_task_state (core s) ≡ is_task_state s
  is_task_state-core s = ground arith

  ready_state-core : (s : FutState V) (c : _) → ready_state (core s) c ≡ ready_state s c
  ready_state-core s c = ground arith

  -- A task to which that is left stays awake.
  pub Awake-Frame : {w w' : World V} (u : ℕ) → Frame w w' u → Awake w u → Awake w' u
  Awake-Frame {w} {w'} u m a = record {
    ready = λ i.
        let old : _ = a.ready (
          sym (is_task_state-core (state w u))
          ∙ ap is_task_state (sym m.core_eq)
          ∙ is_task_state-core (state w' u)
          ∙ i) in
        record {
          is_task = m.kind_eq ∙ old.is_task;
          known = omega (arith, old.known, m.grows);
          ready =
              sym (ready_state-core (state w' u) (w'.futs u).coro)
              ∙ rw (m.core_eq, m.coro_eq)
                  (ready_state-core (state w u) (w.futs u).coro ∙ old.ready);
        };
    awake =
        subst (λ A. A) (AwakeIn-core w' u (state w' u))
          (subst (AwakeIn w' u) (sym m.core_eq) (
            subst (λ A. A) (sym (AwakeIn-core w' u (state w u)))
              (AwakeIn-Frame u (state w u) m a.awake)));
  }

  Frame-refl : (w : World V) (u : ℕ) → Frame w w u
  Frame-refl w u = record {
    kind_eq = refl;
    coro_eq = refl;
    core_eq = refl;
    live = λ h l. l;
    wakes = λ f k a. a;
    grows = omega arith;
  }

  Frame-trans : {v w x : World V} (u : ℕ) → Frame v w u → Frame w x u → Frame v x u
  Frame-trans u a b = record {
    kind_eq = b.kind_eq ∙ a.kind_eq;
    coro_eq = b.coro_eq ∙ a.coro_eq;
    core_eq = b.core_eq ∙ a.core_eq;
    live = λ h l. b.live h (a.live h l);
    wakes = λ f k s. b.wakes f (omega (arith, a.grows)) (a.wakes f k s);
    grows = omega (arith, a.grows, b.grows);
  }

  pub Moves-refl : (t : ℕ) (w : World V) → Tracked w → Moves t w w
  Moves-refl t w h = record {
    frame = λ u ne. Frame-refl w u;
    still = h;
    calls = HandlesKept-refl w.next_handle w.handles;
  }

  pub Moves-trans : {v w x : World V} (t : ℕ) → Moves t v w → Moves t w x → Moves t v x
  Moves-trans {v} {w} {x} t a b = record {
    frame = λ u ne. Frame-trans u (a.frame u ne) (b.frame u ne);
    still = b.still;
    calls = HandlesKept-trans a.calls b.calls;
  }

  -- Every task but `t` is awake, and the handles of the world `base` are kept.
  pub record Wakeful (base : World V) (t : ℕ) (w : World V) : Type 0 where
    pub tracked : Tracked w
    pub awake : (u : ℕ) → (u == t) ≡ false → Awake w u
    pub calls : Calls base w

  pub Awake-finished : (w : World V) (u : ℕ) → is_task_state (state w u) ≡ false → Awake w u
  Awake-finished w u i = record { ready = λ j. absurd (ground arith); awake = go (state w u) i }
    where
      go : (s : FutState V) → is_task_state s ≡ false → AwakeIn w u s
      go s j = ground arith

  pub Wakeful-Moves :
      {base : World V} {t : ℕ} {w w' : World V}
      → Wakeful base t w
      → Moves t w w'
      → Wakeful base t w'
  Wakeful-Moves {base} {t} {w} {w'} k m = record {
    tracked = m.still;
    awake = λ u ne. Awake-Frame u (m.frame u ne) (k.awake u ne);
    calls = HandlesKept-trans k.calls m.calls;
  }

  -- A change of the task `f` that leaves it awake.
  pub Wakeful-move :
      {base : World V} {t f : ℕ} {w w' : World V}
      → Wakeful base t w
      → Moves f w w'
      → ((f == t) ≡ false → Awake w' f)
      → Wakeful base t w'
  Wakeful-move {base} {t} {f} {w} {w'} k m a = record {
    tracked = m.still;
    awake = λ u ne. elim (Bool-cases (u == f)) [
      | inl e ↦
          let same : u ≡ f = (==_iff u f).0 e in
          subst (λ x. Awake w' x) (sym same) (a (subst (λ x. (x == t) ≡ false) same ne))
      | inr e ↦ Awake-Frame u (m.frame u e) (k.awake u ne)
    ];
    calls = HandlesKept-trans k.calls m.calls;
  }
