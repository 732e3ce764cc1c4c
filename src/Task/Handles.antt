-- ===== src/Task/Handles.antt =====
-- aio/interfaces.py, `Handle`: what a store keeps of its handles when tasks and programs change it.
use aio.Prelude.{
  ℕ, suc, ◌≤◌, ◌<◌, ◌≡◌, refl, sym, ◌∙◌, inl, inr, true, false, none, arith, ◌==◌, ==_iff, update,
  Bool-cases, ltb,
}
use aio.World.{Handle, step_of}

-- A handle that is not called meanwhile: it can only be cancelled.
pub record Keeps (x y : Handle) : Type 0 where
  pub callback_eq : y.callback ≡ x.callback
  pub loop_eq : y.loop ≡ x.loop
  pub when_eq : y.when ≡ x.when
  pub executed_eq : y.executed ≡ x.executed
  pub stays_cancelled : x.is_cancelled ≡ true → y.is_cancelled ≡ true

-- A handle that nobody called; only a call of a program's own function can be for later.
pub record IsFresh (x : Handle) : Type 0 where
  pub unused : x.executed ≡ false
  pub step_soon : (t : ℕ) → x.callback ≡ step_of t → x.when ≡ none

-- The first `n` handles are kept, and those from there to `n'` are fresh.
pub record HandlesKept (n : ℕ) (hs : ℕ → Handle) (n' : ℕ) (hs' : ℕ → Handle) : Type 0 where
  pub more : n ≤ n'
  pub old : (h : ℕ) → h < n → Keeps (hs h) (hs' h)
  pub fresh : (h : ℕ) → n ≤ h → h < n' → IsFresh (hs' h)

Keeps-refl : (x : Handle) → Keeps x x
Keeps-refl x = record {
  callback_eq = refl;
  loop_eq = refl;
  when_eq = refl;
  executed_eq = refl;
  stays_cancelled = λ c. c;
}

-- A handle that is cancelled.
pub cancelled-Keeps : (x : Handle) → Keeps x (record x { is_cancelled = true })
cancelled-Keeps x = record {
  callback_eq = refl;
  loop_eq = refl;
  when_eq = refl;
  executed_eq = refl;
  stays_cancelled = λ c. refl;
}

Keeps-trans : {x y z : Handle} → Keeps x y → Keeps y z → Keeps x z
Keeps-trans a b = record {
  callback_eq = b.callback_eq ∙ a.callback_eq;
  loop_eq = b.loop_eq ∙ a.loop_eq;
  when_eq = b.when_eq ∙ a.when_eq;
  executed_eq = b.executed_eq ∙ a.executed_eq;
  stays_cancelled = λ c. b.stays_cancelled (a.stays_cancelled c);
}

pub HandlesKept-refl : (n : ℕ) (hs : ℕ → Handle) → HandlesKept n hs n hs
HandlesKept-refl n hs = record {
  more = omega arith;
  old = λ h k. Keeps-refl (hs h);
  fresh = λ h a b. absurd (omega arith);
}

IsFresh-Keeps : {x y : Handle} → IsFresh x → Keeps x y → IsFresh y
IsFresh-Keeps f k = record {
  unused = k.executed_eq ∙ f.unused;
  step_soon = λ t e. k.when_eq ∙ f.step_soon t (sym k.callback_eq ∙ e);
}

pub HandlesKept-trans :
    {n n' n'' : ℕ} {hs hs' hs'' : ℕ → Handle}
    → HandlesKept n hs n' hs'
    → HandlesKept n' hs' n'' hs''
    → HandlesKept n hs n'' hs''
HandlesKept-trans {n} {n'} a b = record {
  more = omega (arith, a.more, b.more);
  old = λ h k. Keeps-trans (a.old h k) (b.old h (omega (arith, a.more)));
  fresh = λ h k l. elim (Bool-cases (ltb h n')) [
    | inl e ↦ IsFresh-Keeps (a.fresh h k (ground arith)) (b.old h (ground arith))
    | inr e ↦ b.fresh h (ground arith) l
  ];
}

-- A new handle.
pub HandlesKept-new :
    (n : ℕ) (hs : ℕ → Handle) (x : Handle) → IsFresh x → HandlesKept n hs (suc n) (update hs n x)
HandlesKept-new n hs x f = record {
  more = omega arith;
  old = λ h k.
      let other : (n == h) ≡ false = ground (arith, ==_iff n h) in rw other (Keeps-refl (hs h));
  fresh = λ h a b. let same : (n == h) ≡ true = ground (arith, ==_iff n h) in rw same f;
}

-- Another in the place of one.
pub HandlesKept-changed :
    (n : ℕ) (hs : ℕ → Handle) (j : ℕ) (x : Handle)
    → Keeps (hs j) x
    → HandlesKept n hs n (update hs j x)
HandlesKept-changed n hs j x k = record {
  more = omega arith;
  old = λ h _. elim (Bool-cases (j == h)) [
    | inl e ↦ rw (e, ← (==_iff j h).0 e) k
    | inr e ↦ rw e (Keeps-refl (hs h))
  ];
  fresh = λ h a b. absurd (omega arith);
}
