-- ===== src/Utils/Once.antt =====
-- aio/utils.py: each undone async-generator is warned of, and no address twice.
use aio.Prelude.{
  ℕ, ◌≡◌, refl, ap, sym, subst, ◌∙◌, Bool, true, false, some, List, [], ◌∷◌, ◌++◌, map, arith, ◌==◌,
  if◌then◌else◌, Bool-cases, inl, inr,
}
use mathlib.Core.List.{append_assoc, append-nil}
use aio.Utils.{
  has, Hooks, Gens, new_gens, GenEvent, iterates, collected, finalizes, emit_warning, gen_step,
  gen_run, warn_all, gens_exit, gens_enter,
}

abbrev pub NoDup : List ℕ → Type 0
NoDup [] = Unit {0}
NoDup (x ∷ xs) = (has x xs ≡ false) × NoDup xs

has-append : (x y : ℕ) (xs : List ℕ) → has x (xs ++ y ∷ []) ≡ (if y == x then true else has x xs)
unfolding has
has-append x y [] = refl
has-append x y (z ∷ xs) = ground (arith, has-append x y xs)

NoDup-append : (y : ℕ) (xs : List ℕ) → NoDup xs → has y xs ≡ false → NoDup (xs ++ y ∷ [])
unfolding has
NoDup-append y [] d h = (refl, tt)
NoDup-append y (x ∷ xs) d h = ground (arith, has-append x y xs, NoDup-append y xs d.1)

map-append : (f : ℕ → ℕ) (xs ys : List ℕ) → map f (xs ++ ys) ≡ map f xs ++ map f ys
map-append f [] ys = refl
map-append f (x ∷ xs) ys = ap (λ r. f x ∷ r) (map-append f xs ys)

module _ (address : ℕ → ℕ) where
  -- What a part of the life of the context manager does to the addresses: they are warned of in
  -- order, none twice.
  pub record Warned (s : Gens) (r : Gens × List ℕ) : Type 0 where
    pub in_order : r.0.emitted ≡ s.emitted ++ map address r.1
    pub once : NoDup s.emitted → NoDup r.0.emitted
    pub kept : r.0.old_hooks ≡ s.old_hooks

  Warned-nothing : (s : Gens) (gs : List ℕ) → Warned s (record s { controlled = gs }, [])
  Warned-nothing s gs = record { in_order = sym (append-nil s.emitted); once = λ d. d; kept = refl }

  emit_warning-Warned : (b : Bool) (g : ℕ) (s : Gens) → Warned s (emit_warning address b g s)
  unfolding emit_warning
  emit_warning-Warned true g s = Warned-nothing s s.controlled
  emit_warning-Warned false g s = elim (Bool-cases (has (address g) s.emitted)) [
    | inl old ↦ rw (old, emit_warning) (Warned-nothing s s.controlled)
    | inr new ↦
        rw (new, emit_warning)
          (record {
            in_order = refl;
            once = λ d. NoDup-append (address g) s.emitted d new;
            kept = refl;
          })
  ]

  Warned-then :
      (s t : Gens) (vs : List ℕ) (r : Gens × List ℕ)
      → Warned s (t, vs)
      → Warned t r
      → Warned s (r.0, vs ++ r.1)
  Warned-then s t vs r a b = record {
    in_order =
        b.in_order
        ∙ ap (λ l. l ++ map address r.1) a.in_order
        ∙ rw append_assoc (ap (λ l. s.emitted ++ l) (sym (map-append address vs r.1)));
    once = λ d. b.once (a.once d);
    kept = b.kept ∙ a.kept;
  }

  gen_step-Warned : (e : GenEvent) (s : Gens) → Warned s (gen_step address e s)
  unfolding gen_step
  gen_step-Warned (iterates g) s = Warned-nothing s _
  gen_step-Warned (collected g) s = Warned-nothing s _
  gen_step-Warned (finalizes g b) s = emit_warning-Warned b g s

  gen_run-Warned : (es : List GenEvent) (s : Gens) → Warned s (gen_run address es s)
  unfolding gen_run
  gen_run-Warned [] s = Warned-nothing s s.controlled
  gen_run-Warned (e ∷ es) s =
      let (t, vs) = gen_step address e s in
      Warned-then s t vs (gen_run address es t) (gen_step-Warned e s) (gen_run-Warned es t)

  warn_all-Warned :
      (closed : ℕ → Bool) (gs : List ℕ) (s : Gens) → Warned s (warn_all address closed gs s)
  unfolding warn_all
  warn_all-Warned closed [] s = Warned-nothing s s.controlled
  warn_all-Warned closed (g ∷ gs) s =
      let (t, vs) = emit_warning address (closed g) g s in
      Warned-then s t vs (warn_all address closed gs t) (emit_warning-Warned (closed g) g s)
        (warn_all-Warned closed gs t)

  has-append_left : (x : ℕ) (xs ys : List ℕ) → has x xs ≡ true → has x (xs ++ ys) ≡ true
  unfolding has
  has-append_left x [] ys h = cc
  has-append_left x (y ∷ xs) ys h = ground (arith, has-append_left x xs ys)

  warn_all-kept :
      (closed : ℕ → Bool) (gs : List ℕ) (x : ℕ) (s : Gens)
      → has x s.emitted ≡ true
      → has x (warn_all address closed gs s).0.emitted ≡ true
  warn_all-kept closed gs x s h =
      let w = warn_all-Warned closed gs s in ap (has x) w.in_order ∙ has-append_left x s.emitted _ h

  emit_warning-has :
      (g : ℕ) (s : Gens) → has (address g) (emit_warning address false g s).0.emitted ≡ true
  unfolding emit_warning
  emit_warning-has g s = elim (Bool-cases (has (address g) s.emitted)) [
    | inl old ↦ rw (old, emit_warning) old
    | inr new ↦ rw (new, emit_warning) (has-append (address g) (address g) s.emitted ∙ ground arith)
  ]

  warn_all-has :
      (closed : ℕ → Bool) (gs : List ℕ) (x : ℕ) (s : Gens)
      → has x gs ≡ true
      → closed x ≡ false
      → has (address x) (warn_all address closed gs s).0.emitted ≡ true
  unfolding warn_all has
  warn_all-has closed [] x s h c = cc
  warn_all-has closed (g ∷ gs) x s h c = elim (Bool-cases (g == x)) [
    | inl same ↦
        let e : g ≡ x = ground (arith, same) in
        warn_all-kept closed gs (address x) (emit_warning address (closed g) g s).0
          (rw (e, c) (emit_warning-has x s))
    | inr other ↦ warn_all-has closed gs x (emit_warning address (closed g) g s).0 (ground arith) c
  ]

  -- From the enter of the context manager to its exit, whatever generators are iterated, finalized
  -- and collected: no address is warned of twice; every generator that is alive at the exit and not
  -- closed has its address warned of, by then or at the exit; and the hooks of `sys` are put back.
  pub warned_once :
      (es : List GenEvent) (closed : ℕ → Bool) (h : Hooks)
      → let (s, own) = gens_enter h new_gens in
        let (s', ws) = gen_run address es s in
        let (s'', vs, hooks) = gens_exit address closed s' in
        NoDup (map address (ws ++ vs))
        × ((g : ℕ)
            → has g s'.controlled ≡ true
            → closed g ≡ false
            → has (address g) (map address (ws ++ vs)) ≡ true)
        × (hooks ≡ some h)
        × (s''.controlled ≡ [])
  unfolding gens_enter gens_exit
  warned_once es closed h =
      let s : Gens = record new_gens { old_hooks = some h } in
      let (s', ws) = gen_run address es s in
      let (s'', vs) = warn_all address closed s'.controlled s' in
      let w =
        Warned-then s s' ws (s'', vs) (gen_run-Warned es s)
          (warn_all-Warned closed s'.controlled s') in
      (
        subst NoDup w.in_order (w.once tt),
        (λ g m c.
            ap (has (address g)) (sym w.in_order) ∙ warn_all-has closed s'.controlled g s' m c),
        w.kept,
        refl,
      )
