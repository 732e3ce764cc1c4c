-- ===== src/Loop/Leaves.antt =====
-- aio/loop/pure/impl.py: which exceptions can leave a turn of the loop.
use aio.Prelude.{
  ℕ, ◌+◌, ◌≡◌, refl, false, Option, none, some, List, [], ◌∷◌, ◌++◌, Bool-cases, inl, inr, ◌⊎◌,
}
use aio.Exceptions.{Exc, is_exception, Result, ok, raised}
use aio.Scheduler.Heap.{Heapq}
use aio.Loop.{
  Loop, Effect, Turn, exec_ops, report, invoke_callback, mark_executed, invoke_handle,
  invoke_handles, invoke_events, pop, early_part, late_part, events_part, run_step,
}

-- What a callback can end the loop with: an exception that is no `Exception`, or what the handler
-- raises when it is told of the exception of the callback.
abbrev pub EndedBy : Effect → Exc → Type 0
EndedBy x e =
    (y : Exc) × (x.exc ≡ some y)
    × (((x.handler ≡ none) × (is_exception y ≡ false) × (y ≡ e)) ⊎ (x.handler ≡ some e))

abbrev pub EndedByEvent : List Effect → Exc → Type 0
EndedByEvent [] e = ⊥
EndedByEvent (x ∷ xs) e = EndedBy x e ⊎ EndedByEvent xs e

-- What a turn can end the loop with: what `select` raises too.
abbrev pub EndedByTurn : (ℕ → Effect) → Turn → Exc → Type 0
EndedByTurn code turn e =
    (turn.select_raises ≡ some e) ⊎ (((h : ℕ) × EndedBy (code h) e) ⊎ EndedByEvent turn.io e)

abbrev pub EndedByTurns : (ℕ → Effect) → List Turn → Exc → Type 0
EndedByTurns code [] e = ⊥
EndedByTurns code (turn ∷ turns) e = EndedByTurn code turn e ⊎ EndedByTurns code turns e

-- An exception that leaves is one of those.
abbrev pub Leaves : (Exc → Type 0) → Result (Unit {0}) → Type 0
Leaves P (ok u) = Unit {0}
Leaves P (raised e) = P e

map-Leaves :
    (P Q : Exc → Type 0)
    → ((e : Exc) → P e → Q e)
    → (r : Result (Unit {0})) → Leaves P r
    → Leaves Q r
map-Leaves P Q f (ok u) p = tt
map-Leaves P Q f (raised e) p = f e p

module _ (hq : Heapq ℕ) where
  report-Leaves :
      (x : Effect) (y e : Option Exc) (m : Loop)
      → x.handler ≡ y
      → x.exc ≡ e
      → Leaves (EndedBy x) (report hq y e m).1
  unfolding report
  report-Leaves x y none m a b = tt
  report-Leaves x none (some e) m a b = elim (Bool-cases (is_exception e)) [
    | inl caught ↦ rw caught tt
    | inr out ↦ rw out (e, b, inl (a, out, refl))
  ]
  report-Leaves x (some broken) (some e) m a b = (e, b, inr a)

  invoke_callback-Leaves : (x : Effect) (l : Loop) → Leaves (EndedBy x) (invoke_callback hq x l).1
  unfolding invoke_callback
  invoke_callback-Leaves x l = report-Leaves x x.handler x.exc (exec_ops hq x.ops l) refl refl

  mark_executed-Leaves :
      (P : Exc → Type 0) (h : ℕ) (m : Loop × Result (Unit {0}))
      → Leaves P m.1
      → Leaves P (mark_executed hq h m).1
  unfolding mark_executed
  mark_executed-Leaves P h (l, ok u) f = tt
  mark_executed-Leaves P h (l, raised e) f = f

  invoke_handle-Leaves :
      (code : ℕ → Effect) (h : ℕ) (l : Loop)
      → Leaves (EndedBy (code h)) (invoke_handle hq code h l).1
  unfolding invoke_handle
  invoke_handle-Leaves code h l =
      let told : Loop = record l { called = l.called ++ h ∷ [] } in
      elim (Bool-cases (l.handles h).is_cancelled) [
        | inl c ↦ rw c tt
        | inr c ↦ rw c (
            mark_executed-Leaves (EndedBy (code h)) h (invoke_callback hq (code h) told)
              (invoke_callback-Leaves (code h) told))
      ]

  -- The first result that is raised ends a loop.
  first-Leaves :
      (P : Exc → Type 0) (l : Loop) (r : Result (Unit {0})) (rest : Loop × Result (Unit {0}))
      → Leaves P r
      → Leaves P rest.1
      → let m : Loop × Result (Unit {0}) = elim r [ raised e ↦ (l, raised e) | ok u ↦ rest ] in
        Leaves P m.1
  first-Leaves P l (ok u) rest a b = b
  first-Leaves P l (raised e) rest a b = a

  invoke_handles-Leaves :
      (code : ℕ → Effect) (hs : List ℕ) (l : Loop)
      → Leaves (λ e. (h : ℕ) × EndedBy (code h) e) (invoke_handles hq code hs l).1
  unfolding invoke_handles
  invoke_handles-Leaves code [] l = tt
  invoke_handles-Leaves code (h ∷ hs) l =
      first-Leaves (λ e. (x : ℕ) × EndedBy (code x) e) (invoke_handle hq code h l).0
        (invoke_handle hq code h l).1 (invoke_handles hq code hs (invoke_handle hq code h l).0)
        (map-Leaves (EndedBy (code h)) (λ e. (x : ℕ) × EndedBy (code x) e) (λ e p. (h, p))
          (invoke_handle hq code h l).1 (invoke_handle-Leaves code h l))
        (invoke_handles-Leaves code hs (invoke_handle hq code h l).0)

  invoke_events-Leaves :
      (xs : List Effect) (l : Loop) → Leaves (EndedByEvent xs) (invoke_events hq xs l).1
  unfolding invoke_events
  invoke_events-Leaves [] l = tt
  invoke_events-Leaves (x ∷ xs) l =
      first-Leaves (EndedByEvent (x ∷ xs)) (invoke_callback hq x l).0 (invoke_callback hq x l).1
        (invoke_events hq xs (invoke_callback hq x l).0)
        (map-Leaves (EndedBy x) (EndedByEvent (x ∷ xs)) (λ e p. inl p) (invoke_callback hq x l).1
          (invoke_callback-Leaves x l))
        (map-Leaves (EndedByEvent xs) (EndedByEvent (x ∷ xs)) (λ e p. inr p)
          (invoke_events hq xs (invoke_callback hq x l).0).1
          (invoke_events-Leaves xs (invoke_callback hq x l).0))

  module _ (code : ℕ → Effect) (turn : Turn) where
    handles-Leaves :
        (hs : List ℕ) (l : Loop) → Leaves (EndedByTurn code turn) (invoke_handles hq code hs l).1
    handles-Leaves hs l =
        map-Leaves (λ e. (h : ℕ) × EndedBy (code h) e) (EndedByTurn code turn) (λ e p. inr (inl p))
          (invoke_handles hq code hs l).1 (invoke_handles-Leaves code hs l)

    early_part-Leaves :
        (early : List ℕ) (x : Option Exc) (l : Loop)
        → turn.select_raises ≡ x
        → Leaves (EndedByTurn code turn) (early_part hq code early x l).1
    unfolding early_part
    early_part-Leaves early none l e = handles-Leaves early l
    early_part-Leaves early (some y) l e = inl e

    events_part-Leaves :
        (m : Loop × Result (Unit {0}))
        → Leaves (EndedByTurn code turn) m.1
        → Leaves (EndedByTurn code turn) (events_part hq turn m).1
    unfolding events_part
    events_part-Leaves (l, ok u) f =
        map-Leaves (EndedByEvent turn.io) (EndedByTurn code turn) (λ e p. inr (inr p))
          (invoke_events hq turn.io l).1 (invoke_events-Leaves turn.io l)
    events_part-Leaves (l, raised e) f = f

    late_part-Leaves :
        (m : Loop × Result (Unit {0}))
        → Leaves (EndedByTurn code turn) m.1
        → Leaves (EndedByTurn code turn) (late_part hq code turn m).1
    unfolding late_part
    late_part-Leaves (l, ok u) f =
        handles-Leaves _ (pop hq (turn.after_select + turn.resolution) l).0
    late_part-Leaves (l, raised e) f = f

    pub run_step-Leaves : (l : Loop) → Leaves (EndedByTurn code turn) (run_step hq code turn l).1
    unfolding run_step
    run_step-Leaves l =
        late_part-Leaves _ (events_part-Leaves _ (early_part-Leaves _ turn.select_raises _ refl))
