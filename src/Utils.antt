-- ===== src/Utils.antt =====
-- aio/utils.py: `WarnUndoneAsyncGens`, `SignalHandlerInstaller` and `MeasureElapsed`.
-- Async-generators are numbered objects; what `sys` and `signal` hold is handed in and given back.
pub mod Once
use aio.Prelude.{
  ℕ, ◌-◌, Bool, true, false, Option, none, some, List, [], ◌∷◌, ◌++◌, ◌==◌, if◌then◌else◌,
}
use aio.Exceptions.{Result, ok, raised, runtime_error}

pub has : ℕ → List ℕ → Bool
has x [] = false
has x (y ∷ ys) = if y == x then true else has x ys

pub without : ℕ → List ℕ → List ℕ
without x [] = []
without x (y ∷ ys) = if y == x then ys else y ∷ without x ys

-- The hooks of `sys` for the first iteration and the end of an async-generator.
pub data Hooks : Type 0 where
  foreign_hooks : ℕ → Hooks
  own_hooks : Hooks

-- `WarnUndoneAsyncGens`; `emitted` holds addresses, in the order in which they were added.
pub record Gens : Type 0 where
  pub controlled : List ℕ
  pub emitted : List ℕ
  pub old_hooks : Option Hooks

abbrev pub new_gens : Gens
new_gens = record { controlled = []; emitted = []; old_hooks = none }

-- What happens to an async-generator: it is first iterated; it is about to be collected, closed or
-- not; and it is collected, so that the weak set has it no more.
pub data GenEvent : Type 0 where
  iterates collected : ℕ → GenEvent
  finalizes : ℕ → Bool → GenEvent

-- `address` is `id`, which a later object may have again once one is collected.
module _ (address : ℕ → ℕ) where
  -- `_emit_warning`, with the generators that it warns of.
  pub emit_warning : Bool → ℕ → Gens → Gens × List ℕ
  unfolding has
  emit_warning is_closed g s =
      if is_closed
      then (s, [])
      else if has (address g) s.emitted
      then (s, [])
      else (record s { emitted = s.emitted ++ address g ∷ [] }, g ∷ [])

  -- `_async_gen_first_iter`, `_async_gen_finalize`, and the weak set.
  unfoldable pub gen_step : GenEvent → Gens → Gens × List ℕ
  unfolding emit_warning has without
  gen_step (iterates g) s =
      (record s { controlled = if has g s.controlled then s.controlled else g ∷ s.controlled }, [])
  gen_step (finalizes g is_closed) s = emit_warning is_closed g s
  gen_step (collected g) s = (record s { controlled = without g s.controlled }, [])

  unfoldable pub gen_run : List GenEvent → Gens → Gens × List ℕ
  gen_run [] s = (s, [])
  gen_run (e ∷ es) s =
      ((gen_run es (gen_step e s).0).0, (gen_step e s).1 ++ (gen_run es (gen_step e s).0).1)

  -- The loop of `__exit__`.
  unfoldable pub warn_all : (ℕ → Bool) → List ℕ → Gens → Gens × List ℕ
  warn_all is_closed [] s = (s, [])
  warn_all is_closed (g ∷ gs) s = (
    (warn_all is_closed gs (emit_warning (is_closed g) g s).0).0,
    (emit_warning (is_closed g) g s).1
        ++ (warn_all is_closed gs (emit_warning (is_closed g) g s).0).1,
  )

  -- `__exit__`: the generators that it warns of, and the hooks that it leaves in `sys`.
  unfoldable pub gens_exit : (ℕ → Bool) → Gens → Gens × List ℕ × Option Hooks
  gens_exit is_closed s =
      let (s', ws) = warn_all is_closed s.controlled s in
      (record s' { controlled = [] }, ws, s'.old_hooks)

-- `__enter__`, with the hooks that it finds and those that it leaves.
unfoldable pub gens_enter : Hooks → Gens → Gens × Hooks
gens_enter h s = (record s { old_hooks = some h }, own_hooks)

-- `SignalHandlerInstaller`: the handler of the signal is found, replaced and put back.
pub record Installer : Type 0 where
  pub new_handler : ℕ
  pub old_handler : Option ℕ

unfoldable pub signal_enter : ℕ → Installer → Installer × ℕ
signal_enter current s = (record s { old_handler = some current }, s.new_handler)

unfoldable pub signal_exit : Installer → Installer × Option ℕ
signal_exit s = (record s { old_handler = none }, s.old_handler)

-- `MeasureElapsed`, by the reading of the clock: the time of the last enter.
unfoldable pub get_elapsed : ℕ → Option ℕ → Result ℕ
get_elapsed now none = raised runtime_error
get_elapsed now (some at) = ok (now - at)

unfoldable pub measure_enter : ℕ → Option ℕ → Option ℕ
measure_enter now last = some now

unfoldable pub measure_exit : Option ℕ → Option ℕ
measure_exit last = last
