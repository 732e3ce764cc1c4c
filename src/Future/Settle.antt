-- ===== src/Future/Settle.antt =====
-- aio/future/pure.py: what holds when a future or a task gets its result, and after.
use aio.Prelude.{
  Option-cases, inl, inr, ℕ, ◌+◌, ◌≤◌, ◌<◌, ◌≡◌, refl, ap, sym, ◌∙◌, true, false, Option, none,
  some, List, [], ◌∷◌, arith, length, ◌==◌,
}
use aio.Exceptions.{Exc, Result, ok, raised, future_finished_error}
use aio.World.{
  Callback, FutState, pending, success, failed, plain_future, World, waiting_callbacks,
  has_callback, handle_of, pop_from, set_state, cancel_handle,
}
use aio.Future.{
  state, is_finished, result, exception, remove_callback, call_all, handles_from, base_set_result,
  task_set_result, set_result, del_warnings, Warning, never_retrieved,
}
use aio.Future.Callbacks.{
  next_handle-call_all, futs-call_all, handles-call_all, fresh_call, handle_of-handles_from,
}

-- What a future is finished with.
pub data Outcome (V : Type 0) : Type 0 where
  returns : V → Outcome V
  raises : Exc → Outcome V

module _ {V : Type 0} where
  abbrev pub val_of : Outcome V → Option V
  val_of (returns v) = some v
  val_of (raises e) = none

  abbrev pub exc_of : Outcome V → Option Exc
  exc_of (returns v) = none
  exc_of (raises e) = some e

  abbrev pub finished_by : Outcome V → List (Callback × ℕ) → FutState V
  finished_by (returns v) s = success v s
  finished_by (raises e) s = failed e false s

  -- The world after the outcome `o` is set in a future that has the callbacks `cbs`.
  abbrev pub settled : World V → ℕ → Outcome V → List Callback → World V
  settled w f o cbs =
      set_state (call_all w (w.futs f).loop f cbs) f
        (finished_by o (handles_from w.next_handle cbs))

  pub base_set_result_lem :
      (w : World V) (f : ℕ) (o : Outcome V) (cbs : List Callback)
      → waiting_callbacks (state w f) ≡ some cbs
      → base_set_result f (val_of o) (exc_of o) w ≡ (settled w f o cbs, ok tt)
  unfolding base_set_result
  base_set_result_lem w f (returns v) cbs h = rw (h, base_set_result)
  base_set_result_lem w f (raises e) cbs h = rw (h, base_set_result)

  pub set_result-pending :
      (w : World V) (f : ℕ) (o : Outcome V) (cbs : List Callback)
      → (w.futs f).kind ≡ plain_future
      → state w f ≡ pending cbs
      → set_result f (val_of o) (exc_of o) w ≡ (settled w f o cbs, ok tt)
  unfolding set_result
  set_result-pending w f o cbs k p =
      rw (k, set_result) (base_set_result_lem w f o cbs (ap waiting_callbacks p))

  -- A pending future that is given an outcome is finished with it, and every callback of its set
  -- has one handle, which is new, not cancelled, not yet executed, and will call it with the
  -- future on the future's loop. No other future changes, and no handle that was there; as many
  -- handles are made as there are callbacks.
  pub settle_schedules :
      (w : World V) (f : ℕ) (o : Outcome V) (cbs : List Callback)
      → (w.futs f).kind ≡ plain_future
      → state w f ≡ pending cbs
      → let (w', r) = set_result f (val_of o) (exc_of o) w in
        (r ≡ ok tt)
        × (state w' f ≡ finished_by o (handles_from w.next_handle cbs))
        × ((cb : Callback)
            → has_callback cb cbs ≡ true
            → (h : ℕ) × (handle_of cb (handles_from w.next_handle cbs) ≡ some h)
              × (w.next_handle ≤ h)
              × (w'.handles h ≡ fresh_call (w.futs f).loop cb f))
        × (w'.next_handle ≡ w.next_handle + length cbs)
        × ((h : ℕ) → h < w.next_handle → w'.handles h ≡ w.handles h)
        × ((g : ℕ) → (g == f) ≡ false → w'.futs g ≡ w.futs g)
  settle_schedules w f o cbs k p = rw (set_result-pending w f o cbs k p) (
    refl,
    ground arith,
    (λ cb m.
        let (h, found, low, high, made) = handle_of-handles_from w (w.futs f).loop f cb cbs m in
        (h, found, low, made)),
    next_handle-call_all w (w.futs f).loop f cbs,
    (λ h lt. handles-call_all w (w.futs f).loop f h cbs lt),
    (λ g ne. ground (arith, ap (λ fs. fs g) (futs-call_all w (w.futs f).loop f cbs))),
  )

  base_set_result_other :
      (w : World V) (f g : ℕ) (val : Option V) (exc : Option Exc)
      → (f == g) ≡ false
      → (base_set_result f val exc w).0.futs g ≡ w.futs g
  unfolding base_set_result
  base_set_result_other w f g val exc ne = elim (Option-cases (waiting_callbacks (state w f))) [
    | inl e ↦ ground arith
    | inr (cbs, e) ↦ ground (arith, ap (λ fs. fs g) (futs-call_all w (w.futs f).loop f cbs))
  ]

  -- Giving one future an outcome leaves every other as it is.
  pub set_result_other :
      (w : World V) (f g : ℕ) (val : Option V) (exc : Option Exc)
      → (f == g) ≡ false
      → (set_result f val exc w).0.futs g ≡ w.futs g
  unfolding set_result task_set_result
  set_result_other w f g val exc ne = ground (arith, base_set_result_other w f g val exc)

  -- A finished future keeps its state, and no other object changes, whatever outcome it is given:
  -- the attempt raises `FutureFinishedError`.
  pub finished_once :
      (w : World V) (f : ℕ) (o : Outcome V)
      → is_finished w f ≡ true
      → set_result f (val_of o) (exc_of o) w ≡ (w, raised future_finished_error)
  unfolding is_finished set_result task_set_result base_set_result
  finished_once w f (returns v) d = ground arith
  finished_once w f (raises e) d = ground arith

  -- What readers see of a future finished with `o`.
  abbrev pub read_back : Outcome V → Result V
  read_back (returns v) = ok v
  read_back (raises e) = raised e

  abbrev pub exc_back : Outcome V → Result (Option Exc)
  exc_back o = ok (exc_of o)

  -- The warnings at the end of the life of a future that nobody has read.
  abbrev pub unread_warnings : Outcome V → List Warning
  unread_warnings (returns v) = []
  unread_warnings (raises e) = never_retrieved ∷ []

  -- After a pending future is given an outcome, `result` returns the value or raises the exception,
  -- and `exception` returns the exception or none. Dropped unread, the future warns exactly if it
  -- holds an exception; read by either method first, it does not warn.
  pub read_back_settled :
      (w : World V) (f : ℕ) (o : Outcome V) (cbs : List Callback)
      → (w.futs f).kind ≡ plain_future
      → state w f ≡ pending cbs
      → let w' = (set_result f (val_of o) (exc_of o) w).0 in
        ((result f w').1 ≡ read_back o)
        × ((exception f w').1 ≡ exc_back o)
        × (del_warnings w' f ≡ unread_warnings o)
        × (del_warnings (result f w').0 f ≡ [])
        × (del_warnings (exception f w').0 f ≡ [])
  unfolding result exception del_warnings is_finished
  read_back_settled w f (returns v) cbs k p =
      rw (set_result-pending w f (returns v) cbs k p) (ground arith)
  read_back_settled w f (raises e) cbs k p =
      rw (set_result-pending w f (raises e) cbs k p) (ground arith)

  remove_callback-finished_by :
      (w : World V) (f : ℕ) (o : Outcome V) (cb : Callback) (s : List (Callback × ℕ)) (h : ℕ)
      → state w f ≡ finished_by o s
      → handle_of cb s ≡ some h
      → remove_callback f cb w ≡ cancel_handle (set_state w f (finished_by o (pop_from cb s))) h
  unfolding remove_callback
  remove_callback-finished_by w f (returns v) cb s h p q =
      rw (p, remove_callback) (rw (q, remove_callback))
  remove_callback-finished_by w f (raises e) cb s h p q =
      rw (p, remove_callback) (rw (q, remove_callback))

  pub result-finished_by :
      (w : World V) (f : ℕ) (o : Outcome V) (s : List (Callback × ℕ))
      → state w f ≡ finished_by o s
      → (result f w).1 ≡ read_back o
  unfolding result
  result-finished_by w f (returns v) s p = ground arith
  result-finished_by w f (raises e) s p = ground arith

  pub exception-finished_by :
      (w : World V) (f : ℕ) (o : Outcome V) (s : List (Callback × ℕ))
      → state w f ≡ finished_by o s
      → (exception f w).1 ≡ exc_back o
  unfolding exception
  exception-finished_by w f (returns v) s p = ground arith
  exception-finished_by w f (raises e) s p = ground arith

  pub is_finished_by :
      (w : World V) (f : ℕ) (o : Outcome V) (s : List (Callback × ℕ))
      → state w f ≡ finished_by o s
      → is_finished w f ≡ true
  unfolding is_finished
  is_finished_by w f (returns v) s p = ground arith
  is_finished_by w f (raises e) s p = ground arith

  -- A callback that is removed after its future was finished, and before the loop has called it, is
  -- not called: its handle is cancelled. Every other handle, and what the future is finished with,
  -- stay as they are.
  pub remove_settled :
      (w : World V) (f : ℕ) (o : Outcome V) (cbs : List Callback) (cb : Callback)
      → (w.futs f).kind ≡ plain_future
      → state w f ≡ pending cbs
      → has_callback cb cbs ≡ true
      → let w' = (set_result f (val_of o) (exc_of o) w).0 in
        let w'' = remove_callback f cb w' in
        (h : ℕ) × (w'.handles h ≡ fresh_call (w.futs f).loop cb f)
        × ((w''.handles h).is_cancelled ≡ true)
        × ((k : ℕ) → (k == h) ≡ false → w''.handles k ≡ w'.handles k)
        × ((result f w'').1 ≡ read_back o)
  remove_settled w f o cbs cb k p m =
      let (h, found, low, high, made) = handle_of-handles_from w (w.futs f).loop f cb cbs m in
      rw (set_result-pending w f o cbs k p) (
        rw
          (remove_callback-finished_by (settled w f o cbs) f o cb (handles_from w.next_handle cbs) h
            (ground arith) found)
          (
            h,
            made,
            ground arith,
            (λ j ne. ground arith),
            result-finished_by _ f o (pop_from cb (handles_from w.next_handle cbs)) (ground arith),
          ))

  set_result_ok :
      (w : World V) (f : ℕ) (v : V)
      → (set_result f (some v) none w).1 ≡ ok tt
      → set_result f (some v) none w ≡ base_set_result f (some v) none w
  unfolding set_result task_set_result
  set_result_ok w f v h = ground arith

  base_set_result_read :
      (w : World V) (f : ℕ) (v : V)
      → (base_set_result f (some v) none w).1 ≡ ok tt
      → (result f (base_set_result f (some v) none w).0).1 ≡ ok v
  unfolding base_set_result
  base_set_result_read w f v h = elim (Option-cases (waiting_callbacks (state w f))) [
    | inl e ↦ absurd (ground arith)
    | inr (cbs, e) ↦ rw (base_set_result_lem w f (returns v) cbs e) (
        result-finished_by (settled w f (returns v) cbs) f (returns v)
          (handles_from w.next_handle cbs) (ground arith))
  ]

  -- A value that was set without an exception is what `result` returns.
  pub set_result_read :
      (w : World V) (f : ℕ) (v : V)
      → (set_result f (some v) none w).1 ≡ ok tt
      → (result f (set_result f (some v) none w).0).1 ≡ ok v
  set_result_read w f v h =
      let same = set_result_ok w f v h in
      ap (λ m. (result f m.0).1) same ∙ base_set_result_read w f v (sym (ap (λ m. m.1) same) ∙ h)
