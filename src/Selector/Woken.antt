-- ===== src/Selector/Woken.antt =====
-- aio/loop/pure/networking.py: what a wake-up of the selector brings.
use mathlib.Core.List.{Mem}
use aio.Prelude.{
  ℕ, ◌-◌, ◌<◌, ◌≤◌, ◌≡◌, ◌≢◌, refl, sym, ap, ◌∙◌, Bool, true, false, none, some, List, [], ◌∷◌, ltb,
  arith, Bool-cases, inl, inr, subst,
}
use aio.Exceptions.{Exc, Result, ok, raised}
use aio.Selector.{Mask, Key, Selector, IoCall, ready_calls, failed_calls, select}
use aio.Selector.Wakeup.{
  SocketPair, Wakeable, event_read, receiver_key, except_when, wakeup, wakeup_thread_safe,
  on_receiver_input, WakeOp, adds, stops_watch, wakes, takes_input, wake_op, wake_ops,
}
use aio.Selector.Watches.{call_for}
use aio.Selector.Keys.{
  HasKey, failed_call_for, add_watch-HasKey, stop_watch-HasKey, ready_calls-mem, failed_calls-mem,
}

module _ {S : Type 0} (pairs : SocketPair S) where
  -- The receiver is watched.
  abbrev pub IsWatched : Wakeable S → Type 0
  IsWatched w = HasKey (receiver_key w.receiver w.on_input) w.selector

  -- Operations on other fds than the receiver's; `input` says whether the receiver's callback may run.
  abbrev pub AreOther : Bool → ℕ → List WakeOp → Type 0
  AreOther input receiver [] = Unit {0}
  AreOther input receiver (adds fd events cb ∷ os) = (fd ≢ receiver) × AreOther input receiver os
  AreOther input receiver (stops_watch fd events cb ∷ os) =
      (fd ≢ receiver) × AreOther input receiver os
  AreOther input receiver (wakes ∷ os) = AreOther input receiver os
  AreOther input receiver (takes_input ∷ os) = (input ≡ true) × AreOther input receiver os

  except_when-fst :
      (catches : Exc → Bool) (m : S × Result (Unit {0})) → (except_when catches m).0 ≡ m.0
  unfolding except_when
  except_when-fst catches (s, ok u) = refl
  except_when-fst catches (s, raised e) = elim (Bool-cases (catches e)) [
    | inl c ↦ rw c refl
    | inr c ↦ rw c refl
  ]

  -- A send adds a byte or nothing.
  send-unread : (s : S) → pairs.unread s ≤ pairs.unread (pairs.send s).0
  send-unread s = go (pairs.send s).1 refl
    where
      go :
          (r : Result (Unit {0}))
          → (pairs.send s).1 ≡ r
          → pairs.unread s ≤ pairs.unread (pairs.send s).0
      go (ok tt) e = omega (arith, pairs.send-ok s e)
      go (raised x) e = omega (arith, pairs.send-raised s x e)

  wakeup-pair : (w : Wakeable S) → (wakeup pairs w).0.pair ≡ (pairs.send w.pair).0
  unfolding wakeup
  wakeup-pair w = except_when-fst _ (pairs.send w.pair)

  wakeup-selector : (w : Wakeable S) → (wakeup pairs w).0.selector ≡ w.selector
  unfolding wakeup
  wakeup-selector w = refl

  -- An open selector passes the wake-up on.
  wakeup_open :
      (w : Wakeable S)
      → w.selector.is_finalized ≡ false
      → wakeup_thread_safe pairs w ≡ wakeup pairs w
  unfolding wakeup_thread_safe
  wakeup_open w e = ground arith

  wake_op-HasKey :
      (k : Key) (input : Bool) (o : WakeOp) (w : Wakeable S)
      → HasKey k w.selector
      → AreOther input k.fd (o ∷ [])
      → HasKey k (wake_op pairs o w).selector
  unfolding wake_op on_receiver_input
  wake_op-HasKey k input (adds fd events cb) w h a =
      add_watch-HasKey k fd events cb w.selector a.0 h
  wake_op-HasKey k input (stops_watch fd events cb) w h a =
      stop_watch-HasKey k fd events cb w.selector a.0 h
  wake_op-HasKey k input wakes w h a =
      subst (HasKey k) (sym (ap (λ x. x.0.selector) (wakeup_open w h.0) ∙ wakeup-selector w)) h
  wake_op-HasKey k input takes_input w h a = h

  AreOther-cons :
      (input : Bool) (receiver : ℕ) (o : WakeOp) (os : List WakeOp)
      → AreOther input receiver (o ∷ os)
      → AreOther input receiver (o ∷ []) × AreOther input receiver os
  AreOther-cons input receiver (adds fd events cb) os a = ((a.0, tt), a.1)
  AreOther-cons input receiver (stops_watch fd events cb) os a = ((a.0, tt), a.1)
  AreOther-cons input receiver wakes os a = (tt, a)
  AreOther-cons input receiver takes_input os a = ((a.0, tt), a.1)

  wake_ops-HasKey :
      (k : Key) (input : Bool) (os : List WakeOp) (w : Wakeable S)
      → HasKey k w.selector
      → AreOther input k.fd os
      → HasKey k (wake_ops pairs os w).selector
  unfolding wake_ops
  wake_ops-HasKey k input [] w h a = h
  wake_ops-HasKey k input (o ∷ os) w h a =
      let (first, more) = AreOther-cons input k.fd o os a in
      wake_ops-HasKey k input os (wake_op pairs o w) (wake_op-HasKey k input o w h first) more

  wakeup_thread_safe-unread :
      (w : Wakeable S) → pairs.unread w.pair ≤ pairs.unread (wakeup_thread_safe pairs w).0.pair
  unfolding wakeup_thread_safe
  wakeup_thread_safe-unread w = elim (Bool-cases w.selector.is_finalized) [
    | inl e ↦ rw (e, wakeup_thread_safe) (omega arith)
    | inr e ↦ rw (wakeup_open w e) (rw (wakeup-pair w) (send-unread w.pair))
  ]

  -- What does not take the input leaves it there.
  wake_op-unread :
      (o : WakeOp) (w : Wakeable S) (receiver : ℕ)
      → AreOther false receiver (o ∷ [])
      → pairs.unread w.pair ≤ pairs.unread (wake_op pairs o w).pair
  unfolding wake_op
  wake_op-unread (adds fd events cb) w receiver a = omega arith
  wake_op-unread (stops_watch fd events cb) w receiver a = omega arith
  wake_op-unread wakes w receiver a = wakeup_thread_safe-unread w
  wake_op-unread takes_input w receiver a = cc

  wake_ops-unread :
      (os : List WakeOp) (w : Wakeable S) (receiver : ℕ)
      → AreOther false receiver os
      → pairs.unread w.pair ≤ pairs.unread (wake_ops pairs os w).pair
  unfolding wake_ops
  wake_ops-unread [] w receiver a = omega arith
  wake_ops-unread (o ∷ os) w receiver a =
      let (first, more) = AreOther-cons false receiver o os a in
      omega (
        arith,
        wake_op-unread o w receiver first,
        wake_ops-unread os (wake_op pairs o w) receiver more,
      )

  except_when-ok :
      (catches : Exc → Bool) (m : S × Result (Unit {0}))
      → m.1 ≡ ok tt
      → (except_when catches m).1 ≡ ok tt
  unfolding except_when
  except_when-ok catches (s, ok u) e = refl
  except_when-ok catches (s, raised x) e = cc

  -- What the receiver's callback leaves, when there is something to read.
  on_receiver_input-unread :
      (w : Wakeable S)
      → 0 < pairs.unread w.pair
      → ((on_receiver_input pairs w).1 ≡ ok tt)
        × (pairs.unread (on_receiver_input pairs w).0.pair ≡ pairs.unread w.pair - 1024)
  unfolding on_receiver_input
  on_receiver_input-unread w there =
      let (fine, left) = pairs.recv-ok 1024 w.pair there in
      (
        except_when-ok _ (pairs.recv 1024 w.pair) fine,
        ap pairs.unread (except_when-fst _ (pairs.recv 1024 w.pair)) ∙ left,
      )

  select-mem :
      (receiver on_input : ℕ) (ready : ℕ → Mask) (s : Selector)
      → HasKey (receiver_key receiver on_input) s
      → (ready receiver).read ≡ true
      → (calls : List IoCall) × (select none ready s ≡ ok calls)
        × Mem (call_for on_input receiver event_read) calls
  unfolding select
  select-mem receiver on_input ready s h e =
      (ready_calls ready s.keys, rw h.0 refl, ready_calls-mem receiver on_input ready s.keys h.1 e)

  select-failed :
      (receiver on_input : ℕ) (ready : ℕ → Mask) (s : Selector) (e : Exc)
      → HasKey (receiver_key receiver on_input) s
      → (calls : List IoCall) × (select (some e) ready s ≡ ok calls)
        × Mem (failed_call_for on_input receiver e) calls
  unfolding select
  select-failed receiver on_input ready s e h =
      (failed_calls e s.keys, rw h.0 refl, failed_calls-mem e receiver on_input s.keys h.1)

  sent :
      (w : Wakeable S)
      → w.selector.is_finalized ≡ false
      → (pairs.send w.pair).1 ≡ ok tt
      → 0 < pairs.unread (wakeup_thread_safe pairs w).0.pair
  sent w open_ fine =
      rw (wakeup_open w open_) (rw (wakeup-pair w) (omega (arith, pairs.send-ok w.pair fine)))

  -- In an open selector that watches its receiver, whatever is done with the watches of other fds
  -- before and after: once `wakeup_thread_safe` has sent its byte, and until the receiver's
  -- callback has run, each `select` has a call of that callback, if the poll finds the receiver
  -- readable just when there is something to read, and also if the poll fails. The callback then
  -- takes 1024 wake-ups, or all if they are fewer.
  pub wakeup_reported :
      (w : Wakeable S) (before after : List WakeOp) (ready : ℕ → Mask)
      → IsWatched w
      → AreOther true w.receiver before
      → AreOther false w.receiver after
      → (pairs.send (wake_ops pairs before w).pair).1 ≡ ok tt
      → let w' = wake_ops pairs after (wakeup_thread_safe pairs (wake_ops pairs before w)).0 in
        ((ready w.receiver).read ≡ ltb 0 (pairs.unread w'.pair)
          → (calls : List IoCall) × (select none ready w'.selector ≡ ok calls)
            × Mem (call_for w.on_input w.receiver event_read) calls)
        × ((e : Exc)
            → (calls : List IoCall) × (select (some e) ready w'.selector ≡ ok calls)
              × Mem (failed_call_for w.on_input w.receiver e) calls)
        × ((on_receiver_input pairs w').1 ≡ ok tt)
        × (pairs.unread (on_receiver_input pairs w').0.pair ≡ pairs.unread w'.pair - 1024)
  wakeup_reported w before after ready h b a fine =
      let k = receiver_key w.receiver w.on_input in
      let asleep = wake_ops pairs before w in
      let woken = (wakeup_thread_safe pairs asleep).0 in
      let w' = wake_ops pairs after woken in
      let first : HasKey k asleep.selector = wake_ops-HasKey k true before w h b in
      let still : HasKey k w'.selector =
        wake_ops-HasKey k false after woken
          (subst (HasKey k)
            (sym (ap (λ x. x.0.selector) (wakeup_open asleep first.0) ∙ wakeup-selector asleep))
            first)
          a in
      let there : 0 < pairs.unread w'.pair =
        omega (arith, sent asleep first.0 fine, wake_ops-unread after woken w.receiver a) in
      let (taken, left) = on_receiver_input-unread w' there in
      (
        (λ r. select-mem w.receiver w.on_input ready w'.selector still (r ∙ ground (arith, there))),
        (λ e. select-failed w.receiver w.on_input ready w'.selector e still),
        taken,
        left,
      )
