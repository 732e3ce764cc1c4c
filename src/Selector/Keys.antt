-- ===== src/Selector/Keys.antt =====
-- aio/loop/pure/networking.py: what operations on other fds leave of a key of the selector.
use mathlib.Core.List.{Mem, mem-cons_self, mem-append_right}
use aio.Prelude.{
  ℕ, ◌≡◌, ◌≢◌, refl, sym, ◌∙◌, true, false, Option, none, some, List, [], ◌∷◌, ◌++◌, ◌==◌, arith,
  Bool-cases, Option-cases, inl, inr, subst,
}
use aio.Exceptions.{Exc}
use aio.Selector.{
  Mask, mask_and, is_some_event, Watch, Key, Selector, get_key, modify, unregister, add_to_key,
  add_watch, reduce_or, store_watches, stop_one, stop_by, stop_watch, IoCall, calls_of, ready_calls,
  failed_calls, failed_of,
}
use aio.Selector.Wakeup.{event_read, receiver_key}
use aio.Selector.Watches.{call_for, get_key-fd}

-- The key of another fd.
get_key-append_other :
    (fd : ℕ) (k : Key) (ks ls : List Key) → get_key fd ks ≡ some k → get_key fd (ks ++ ls) ≡ some k
unfolding get_key
get_key-append_other fd k [] ls h = cc
get_key-append_other fd k (x ∷ ks) ls h = ground (arith, get_key-append_other fd k ks ls)

get_key-modify_other :
    (fd other : ℕ) (new : Key) (ks : List Key)
    → other ≢ fd
    → new.fd ≡ other
    → get_key fd (modify other new ks) ≡ get_key fd ks
unfolding get_key modify
get_key-modify_other fd other new [] ne e = refl
get_key-modify_other fd other new (x ∷ ks) ne e =
    ground (arith, get_key-modify_other fd other new ks)

get_key-unregister_other :
    (fd other : ℕ) (ks : List Key) → other ≢ fd → get_key fd (unregister other ks) ≡ get_key fd ks
unfolding get_key unregister
get_key-unregister_other fd other [] ne = refl
get_key-unregister_other fd other (x ∷ ks) ne = ground (arith, get_key-unregister_other fd other ks)

-- The selector is open and has the key.
abbrev pub HasKey : Key → Selector → Type 0
HasKey k s = (s.is_finalized ≡ false) × (get_key k.fd s.keys ≡ some k)

add_to_key-HasKey :
    (k : Key) (other : ℕ) (events : Mask) (cb : ℕ) (old : Key) (s : Selector)
    → other ≢ k.fd
    → old.fd ≡ other
    → HasKey k s
    → HasKey k (add_to_key other (record { needs = events; callback = cb }) old s).0
unfolding add_to_key
add_to_key-HasKey k other events cb old s ne e h = elim (Option-cases (reduce_or old.watches)) [
  | inl nothing ↦ rw (nothing, add_to_key) h
  | inr (m, some_m) ↦
      rw (some_m, add_to_key) (h.0, get_key-modify_other k.fd other _ s.keys ne e ∙ h.1)
]

pub add_watch-HasKey :
    (k : Key) (other : ℕ) (events : Mask) (cb : ℕ) (s : Selector)
    → other ≢ k.fd
    → HasKey k s
    → HasKey k (add_watch other events cb s).0
unfolding add_watch
add_watch-HasKey k other events cb s ne h = elim (Option-cases (get_key other s.keys)) [
  | inl new ↦ rw (h.0, new) (h.0, get_key-append_other k.fd k s.keys _ h.1)
  | inr (old, there) ↦
      rw (h.0, there)
        (add_to_key-HasKey k other events cb old s ne (get_key-fd other s.keys there) h)
]

store_watches-HasKey :
    (k : Key) (other : ℕ) (old : Key) (ws : List Watch) (s : Selector)
    → other ≢ k.fd
    → old.fd ≡ other
    → HasKey k s
    → HasKey k (store_watches other old ws s)
unfolding store_watches
store_watches-HasKey k other old [] s ne e h =
    (h.0, get_key-unregister_other k.fd other s.keys ne ∙ h.1)
store_watches-HasKey k other old (w ∷ ws) s ne e h =
    (h.0, get_key-modify_other k.fd other _ s.keys ne e ∙ h.1)

stop_one-HasKey :
    (k : Key) (other : ℕ) (events : Mask) (cb : ℕ) (s : Selector)
    → other ≢ k.fd
    → HasKey k s
    → HasKey k (stop_one other events cb s)
unfolding stop_one
stop_one-HasKey k other events cb s ne h = elim (Option-cases (get_key other s.keys)) [
  | inl gone ↦ rw (gone, stop_one) h
  | inr (old, there) ↦
      rw (there, stop_one)
        (store_watches-HasKey k other old _ s ne (get_key-fd other s.keys there) h)
]

stop_by-HasKey :
    (k : Key) (other : ℕ) (events : Option Mask) (cb : Option ℕ) (s : Selector)
    → other ≢ k.fd
    → HasKey k s
    → HasKey k (stop_by events cb other s).0
unfolding stop_by
stop_by-HasKey k other none none s ne h = (h.0, get_key-unregister_other k.fd other s.keys ne ∙ h.1)
stop_by-HasKey k other (some events) (some cb) s ne h = stop_one-HasKey k other events cb s ne h
stop_by-HasKey k other none (some cb) s ne h = h
stop_by-HasKey k other (some events) none s ne h = h

pub stop_watch-HasKey :
    (k : Key) (other : ℕ) (events : Option Mask) (cb : Option ℕ) (s : Selector)
    → other ≢ k.fd
    → HasKey k s
    → HasKey k (stop_watch other events cb s).0
unfolding stop_watch
stop_watch-HasKey k other events cb s ne h = simp h.0 (stop_by-HasKey k other events cb s ne h)

get_key-head :
    (fd : ℕ) (k : Key) (ks : List Key) {x : Key}
    → (k.fd == fd) ≡ true
    → get_key fd (k ∷ ks) ≡ some x
    → k ≡ x
unfolding get_key
get_key-head fd k ks {x} e h = ground arith

get_key-tail :
    (fd : ℕ) (k : Key) (ks : List Key) {x : Key}
    → (k.fd == fd) ≡ false
    → get_key fd (k ∷ ks) ≡ some x
    → get_key fd ks ≡ some x
unfolding get_key
get_key-tail fd k ks {x} e h = ground arith

ready_calls-receiver :
    (receiver on_input : ℕ) (ready : ℕ → Mask) (ks : List Key)
    → (ready receiver).read ≡ true
    → ready_calls ready (receiver_key receiver on_input ∷ ks)
      ≡ call_for on_input receiver event_read ∷ ready_calls ready ks
unfolding ready_calls calls_of
ready_calls-receiver receiver on_input ready ks e = ground arith

-- A key comes with its calls, or without.
ready_calls-more :
    (c : IoCall) (ready : ℕ → Mask) (k : Key) (ks : List Key)
    → Mem c (ready_calls ready ks)
    → Mem c (ready_calls ready (k ∷ ks))
unfolding ready_calls
ready_calls-more c ready k ks m =
    elim (Bool-cases (is_some_event (mask_and (ready k.fd) k.events))) [
      | inl e ↦ rw e (mem-append_right (calls_of k.fd (mask_and (ready k.fd) k.events) k.watches) m)
      | inr e ↦ rw e m
    ]

-- The key is reported.
pub ready_calls-mem :
    (receiver on_input : ℕ) (ready : ℕ → Mask) (ks : List Key)
    → get_key receiver ks ≡ some (receiver_key receiver on_input)
    → (ready receiver).read ≡ true
    → Mem (call_for on_input receiver event_read) (ready_calls ready ks)
unfolding get_key
ready_calls-mem receiver on_input ready [] h e = cc
ready_calls-mem receiver on_input ready (k ∷ ks) h e = elim (Bool-cases (k.fd == receiver)) [
  | inl same ↦
      subst (λ x. Mem (call_for on_input receiver event_read) (ready_calls ready (x ∷ ks)))
        (sym (get_key-head receiver k ks same h))
        (rw (ready_calls-receiver receiver on_input ready ks e) mem-cons_self)
  | inr other ↦
      ready_calls-more _ ready k ks
        (ready_calls-mem receiver on_input ready ks (get_key-tail receiver k ks other h) e)
]

-- The call that tells a callback of a failed poll.
abbrev pub failed_call_for : ℕ → ℕ → Exc → IoCall
failed_call_for cb fd e = record {
  callback = cb;
  fd = fd;
  events = record { read = false; write = false };
  exc = some e;
}

pub failed_calls-mem :
    (e : Exc) (receiver on_input : ℕ) (ks : List Key)
    → get_key receiver ks ≡ some (receiver_key receiver on_input)
    → Mem (failed_call_for on_input receiver e) (failed_calls e ks)
unfolding get_key failed_calls failed_of
failed_calls-mem e receiver on_input [] h = cc
failed_calls-mem e receiver on_input (k ∷ ks) h = elim (Bool-cases (k.fd == receiver)) [
  | inl same ↦
      subst (λ x. Mem (failed_call_for on_input receiver e) (failed_calls e (x ∷ ks)))
        (sym (get_key-head receiver k ks same h)) mem-cons_self
  | inr other ↦
      mem-append_right (failed_of e k.fd k.watches)
        (failed_calls-mem e receiver on_input ks (get_key-tail receiver k ks other h))
]
