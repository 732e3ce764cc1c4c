-- ===== src/Selector/Watches.antt =====
-- aio/loop/pure/networking.py: which events of which watches are reported.
use mathlib.Core.List.{append_assoc}
use mathlib.Core.Path.{ap₂}
use aio.Prelude.{
  ◌≢◌, ℕ, ◌≡◌, refl, ap, sym, ◌∙◌, true, false, none, some, List, [], ◌∷◌, ◌++◌, arith,
  if◌then◌else◌, Bool-cases, Option-cases, inl, inr,
}
use aio.Exceptions.{ok}
use aio.Selector.{
  Mask, mask_and, is_some_event, Watch, Key, Selector, get_key, modify, unregister, has_watch,
  add_watch_to, remove_watch, reduce_or, add_to_key, add_watch, needed_by, watches_without,
  store_watches, stop_one, stop_by, stop_watch, IoCall, calls_of, ready_calls, select,
}

-- The call that a watch of `cb` on `fd` brings when `events` are ready.
abbrev pub call_for : ℕ → ℕ → Mask → IoCall
call_for cb fd events = record { callback = cb; fd = fd; events = events; exc = none }

ready_calls-append :
    (ready : ℕ → Mask) (ks ls : List Key)
    → ready_calls ready (ks ++ ls) ≡ ready_calls ready ks ++ ready_calls ready ls
unfolding ready_calls
ready_calls-append ready [] ls = refl
ready_calls-append ready (k ∷ ks) ls =
    elim (Bool-cases (is_some_event (mask_and (ready k.fd) k.events))) [
      | inl found ↦
          rw (found, ready_calls)
            (ap (λ r. calls_of k.fd (mask_and (ready k.fd) k.events) k.watches ++ r)
                (ready_calls-append ready ks ls)
              ∙ sym (
                  append_assoc (calls_of k.fd (mask_and (ready k.fd) k.events) k.watches)
                    (ready_calls ready ks) (ready_calls ready ls)))
      | inr none_found ↦ rw (none_found, ready_calls) (ready_calls-append ready ks ls)
    ]

abbrev first_key : ℕ → ℕ → Mask → Key
first_key fd cb events = record {
  fd = fd;
  events = events;
  watches = (record { needs = events; callback = cb }) ∷ [];
}

add_watch-first :
    (fd cb : ℕ) (events : Mask) (s : Selector)
    → s.is_finalized ≡ false
    → get_key fd s.keys ≡ none
    → add_watch fd events cb s ≡ (record s { keys = s.keys ++ first_key fd cb events ∷ [] }, ok tt)
unfolding add_watch
add_watch-first fd cb events s open_ h = ground arith

select-ok :
    (ready : ℕ → Mask) (s : Selector) {before : List IoCall}
    → select none ready s ≡ ok before
    → (s.is_finalized ≡ false) × (ready_calls ready s.keys ≡ before)
unfolding select
select-ok ready s q = ground arith

ready_calls-first :
    (fd cb : ℕ) (events : Mask) (ready : ℕ → Mask)
    → ready_calls ready (first_key fd cb events ∷ []) ≡ (
        if is_some_event (mask_and (ready fd) events)
        then call_for cb fd (mask_and (ready fd) events) ∷ []
        else [])
unfolding ready_calls calls_of
ready_calls-first fd cb events ready = ground arith

-- The first watch of a file descriptor: what `select` finds is what it found before, and after it
-- one call of the callback exactly if one of the events that it watches for is ready.
pub first_watch_reported :
    (fd cb : ℕ) (events : Mask) (ready : ℕ → Mask) (s : Selector) {before : List IoCall}
    → get_key fd s.keys ≡ none
    → select none ready s ≡ ok before
    → let (s', r) = add_watch fd events cb s in
      let found = mask_and (ready fd) events in
      (r ≡ ok tt)
      × (select none ready s'
          ≡ ok (before ++ (if is_some_event found then call_for cb fd found ∷ [] else [])))
unfolding select
first_watch_reported fd cb events ready s {before} h q =
    let (open_, was) = select-ok ready s {before = before} q in
    let key = first_key fd cb events in
    rw (add_watch-first fd cb events s open_ h) (
      refl,
      rw open_ (
          ap ok (
            ready_calls-append ready s.keys (key ∷ [])
            ∙ ap₂ (λ a b. a ++ b) was (ready_calls-first fd cb events ready))),
    )

abbrev pub AllDisjoint : Mask → List Watch → Type 0
AllDisjoint events [] = Unit {0}
AllDisjoint events (w ∷ ws) =
    (is_some_event (mask_and events w.needs) ≡ false) × AllDisjoint events ws

reduce_or-disjoint :
    (events : Mask) (ws : List Watch) (m : Mask)
    → AllDisjoint events ws
    → reduce_or ws ≡ some m
    → is_some_event (mask_and events m) ≡ false
unfolding reduce_or
reduce_or-disjoint events [] m d e = cc
reduce_or-disjoint events (w ∷ []) m d e = ground arith
reduce_or-disjoint events (w ∷ x ∷ ws) m d e = elim (Option-cases (reduce_or (x ∷ ws))) [
  | inl nothing ↦ ground arith
  | inr (rest, some_rest) ↦ ground (arith, reduce_or-disjoint events (x ∷ ws) rest d.1 some_rest)
]

get_key-modify :
    (fd : ℕ) (new : Key) (ks : List Key) {k : Key}
    → get_key fd ks ≡ some k
    → new.fd ≡ fd
    → get_key fd (modify fd new ks) ≡ some new
unfolding get_key modify
get_key-modify fd new [] h e = cc
get_key-modify fd new (x ∷ ks) {k} h e = ground (arith, get_key-modify fd new ks {k = k})

has_watch-append : (w : Watch) (ws : List Watch) → has_watch w (ws ++ w ∷ []) ≡ true
unfolding has_watch
has_watch-append w [] = ground arith
has_watch-append w (x ∷ ws) = ground (arith, has_watch-append w ws)

has_watch-add_watch_to : (w : Watch) (ws : List Watch) → has_watch w (add_watch_to w ws) ≡ true
unfolding add_watch_to
has_watch-add_watch_to w ws = elim (Bool-cases (has_watch w ws)) [
  | inl old ↦ rw old old
  | inr new ↦ rw new (has_watch-append w ws)
]

pub get_key-fd : (fd : ℕ) (ks : List Key) {k : Key} → get_key fd ks ≡ some k → k.fd ≡ fd
unfolding get_key
get_key-fd fd [] h = cc
get_key-fd fd (x ∷ ks) {k} h = ground (arith, get_key-fd fd ks {k = k})

add_watch-more :
    (fd cb : ℕ) (events : Mask) (s : Selector) (k : Key) (m : Mask)
    → s.is_finalized ≡ false
    → get_key fd s.keys ≡ some k
    → reduce_or k.watches ≡ some m
    → add_watch fd events cb s ≡ (
      record s {
        keys =
            modify fd
              (record k {
                events = m;
                watches = add_watch_to (record { needs = events; callback = cb }) k.watches;
              })
              s.keys;
      },
      ok tt,
    )
unfolding add_watch add_to_key
add_watch-more fd cb events s k m open_ h e = ground arith

add_watch-empty :
    (fd cb : ℕ) (events : Mask) (s : Selector) (k : Key)
    → s.is_finalized ≡ false
    → get_key fd s.keys ≡ some k
    → reduce_or k.watches ≡ none
    → (add_watch fd events cb s).1 ≢ ok tt
unfolding add_watch add_to_key
add_watch-empty fd cb events s k open_ h e = ground arith

-- A further watch on a file descriptor that is watched, for events that none of the watches before
-- needs: it is kept with the key, but the key is not polled for any of its events, so that those
-- alone never bring a call.
pub second_watch_missed :
    (fd cb : ℕ) (events : Mask) (s : Selector) (k : Key)
    → s.is_finalized ≡ false
    → get_key fd s.keys ≡ some k
    → AllDisjoint events k.watches
    → (add_watch fd events cb s).1 ≡ ok tt
    → (k' : Key) × (get_key fd (add_watch fd events cb s).0.keys ≡ some k')
      × (has_watch (record { needs = events; callback = cb }) k'.watches ≡ true)
      × (is_some_event (mask_and events k'.events) ≡ false)
second_watch_missed fd cb events s k open_ h d fine = elim (Option-cases (reduce_or k.watches)) [
  | inl nothing ↦ absurd (add_watch-empty fd cb events s k open_ h nothing fine)
  | inr (m, some_m) ↦
      let w : Watch = record { needs = events; callback = cb } in
      let new : Key = record k { events = m; watches = add_watch_to w k.watches } in
      rw (add_watch-more fd cb events s k m open_ h some_m) (
        new,
        get_key-modify fd new s.keys h (get_key-fd fd s.keys h),
        has_watch-add_watch_to w k.watches,
        reduce_or-disjoint events k.watches m d some_m,
      )
]

unregister-append :
    (fd : ℕ) (ks : List Key) (new : Key)
    → get_key fd ks ≡ none
    → new.fd ≡ fd
    → unregister fd (ks ++ new ∷ []) ≡ ks
unfolding get_key unregister
unregister-append fd [] new h e = ground arith
unregister-append fd (k ∷ ks) new h e = ground (arith, unregister-append fd ks new)

get_key-append :
    (fd : ℕ) (ks : List Key) (new : Key)
    → get_key fd ks ≡ none
    → new.fd ≡ fd
    → get_key fd (ks ++ new ∷ []) ≡ some new
unfolding get_key
get_key-append fd [] new h e = ground arith
get_key-append fd (k ∷ ks) new h e = ground (arith, get_key-append fd ks new)

watches_without-only :
    (cb : ℕ) (events : Mask)
    → is_some_event events ≡ true
    → watches_without events cb ((record { needs = events; callback = cb }) ∷ []) ≡ []
unfolding watches_without needed_by remove_watch
watches_without-only cb events e = ground arith

stop_one-first :
    (fd cb : ℕ) (events : Mask) (s : Selector)
    → get_key fd s.keys ≡ none
    → is_some_event events ≡ true
    → stop_one fd events cb (record s { keys = s.keys ++ first_key fd cb events ∷ [] }) ≡ s
unfolding stop_one store_watches
stop_one-first fd cb events s h e = ground (
  arith,
  get_key-append fd s.keys (first_key fd cb events) h refl,
  unregister-append fd s.keys (first_key fd cb events) h refl,
  watches_without-only cb events e,
)

stop_watch-open :
    (fd cb : ℕ) (events : Mask) (s : Selector)
    → s.is_finalized ≡ false
    → stop_watch fd (some events) (some cb) s ≡ (stop_one fd events cb s, ok tt)
unfolding stop_watch stop_by
stop_watch-open fd cb events s open_ = ground arith

-- To watch a file descriptor that is not watched, and to stop the watch, leaves the selector as it
-- was.
pub stop_watch-add_watch :
    (fd cb : ℕ) (events : Mask) (s : Selector)
    → s.is_finalized ≡ false
    → get_key fd s.keys ≡ none
    → is_some_event events ≡ true
    → stop_watch fd (some events) (some cb) (add_watch fd events cb s).0 ≡ (s, ok tt)
stop_watch-add_watch fd cb events s open_ h e =
    let s' : Selector = record s { keys = s.keys ++ first_key fd cb events ∷ [] } in
    rw (add_watch-first fd cb events s open_ h) (
      stop_watch-open fd cb events s' open_
      ∙ ap (λ x. (x, ok tt)) (stop_one-first fd cb events s h e))

pub stop_watch_fd :
    (fd : ℕ) (s : Selector)
    → s.is_finalized ≡ false
    → stop_watch fd none none s ≡ (record s { keys = unregister fd s.keys }, ok tt)
unfolding stop_watch stop_by
stop_watch_fd fd s open_ = ground arith
