-- ===== src/Selector.antt =====
-- aio/loop/pure/networking.py: `SelectorsEventsSelector`, the watches of file descriptors on top of
-- a selector of the standard library. An event mask, built there of EVENT_READ and EVENT_WRITE, is
-- a pair of Booleans; callbacks are numbers.
pub mod Watches
pub mod Wakeup
pub mod Keys
pub mod Woken
use aio.Prelude.{
  ℕ, zero, suc, Bool, true, false, not, Option, none, some, List, [], ◌∷◌, ◌++◌, if◌then◌else◌,
  ◌&&◌, ◌||◌, ◌==◌,
}
use aio.Exceptions.{Exc, Result, ok, raised, runtime_error, value_error, type_error}

pub record Mask : Type 0 where
  pub read : Bool
  pub write : Bool

-- `a | b`, `a & b`, `a & ~b`, `a != 0`, `a == b`.
abbrev pub mask_or : Mask → Mask → Mask
mask_or a b = record { read = a.read || b.read; write = a.write || b.write }

abbrev pub mask_and : Mask → Mask → Mask
mask_and a b = record { read = a.read && b.read; write = a.write && b.write }

abbrev pub mask_without : Mask → Mask → Mask
mask_without a b = record { read = a.read && not b.read; write = a.write && not b.write }

abbrev pub is_some_event : Mask → Bool
is_some_event a = a.read || a.write

abbrev same_bit : Bool → Bool → Bool
same_bit true b = b
same_bit false b = not b

abbrev pub mask_eq : Mask → Mask → Bool
mask_eq a b = same_bit a.read b.read && same_bit a.write b.write

-- An element of `_SelectorKeyData`: the events that a callback needs.
pub record Watch : Type 0 where
  pub needs : Mask
  pub callback : ℕ

abbrev pub same_watch : Watch → Watch → Bool
same_watch a b = mask_eq a.needs b.needs && (a.callback == b.callback)

-- A key of the standard selector: the events it polls for, and the set of watches.
pub record Key : Type 0 where
  pub fd : ℕ
  pub events : Mask
  pub watches : List Watch

pub record Selector : Type 0 where
  pub keys : List Key
  pub is_finalized : Bool

-- The standard selector: `get_key` (none is its KeyError), `modify` and `unregister`.
unfoldable pub get_key : ℕ → List Key → Option Key
get_key fd [] = none
get_key fd (k ∷ ks) = if k.fd == fd then some k else get_key fd ks

unfoldable pub modify : ℕ → Key → List Key → List Key
modify fd new [] = []
modify fd new (k ∷ ks) = if k.fd == fd then new ∷ ks else k ∷ modify fd new ks

unfoldable pub unregister : ℕ → List Key → List Key
unregister fd [] = []
unregister fd (k ∷ ks) = if k.fd == fd then ks else k ∷ unregister fd ks

-- Sets of watches.
pub has_watch : Watch → List Watch → Bool
has_watch w [] = false
has_watch w (x ∷ xs) = if same_watch x w then true else has_watch w xs

pub add_watch_to : Watch → List Watch → List Watch
unfolding has_watch
add_watch_to w ws = if has_watch w ws then ws else ws ++ w ∷ []

pub remove_watch : Watch → List Watch → List Watch
remove_watch w [] = []
remove_watch w (x ∷ xs) = if same_watch x w then xs else x ∷ remove_watch w xs

-- `functools.reduce(lambda l, r: l | r, (e for e, _ in key.data))`: none is the TypeError of an
-- empty iterable.
pub reduce_or : List Watch → Option Mask
reduce_or [] = none
reduce_or (w ∷ []) = some w.needs
reduce_or (w ∷ x ∷ ws) = elim (reduce_or (x ∷ ws)) [
  | none ↦ none
  | some m ↦ some (mask_or w.needs m)
]

-- `add_watch` on an fd that is registered with the key `k`. The mask is made of the watches that
-- were there before.
add_to_key : ℕ → Watch → Key → Selector → Selector × Result (Unit {0})
unfolding reduce_or add_watch_to
add_to_key fd w k s = elim (reduce_or k.watches) [
  | none ↦ (s, raised type_error)
  | some m ↦ (
    record s {
      keys = modify fd (record k { events = m; watches = add_watch_to w k.watches }) s.keys;
    },
    ok tt,
  )
]

-- The `ValueError` of `register` for an empty mask is left out.
unfoldable pub add_watch : ℕ → Mask → ℕ → Selector → Selector × Result (Unit {0})
unfolding add_to_key
add_watch fd events cb s =
    if s.is_finalized then (s, raised runtime_error) else (elim (get_key fd s.keys) [
      | none ↦ (
        record s {
          keys =
              s.keys
              ++ (record {
                fd = fd;
                events = events;
                watches = (record { needs = events; callback = cb }) ∷ [];
              })
                ∷ [];
        },
        ok tt,
      )
      | some k ↦ add_to_key fd (record { needs = events; callback = cb }) k s
    ])

-- The loop of `stop_watch`: the events of the last watch of the callback that it comes to.
pub needed_by : ℕ → List Watch → Option Mask
needed_by cb [] = none
needed_by cb (w ∷ ws) = elim (needed_by cb ws) [
  | some m ↦ some m
  | none ↦ if w.callback == cb then some w.needs else none
]

-- What `stop_watch` leaves of the watches of a key.
pub watches_without : Mask → ℕ → List Watch → List Watch
unfolding needed_by remove_watch add_watch_to
watches_without events cb ws = elim (needed_by cb ws) [
  | none ↦ ws
  | some m ↦
      let left = remove_watch (record { needs = m; callback = cb }) ws in
      if not (is_some_event m)
      then ws
      else if is_some_event (mask_without m events)
      then add_watch_to (record { needs = mask_without m events; callback = cb }) left
      else left
]

unfoldable store_watches : ℕ → Key → List Watch → Selector → Selector
store_watches fd k [] s = record s { keys = unregister fd s.keys }
store_watches fd k (w ∷ ws) s = record s { keys = modify fd (record k { watches = w ∷ ws }) s.keys }

stop_one : ℕ → Mask → ℕ → Selector → Selector
unfolding store_watches watches_without
stop_one fd events cb s = elim (get_key fd s.keys) [
  | none ↦ s
  | some k ↦ store_watches fd k (watches_without events cb k.watches) s
]

-- `stop_watch`: of one callback, or, with neither events nor callback, of the whole fd.
stop_by : Option Mask → Option ℕ → ℕ → Selector → Selector × Result (Unit {0})
unfolding stop_one
stop_by none none fd s = (record s { keys = unregister fd s.keys }, ok tt)
stop_by (some events) (some cb) fd s = (stop_one fd events cb s, ok tt)
stop_by none (some cb) fd s = (s, raised value_error)
stop_by (some events) none fd s = (s, raised value_error)

unfoldable pub stop_watch : ℕ → Option Mask → Option ℕ → Selector → Selector × Result (Unit {0})
unfolding stop_by
stop_watch fd events cb s =
    if s.is_finalized then (s, raised runtime_error) else stop_by events cb fd s

-- A call that `select` returns: the callback, the fd, the events, and whether the poll failed.
pub record IoCall : Type 0 where
  pub callback : ℕ
  pub fd : ℕ
  pub events : Mask
  pub exc : Option Exc

unfoldable calls_of : ℕ → Mask → List Watch → List IoCall
calls_of fd events [] = []
calls_of fd events (w ∷ ws) =
    if is_some_event (mask_and events w.needs)
    then (record { callback = w.callback; fd = fd; events = events; exc = none })
      ∷ calls_of fd events ws
    else calls_of fd events ws

-- The keys that the standard selector reports when the system has the fds ready that `ready` says:
-- those that have an event that they poll for.
unfoldable ready_calls : (ℕ → Mask) → List Key → List IoCall
unfolding calls_of
ready_calls ready [] = []
ready_calls ready (k ∷ ks) =
    let rest = ready_calls ready ks in
    let found = mask_and (ready k.fd) k.events in
    if is_some_event found then calls_of k.fd found k.watches ++ rest else rest

unfoldable failed_of : Exc → ℕ → List Watch → List IoCall
failed_of e fd [] = []
failed_of e fd (w ∷ ws) =
    (record {
      callback = w.callback;
      fd = fd;
      events = record { read = false; write = false };
      exc = some e;
    })
    ∷ failed_of e fd ws

-- Every callback of the map is told of the `OSError`.
unfoldable failed_calls : Exc → List Key → List IoCall
unfolding failed_of
failed_calls e [] = []
failed_calls e (k ∷ ks) = failed_of e k.fd k.watches ++ failed_calls e ks

-- `select`: the poll fails with an `OSError`, or finds the fds ready that `ready` says.
unfoldable pub select : Option Exc → (ℕ → Mask) → Selector → Result (List IoCall)
unfolding ready_calls failed_calls
select failure ready s = if s.is_finalized then raised runtime_error else (elim failure [
  | some e ↦ ok (failed_calls e s.keys)
  | none ↦ ok (ready_calls ready s.keys)
])
