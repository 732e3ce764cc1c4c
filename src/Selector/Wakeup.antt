-- ===== src/Selector/Wakeup.antt =====
-- aio/loop/pure/networking.py: `_SelectorWakeupper`, the self-pipe by which other threads wake the selector.
-- The pair of sockets is an interface.
use aio.Prelude.{
  ℕ, suc, ◌-◌, ◌<◌, ◌≡◌, Bool, true, false, Option, none, some, List, [], ◌∷◌, ◌++◌, if◌then◌else◌,
}
use aio.Exceptions.{Exc, Result, ok, raised, key_error, runtime_error, blocking_io_error, os_error}
use aio.Selector.{Mask, Key, Selector, get_key, unregister, add_watch, stop_watch}

-- `socket.socketpair()`: `unread` is what was sent and not received. `send` is of one byte by the sender,
-- `recv` of at most so many by the receiver, which does not block.
pub record SocketPair (S : Type 0) : Type 0 where
  pub unread : S → ℕ
  pub send : S → S × Result (Unit {0})
  pub recv : ℕ → S → S × Result (Unit {0})
  pub close_sender : S → S × Result (Unit {0})
  pub close_receiver : S → S × Result (Unit {0})
  pub send-ok : (s : S) → (send s).1 ≡ ok tt → unread (send s).0 ≡ suc (unread s)
  pub send-raised : (s : S) (e : Exc) → (send s).1 ≡ raised e → unread (send s).0 ≡ unread s
  pub recv-ok :
      (n : ℕ) (s : S) → 0 < unread s → ((recv n s).1 ≡ ok tt) × (unread (recv n s).0 ≡ unread s - n)
  pub recv-empty : (n : ℕ) (s : S) → unread s ≡ 0 → recv n s ≡ (s, raised blocking_io_error)

-- The selector with its wakeupper: the receiver's fd, and the name of `_on_receiver_input`.
pub record Wakeable (S : Type 0) : Type 0 where
  pub selector : Selector
  pub pair : S
  pub receiver : ℕ
  pub on_input : ℕ

abbrev pub event_read : Mask
event_read = record { read = true; write = false }

-- `except OSError`: a BlockingIOError is one.
abbrev is_os_error : Exc → Bool
is_os_error os_error = true
is_os_error blocking_io_error = true
is_os_error _ = false

-- `except BlockingIOError`.
abbrev is_blocking : Exc → Bool
is_blocking blocking_io_error = true
is_blocking _ = false

abbrev pub receiver_key : ℕ → ℕ → Key
receiver_key receiver on_input = record {
  fd = receiver;
  events = event_read;
  watches = (record { needs = event_read; callback = on_input }) ∷ [];
}

-- `_init_self_pipe`: `register` of the standard selector raises KeyError for an fd that it has.
unfoldable pub init_self_pipe : {S : Type 0} → ℕ → ℕ → S → List Key → Result (Wakeable S)
init_self_pipe receiver on_input s keys = elim (get_key receiver keys) [
  | some k ↦ raised key_error
  | none ↦ ok (record {
    selector = record { keys = keys ++ receiver_key receiver on_input ∷ []; is_finalized = false };
    pair = s;
    receiver = receiver;
    on_input = on_input;
  })
]

-- What an `except` that catches the exceptions of `catches` leaves of a call.
unfoldable pub except_when :
    {S : Type 0} → (Exc → Bool) → S × Result (Unit {0}) → S × Result (Unit {0})
except_when catches (s, ok u) = (s, ok tt)
except_when catches (s, raised e) = if catches e then (s, ok tt) else (s, raised e)

-- What is done with an open selector: watches, wake-ups and the calls of `_on_receiver_input`.
pub data WakeOp : Type 0 where
  adds : ℕ → Mask → ℕ → WakeOp
  stops_watch : ℕ → Option Mask → Option ℕ → WakeOp
  wakes : WakeOp
  takes_input : WakeOp

module _ {S : Type 0} (pairs : SocketPair S) where
  -- `_SelectorWakeupper.wakeup`.
  unfoldable pub wakeup : Wakeable S → Wakeable S × Result (Unit {0})
  wakeup w = let (s, r) = except_when is_os_error (pairs.send w.pair) in (record w { pair = s }, r)

  -- `SelectorsEventsSelector.wakeup_thread_safe`.
  unfoldable pub wakeup_thread_safe : Wakeable S → Wakeable S × Result (Unit {0})
  wakeup_thread_safe w = if w.selector.is_finalized then (w, raised runtime_error) else wakeup w

  -- `_on_receiver_input`.
  unfoldable pub on_receiver_input : Wakeable S → Wakeable S × Result (Unit {0})
  on_receiver_input w =
      let (s, r) = except_when is_blocking (pairs.recv 1024 w.pair) in (record w { pair = s }, r)

  -- The loop of `close`: what is no OSError leaves it.
  close_sockets : S → S × Result (Unit {0})
  close_sockets s =
      let (s', r) = except_when is_os_error (pairs.close_sender s) in
      elim r [
        | raised e ↦ (s', raised e)
        | ok u ↦ except_when is_os_error (pairs.close_receiver s')
      ]

  -- `_SelectorWakeupper.close`: `unregister` raises KeyError for an fd that the selector does not have.
  close_wakeupper : Wakeable S → Wakeable S × Result (Unit {0})
  unfolding close_sockets
  close_wakeupper w = elim (get_key w.receiver w.selector.keys) [
    | none ↦ (w, raised key_error)
    | some k ↦
        let (s, r) = close_sockets w.pair in
        (
          record w {
            selector = record w.selector { keys = unregister w.receiver w.selector.keys };
            pair = s;
          },
          r,
        )
  ]

  -- `SelectorsEventsSelector.close`.
  unfoldable pub close_selector : Wakeable S → Wakeable S × Result (Unit {0})
  unfolding close_wakeupper
  close_selector w =
      let (w', r) =
        close_wakeupper (record w { selector = record w.selector { is_finalized = true } }) in
      elim r [
        | raised e ↦ (w', raised e)
        | ok u ↦ (record w' { selector = record w'.selector { keys = [] } }, ok tt)
      ]

  unfoldable pub wake_op : WakeOp → Wakeable S → Wakeable S
  wake_op (adds fd events cb) w = record w { selector = (add_watch fd events cb w.selector).0 }
  wake_op (stops_watch fd events cb) w = record w {
    selector = (stop_watch fd events cb w.selector).0;
  }
  wake_op wakes w = (wakeup_thread_safe w).0
  wake_op takes_input w = (on_receiver_input w).0

  unfoldable pub wake_ops : List WakeOp → Wakeable S → Wakeable S
  wake_ops [] w = w
  wake_ops (o ∷ os) w = wake_ops os (wake_op o w)
