-- ===== src/Networking.antt =====
-- aio/loop/pure/networking.py: `SelectorNetworking`, the counts of the sockets that are in use and
-- the loops that retry a call of a socket that is not ready. What the system answers is an
-- argument.
pub mod Refs
pub mod Write
pub mod Ends
pub mod Close
pub mod Events
use aio.Prelude.{
  ℕ, zero, suc, ◌+◌, ◌-◌, Bool, true, false, Option, none, some, List, [], ◌∷◌, ◌++◌, ltb, leb,
  ◌==◌, ◌&&◌, if◌then◌else◌, length, take, drop,
}
use aio.Exceptions.{Exc, Result, ok, raised, assertion_error, socket_configuration_error}
use aio.Selector.{Selector, stop_watch}

-- What `fileno` returns: nothing, a number below 0 (of a closed socket), or a number.
pub data Fileno : Type 0 where
  no_fileno below_zero : Fileno
  fileno : ℕ → Fileno

-- `SocketLike`: a number, a socket with its blocking mode, or an object with a `fileno`.
pub data SocketLike : Type 0 where
  number : Fileno → SocketLike
  std_socket : Fileno → Bool → SocketLike
  with_fileno : Fileno → SocketLike

check_fileno : Fileno → Result ℕ
check_fileno no_fileno = raised socket_configuration_error
check_fileno below_zero = raised socket_configuration_error
check_fileno (fileno n) = if n == 0 then raised socket_configuration_error else ok n

-- `_check_socket`.
unfoldable pub check_socket : SocketLike → Result ℕ
unfolding check_fileno
check_socket (number f) = check_fileno f
check_socket (with_fileno f) = check_fileno f
check_socket (std_socket f is_blocking) = elim (check_fileno f) [
  | raised e ↦ raised e
  | ok n ↦ if is_blocking then raised socket_configuration_error else ok n
]

-- `_managed_sockets_refs`, in the order of its items.
abbrev pub Refs : Type 0
Refs = List (ℕ × ℕ)

-- `refs[fd]` of the defaultdict.
unfoldable pub count : ℕ → Refs → ℕ
count fd [] = 0
count fd ((k, n) ∷ refs) = if k == fd then n else count fd refs

-- `refs[fd] += 1`, at the start of `_manage_sock` and for a connection that is accepted.
unfoldable pub add_ref : ℕ → Refs → Refs
add_ref fd [] = (fd, 1) ∷ []
add_ref fd ((k, n) ∷ refs) = if k == fd then (k, suc n) ∷ refs else (k, n) ∷ add_ref fd refs

-- The end of `_manage_sock`. A descriptor that is missing gets -1 and is deleted at once.
unfoldable pub remove_ref : ℕ → Refs → Refs
remove_ref fd [] = []
remove_ref fd ((k, n) ∷ refs) =
    if k == fd then (if leb n 1 then refs else (k, n - 1) ∷ refs) else (k, n) ∷ remove_ref fd refs

-- What the calls of several tasks do to the counts, in the order in which it happens.
pub data RefOp : Type 0 where
  opens closes : ℕ → RefOp

unfoldable pub ref_op : RefOp → Refs → Refs
ref_op (opens fd) refs = add_ref fd refs
ref_op (closes fd) refs = remove_ref fd refs

unfoldable pub run_refs : List RefOp → Refs → Refs
run_refs [] refs = refs
run_refs (o ∷ os) refs = run_refs os (ref_op o refs)

-- `SelectorNetworking.close`: what `stop_watch` raises ends the loop.
unfoldable pub close_watches : Refs → Selector → Selector × Result (Unit {0})
close_watches [] s = (s, ok tt)
close_watches ((fd, n) ∷ refs) s =
    let rest = close_watches refs s in
    let after = close_watches refs (stop_watch fd none none s).0 in
    if ltb 0 n && ltb 0 fd
    then (elim (stop_watch fd none none s).1 [
      | raised e ↦ ((stop_watch fd none none s).0, raised e)
      | ok u ↦ after
    ])
    else rest

-- What a call of a socket that does not block comes to; `blocks` is its BlockingIOError.
pub data Attempt (A : Type 0) : Type 0 where
  blocks : Attempt A
  gives : A → Attempt A
  fails : Exc → Attempt A

-- The loop of `sock_connect`, `sock_accept`, `sock_read` and `sock_write`: `attempt k` is what the
-- call comes to in round `k`, and `wait k` how the wait for the socket after it ends. `none` is
-- that the loop goes on after the rounds given.
unfoldable pub retry :
    {A : Type 0} → (ℕ → Attempt A) → (ℕ → Result (Unit {0})) → ℕ → ℕ → Option (Result A)
retry attempt wait zero k = none
retry attempt wait (suc fuel) k = elim (attempt k) [
  | gives a ↦ some (ok a)
  | fails e ↦ some (raised e)
  | blocks ↦ (elim (wait k) [ raised e ↦ some (raised e) | ok u ↦ retry attempt wait fuel (suc k) ])
]

-- After a wait: what it raises leaves the loop.
abbrev pub after_wait :
    {V : Type 0}
    → Result (Unit {0})
    → List V
    → List V × Option (Result (Unit {0}))
    → List V × Option (Result (Unit {0}))
after_wait (raised e) taken rest = (taken, some (raised e))
after_wait (ok u) taken rest = (taken ++ rest.0, rest.1)

-- What the system takes of `d`, which a call of `send` is given.
abbrev pub taken_of : {V : Type 0} → Attempt ℕ → List V → List V
taken_of (gives n) d = take n d
taken_of blocks d = []
taken_of (fails e) d = []

-- A call of `send` on `d` in round `k`: how it ends, and what was taken.
abbrev pub call_send : {V : Type 0} → (ℕ → List V → Attempt ℕ) → ℕ → List V → Attempt ℕ × List V
call_send send k d = (send k d, taken_of (send k d) d)

-- A round of `sock_write_all` from its call of `send` on; `next` is the loop from a number of bytes
-- sent.
pub after_send :
    {V : Type 0}
    → Attempt ℕ × List V
    → Result (Unit {0})
    → ℕ
    → List V
    → (ℕ → List V × Option (Result (Unit {0})))
    → List V × Option (Result (Unit {0}))
after_send (fails e, part) w sent data_ next = (part, some (raised e))
after_send (blocks, part) w sent data_ next = after_wait w part (next sent)
after_send (gives zero, part) w sent data_ next = (part, some (raised assertion_error))
after_send (gives (suc n), part) w sent data_ next = elim (sent + suc n == length data_) [
  | true ↦ (part, some (ok tt))
  | false ↦ after_wait w part (next (sent + suc n))
]

-- The loop of `sock_write_all`, with what the system took of the data beside its outcome. `send k
-- d` is what the call of `send` on `d` comes to in round `k`.
unfoldable pub write_from :
    {V : Type 0}
    → (ℕ → List V → Attempt ℕ)
    → (ℕ → Result (Unit {0}))
    → ℕ
    → ℕ
    → ℕ
    → List V
    → List V × Option (Result (Unit {0}))
unfolding after_send
write_from send wait zero k sent data_ = ([], none)
write_from send wait (suc fuel) k sent data_ = elim (sent == length data_) [
  | true ↦ ([], some (ok tt))
  | false ↦
      after_send (call_send send k (drop sent data_)) (wait k) sent data_
        (λ m. write_from send wait fuel (suc k) m data_)
]

-- `sock_write_all`.
unfoldable pub sock_write_all :
    {V : Type 0}
    → (ℕ → List V → Attempt ℕ)
    → (ℕ → Result (Unit {0}))
    → ℕ
    → List V
    → List V × Option (Result (Unit {0}))
sock_write_all send wait fuel data_ = write_from send wait fuel 0 0 data_
