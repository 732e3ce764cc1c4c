-- ===== src/Networking/Write.antt =====
-- aio/loop/pure/networking.py: what the loops that retry a call of a socket do.
use aio.Prelude.{
  ℕ, zero, suc, ◌+◌, ◌≤◌, ◌≡◌, refl, ap, ◌∙◌, Option, some, List, [], ◌++◌, arith, ◌==◌, ==_iff,
  Bool-cases, inl, inr, length, take, drop, take-drop, length-drop, length_zero,
}
use mathlib.Core.List.{append_assoc}
use aio.Exceptions.{Result, ok, raised}
use aio.Networking.{
  Attempt, blocks, gives, fails, taken_of, after_wait, after_send, write_from, sock_write_all,
}

-- Documentation of `socket.send`: "Returns the number of bytes sent", of those that it is given.
abbrev pub SendsPart : {V : Type 0} → (ℕ → List V → Attempt ℕ) → Type 0
SendsPart {V} send = (k : ℕ) (d : List V) (n : ℕ) → send k d ≡ gives n → n ≤ length d

-- What a loop that has sent a part leaves: `rest` of the slice, and nothing if it ended well.
abbrev pub Written : {V : Type 0} → List V → List V × Option (Result (Unit {0})) → Type 0
Written {V} slice (taken, r) =
    (rest : List V) × (taken ++ rest ≡ slice) × (r ≡ some (ok tt) → rest ≡ [])

after_wait-Written :
    {V : Type 0} (w : Result (Unit {0})) (taken slice later : List V)
    (m : List V × Option (Result (Unit {0})))
    → taken ++ later ≡ slice
    → Written later m
    → Written slice (after_wait w taken m)
after_wait-Written (raised e) taken slice later m h p = (later, h, (λ q. cc))
after_wait-Written (ok u) taken slice later m h (rest, whole, all) =
    (rest, rw append_assoc (ap (λ r. taken ++ r) whole ∙ h), all)

drop_all : {V : Type 0} (s : ℕ) (xs : List V) → s ≡ length xs → drop s xs ≡ []
drop_all s xs e = length_zero (drop s xs) (omega (arith, e, length-drop s xs (omega (arith, e))))

after_send-Written :
    {V : Type 0} (a : Attempt ℕ) (w : Result (Unit {0})) (s : ℕ) (xs : List V)
    (next : ℕ → List V × Option (Result (Unit {0})))
    → s ≤ length xs
    → ((n : ℕ) → a ≡ gives n → n ≤ length (drop s xs))
    → ((m : ℕ) → m ≤ length xs → Written (drop m xs) (next m))
    → Written (drop s xs) (after_send (a, taken_of a (drop s xs)) w s xs next)
unfolding after_send
after_send-Written (fails e) w s xs next le law ih = (drop s xs, refl, (λ q. cc))
after_send-Written blocks w s xs next le law ih =
    after_wait-Written w [] (drop s xs) (drop s xs) (next s) refl (ih s le)
after_send-Written (gives zero) w s xs next le law ih = (drop s xs, refl, (λ q. cc))
after_send-Written (gives (suc n)) w s xs next le law ih =
    let fits : s + suc n ≤ length xs = omega (arith, law (suc n) refl, length-drop s xs le) in
    elim (Bool-cases (s + suc n == length xs)) [
      | inl done ↦
          rw (done, after_send)
            (
              drop (s + suc n) xs,
              take-drop (suc n) s xs,
              (λ q. drop_all (s + suc n) xs ((==_iff (s + suc n) (length xs)).0 done)),
            )
      | inr more ↦
          rw (more, after_send)
            (after_wait-Written w (take (suc n) (drop s xs)) (drop s xs) (drop (s + suc n) xs)
              (next (s + suc n)) (take-drop (suc n) s xs) (ih (s + suc n) fits))
    ]

module _ {V : Type 0} (send : ℕ → List V → Attempt ℕ) (wait : ℕ → Result (Unit {0})) where
  write_from-Written :
      SendsPart send
      → (fuel k s : ℕ) (xs : List V) → s ≤ length xs
      → Written (drop s xs) (write_from send wait fuel k s xs)
  unfolding write_from
  write_from-Written law zero k s xs le = (drop s xs, refl, (λ q. cc))
  write_from-Written law (suc fuel) k s xs le = elim (Bool-cases (s == length xs)) [
    | inl done ↦
        rw (done, write_from)
          (drop s xs, refl, (λ q. drop_all s xs ((==_iff s (length xs)).0 done)))
    | inr more ↦
        rw (more, write_from)
          (after_send-Written (send k (drop s xs)) (wait k) s xs
            (λ m. write_from send wait fuel (suc k) m xs) le (λ n e. law k (drop s xs) n e)
            (λ m le'. write_from-Written law fuel (suc k) m xs le'))
  ]

  -- If each call of `send` takes at most what it is given, and takes that from its front, then what
  -- the calls of `sock_write_all` took in turn, whatever they answer and however the loop ends, is
  -- the data up to some place, in order and once, and all of it if `sock_write_all` returns.
  pub sock_write_all-Written :
      (fuel : ℕ) (xs : List V) → SendsPart send → Written xs (sock_write_all send wait fuel xs)
  unfolding sock_write_all
  sock_write_all-Written fuel xs law = write_from-Written law fuel 0 0 xs (omega arith)
