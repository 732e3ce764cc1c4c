-- ===== src/Networking/Ends.antt =====
-- aio/loop/pure/networking.py: the loops that retry a call of a socket come to an end.
use aio.Prelude.{
  ℕ, zero, suc, ◌+◌, ◌-◌, ◌≤◌, ◌<◌, ◌≡◌, ◌≢◌, subst, refl, ap, sym, ◌∙◌, Option, none, some, List,
  [], ◌++◌, arith, ◌==◌, ◌⊎◌, Bool-cases, inl, inr, length, take, drop, length-drop,
}
use mathlib.Core.List.{append-nil}
use mathlib.Core.Path.{ap₂}
use aio.Exceptions.{Exc, Result, ok, raised}
use aio.Networking.{
  Attempt, blocks, gives, fails, after_wait, after_send, write_from, sock_write_all, retry,
}
use aio.Networking.Write.{SendsPart, sock_write_all-Written}

-- The socket is ready in the end: `send` blocks only in rounds before `b`, and else takes
-- something.
abbrev pub IsReadyFrom : {V : Type 0} → ℕ → (ℕ → List V → Attempt ℕ) → Type 0
IsReadyFrom {V} b send =
    (k : ℕ) (d : List V)
    → 0 < length d
    → ((send k d ≡ blocks) × (k < b)) ⊎ ((n : ℕ) × (send k d ≡ gives (suc n)))

after_wait_ok :
    {V : Type 0} (w : Result (Unit {0})) (taken : List V) (m : List V × Option (Result (Unit {0})))
    → w ≡ ok tt
    → (after_wait w taken m).1 ≡ m.1
after_wait_ok w taken m e = rw e refl

module _ {V : Type 0} (send : ℕ → List V → Attempt ℕ) (wait : ℕ → Result (Unit {0})) where
  write_from_ends :
      (b : ℕ)
      → SendsPart send
      → IsReadyFrom b send
      → ((k : ℕ) → wait k ≡ ok tt)
      → (fuel k s : ℕ) (xs : List V) → s ≤ length xs
      → (b - k) + (length xs - s) < fuel
      → (write_from send wait fuel k s xs).1 ≡ some (ok tt)
  unfolding write_from after_send
  write_from_ends b law ready waits zero k s xs le lt = absurd (omega (arith, lt))
  write_from_ends b law ready waits (suc fuel) k s xs le lt = elim (Bool-cases (s == length xs)) [
    | inl done ↦ rw (done, write_from) refl
    | inr more ↦
        let left = length-drop s xs le in
        (elim (ready k (drop s xs) (ground (arith, left))) [
          | inl (blocked, early) ↦
              rw (more, write_from)
                (rw (blocked, after_send)
                  (after_wait_ok (wait k) [] (write_from send wait fuel (suc k) s xs) (waits k)
                    ∙ write_from_ends b law ready waits fuel (suc k) s xs le (omega arith)))
          | inr (n, sent) ↦
              let part = law k (drop s xs) (suc n) sent in
              (elim (Bool-cases (s + suc n == length xs)) [
                | inl last ↦
                    rw (more, write_from) (rw (sent, after_send) (rw (last, after_send) refl))
                | inr not_last ↦
                    rw (more, write_from)
                      (rw (sent, after_send)
                        (rw (not_last, after_send)
                          (after_wait_ok (wait k) (take (suc n) (drop s xs))
                              (write_from send wait fuel (suc k) (s + suc n) xs) (waits k)
                            ∙ write_from_ends b law ready waits fuel (suc k) (s + suc n) xs
                                (omega (arith, left, part)) (omega (arith, left, part)))))
              ])
        ])
  ]

  -- If the system takes at most what it is given, blocks only in the first `b` rounds and takes
  -- something in any other, and no wait raises, then `sock_write_all` returns after at most `b`
  -- rounds and one for each byte, and the system has taken all of the data.
  pub sock_write_all_ends :
      (b fuel : ℕ) (xs : List V)
      → SendsPart send
      → IsReadyFrom b send
      → ((k : ℕ) → wait k ≡ ok tt)
      → b + length xs < fuel
      → sock_write_all send wait fuel xs ≡ (xs, some (ok tt))
  unfolding sock_write_all
  sock_write_all_ends b fuel xs law ready waits lt =
      let ends = write_from_ends b law ready waits fuel 0 0 xs (omega arith) (omega arith) in
      let (rest, whole, all) = sock_write_all-Written send wait fuel xs law in
      ap₂ (λ t r. (t, r))
        (sym (append-nil _)
          ∙ ap (λ r. (sock_write_all send wait fuel xs).0 ++ r) (sym (all ends))
          ∙ whole)
        ends

-- The outcome of an attempt that does not block.
abbrev pub outcome : {A : Type 0} → Attempt A → Option (Result A)
outcome blocks = none
outcome (gives a) = some (ok a)
outcome (fails e) = some (raised e)

module _ {A : Type 0} where
  Attempt-cases :
      (a : Attempt A) → (a ≡ blocks) ⊎ (((x : A) × (a ≡ gives x)) ⊎ ((e : Exc) × (a ≡ fails e)))
  Attempt-cases blocks = inl refl
  Attempt-cases (gives x) = inr (inl (x, refl))
  Attempt-cases (fails e) = inr (inr (e, refl))

module _ {A : Type 0} (attempt : ℕ → Attempt A) (wait : ℕ → Result (Unit {0})) where
  retry_now :
      (fuel k : ℕ) → attempt k ≢ blocks → retry attempt wait (suc fuel) k ≡ outcome (attempt k)
  unfolding retry
  retry_now fuel k answers = elim (Attempt-cases (attempt k)) [
    | inl blocked ↦ absurd (answers blocked)
    | inr (inl (x, e)) ↦ rw (e, retry) refl
    | inr (inr (x, e)) ↦ rw (e, retry) refl
  ]

  retry_from :
      (n fuel k m : ℕ)
      → m ≡ k + n
      → ((j : ℕ) → j < m → (attempt j ≡ blocks) × (wait j ≡ ok tt))
      → attempt m ≢ blocks
      → n < fuel
      → retry attempt wait fuel k ≡ outcome (attempt m)
  unfolding retry
  retry_from n zero k m e before answers lt = absurd (omega (arith, lt))
  retry_from zero (suc fuel) k m e before answers lt =
      subst (λ j. retry attempt wait (suc fuel) j ≡ outcome (attempt m)) (omega (arith, e))
        (retry_now fuel m answers)
  retry_from (suc n) (suc fuel) k m e before answers lt =
      let (blocked, waited) = before k (omega (arith, e)) in
      rw (blocked, retry)
        (rw (waited, retry)
          (retry_from n fuel (suc k) m (omega (arith, e)) before answers (omega arith)))

  -- The loops of `sock_connect`, `sock_accept`, `sock_read` and `sock_write` end with the outcome
  -- of the first call that does not block, if the waits before it raise nothing.
  pub retry_ends :
      (n fuel : ℕ)
      → ((j : ℕ) → j < n → (attempt j ≡ blocks) × (wait j ≡ ok tt))
      → attempt n ≢ blocks
      → n < fuel
      → retry attempt wait fuel 0 ≡ outcome (attempt n)
  retry_ends n fuel before answers lt = retry_from n fuel 0 n (omega arith) before answers lt
