-- ===== src/Tests/Sockets.antt =====
-- The counts, watches and loops of the sockets at concrete inputs.
use aio.Prelude.{◌≡◌, ◌≢◌, ◌<◌, refl, ℕ, zero, suc, some, List, [], ◌∷◌, arith, inl, inr}
use aio.Exceptions.{ok, Result}
use aio.Networking.{
  Refs, opens, closes, RefOp, run_refs, ref_op, add_ref, remove_ref, Attempt, blocks, gives,
  sock_write_all,
}
use aio.Networking.Write.{SendsPart, Written, sock_write_all-Written}
use aio.Networking.Ends.{IsReadyFrom, sock_write_all_ends}

abbrev some_refs : Refs
some_refs = (3, 1) ∷ (4, 2) ∷ []

-- Two calls on 5, of which one ends, and the end of the call on 3.
abbrev some_calls : List RefOp
some_calls = opens 5 ∷ opens 5 ∷ closes 3 ∷ closes 5 ∷ []

refs_left : run_refs some_calls some_refs ≡ (4, 2) ∷ (5, 1) ∷ []
unfolding run_refs ref_op add_ref remove_ref
refs_left = refl

-- Blocks at first, and then takes at most two bytes.
abbrev slow_send : ℕ → List ℕ → Attempt ℕ
slow_send zero d = blocks
slow_send (suc k) [] = gives 0
slow_send (suc k) (x ∷ []) = gives 1
slow_send (suc k) (x ∷ y ∷ d) = gives 2

slow_send_part : SendsPart slow_send
slow_send_part zero d n e = cc
slow_send_part (suc k) [] n e = ground arith
slow_send_part (suc k) (x ∷ []) n e = ground arith
slow_send_part (suc k) (x ∷ y ∷ d) n e = ground arith

slow_send_ready : IsReadyFrom 1 slow_send
slow_send_ready zero d some_left = inl (refl, omega arith)
slow_send_ready (suc k) [] some_left = absurd (omega (arith, some_left))
slow_send_ready (suc k) (x ∷ []) some_left = inr (0, refl)
slow_send_ready (suc k) (x ∷ y ∷ d) some_left = inr (1, refl)

abbrev three_bytes : List ℕ
three_bytes = 7 ∷ 8 ∷ 9 ∷ []

abbrev fine_wait : ℕ → Result (Unit {0})
fine_wait k = ok tt

sock_write_all-Written_example :
    Written three_bytes (sock_write_all slow_send fine_wait 2 three_bytes)
sock_write_all-Written_example =
    sock_write_all-Written slow_send fine_wait 2 three_bytes slow_send_part

sock_write_all_ends_example :
    sock_write_all slow_send fine_wait 5 three_bytes ≡ (three_bytes, some (ok tt))
sock_write_all_ends_example =
    sock_write_all_ends slow_send fine_wait 1 5 three_bytes slow_send_part slow_send_ready
      (λ k. refl) (omega arith)

-- Blocks once and then reads 7.
abbrev late_read : ℕ → Attempt ℕ
late_read zero = blocks
late_read (suc k) = gives 7

late_read_before : (j : ℕ) → j < 1 → (late_read j ≡ blocks) × (fine_wait j ≡ ok tt)
late_read_before zero h = (refl, refl)
late_read_before (suc j) h = absurd (omega (arith, h))

late_read_answers : late_read 1 ≢ blocks
late_read_answers e = cc
