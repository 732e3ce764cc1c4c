-- ===== src/Channel/Refine.antt =====
-- aio/channel.py: what it is for a call of a channel to be a step of the abstract queue of its
-- contents.
pub mod Gets
pub mod Puts
pub mod Runs
use aio.Prelude.{ℕ, ◌≡◌, refl, Option, some, none, List, [], ◌∷◌, ◌++◌, if◌then◌else◌, ◌==◌}
use aio.Exceptions.{Result, ok, raised}
use aio.World.{World}
use aio.Future.{result}
use aio.Promises.{Started, at_once, waiting}
use aio.Channel.{Queue, Chan, get_no_wait, put_no_wait}
use aio.Channel.Async.{get_start, put_start}
use aio.Channel.Errors.{settle_error}
use aio.Channel.Invariant.{
  Call, gets_now, puts_now, gets, resumes_get, puts, resumes_put, closes, elsewhere, exec,
}
use aio.Channel.Fifo.{contents}
use aio.Channel.Spec.{Label, Follows, pushes_of, pops_of, withdrawals_of}

module _ {T : Type 0} where
  abbrev pub if_ok : Result (Unit {0}) → T → List T
  if_ok (ok u) e = e ∷ []
  if_ok (raised x) e = []

  abbrev pub if_started : Result (Started (Unit {0})) → T → List T
  if_started (ok s) e = e ∷ []
  if_started (raised x) e = []

  abbrev pub returned : Result T → List T
  returned (ok e) = e ∷ []
  returned (raised x) = []

  abbrev pub returned_at_once : Result (Started T) → List T
  returned_at_once (ok (at_once e)) = e ∷ []
  returned_at_once (ok (waiting p)) = []
  returned_at_once (raised x) = []

  -- The element that a call puts into the channel: that of a put that does not raise.
  abbrev pub accepted : Call T → Chan T → List T
  accepted (puts_now e) c = if_ok (put_no_wait e c).1 e
  accepted (puts l e) c = if_started (put_start l e c).1 e
  accepted gets_now c = []
  accepted (gets l) c = []
  accepted (resumes_get p how) c = []
  accepted (resumes_put p how) c = []
  accepted closes c = []
  accepted (elsewhere w) c = []

  -- What a getter gets from its promise.
  abbrev pub given : Result (Option T) → List T
  given (ok (some e)) = e ∷ []
  given (ok none) = []
  given (raised x) = []

  -- A put that does not raise hands something to the first getter that waits: the result that the
  -- getter's promise has in the store after it.
  abbrev pub handed : List ℕ → World (Option T) → List T → List T
  handed [] w es = []
  handed (p ∷ ps) w [] = []
  handed (p ∷ ps) w (e ∷ es) = given (result p w).1

  -- The element that a call takes out: the one that a get returns, and the one that a put hands to
  -- a getter that waits.
  abbrev pub delivered : Call T → Chan T → List T
  delivered gets_now c = returned (get_no_wait c).1
  delivered (gets l) c = returned_at_once (get_start l c).1
  delivered (puts_now e) c =
      handed c.queue.read_waiters (put_no_wait e c).0.world (if_ok (put_no_wait e c).1 e)
  delivered (puts l e) c =
      handed c.queue.read_waiters (put_start l e c).0.world (if_started (put_start l e c).1 e)
  delivered (resumes_get p how) c = []
  delivered (resumes_put p how) c = []
  delivered closes c = []
  delivered (elsewhere w) c = []

  -- The element that a `get` withdraws which raises what setting the result of a promise raised:
  -- that of the first putter that waits, whom it removed.
  abbrev pub dropped : Result T → List (T × ℕ) → List T
  dropped (raised x) ((e, p) ∷ ws) = if settle_error x then e ∷ [] else []
  dropped r ws = []

  abbrev pub element_of : ℕ → List (T × ℕ) → List T
  element_of p [] = []
  element_of p ((e, q) ∷ ws) = if q == p then e ∷ [] else element_of p ws

  -- The element that a call withdraws: that of a putter whose wait ends, if it still waits, and
  -- that of a putter whose promise cannot be settled.
  abbrev pub lost : Call T → Chan T → List T
  lost gets_now c = dropped (get_no_wait c).1 c.queue.write_waiters
  lost (gets l) c = dropped (get_no_wait c).1 c.queue.write_waiters
  lost (resumes_put p how) c = element_of p c.queue.write_waiters
  lost (puts_now e) c = []
  lost (puts l e) c = []
  lost (resumes_get p how) c = []
  lost closes c = []
  lost (elsewhere w) c = []

  -- What a call does to the contents of a channel is what labels say; what they push is what the
  -- call puts in, what they pop is what it takes out, and what they withdraw is what it loses.
  pub record Implements (ins outs gone : List T) (q q' : Queue T) : Type 0 where
    pub labels : List (Label T)
    pub follows : Follows labels (contents q) (contents q')
    pub ins_eq : pushes_of labels ≡ ins
    pub outs_eq : pops_of labels ≡ outs
    pub gone_eq : withdrawals_of labels ≡ gone

  pub nothing : {q q' : Queue T} → contents q ≡ contents q' → Implements [] [] [] q q'
  nothing h = record { labels = []; follows = h; ins_eq = refl; outs_eq = refl; gone_eq = refl }

  -- What a sequence of calls puts in, takes out and loses, in order.
  abbrev pub all_of : (Call T → Chan T → List T) → List (Call T) → Chan T → List T
  all_of f [] c = []
  all_of f (k ∷ ks) c = f k c ++ all_of f ks (exec k c)
