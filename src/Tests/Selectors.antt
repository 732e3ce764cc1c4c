-- ===== src/Tests/Selectors.antt =====
-- The watches of a selector at concrete inputs.
use aio.Prelude.{
  suc, List, ◌-◌, ltb, arith, ◌≡◌, refl, ℕ, true, false, none, some, [], ◌∷◌, ◌==◌, if◌then◌else◌,
}
use aio.Exceptions.{Exc, ok, raised, blocking_io_error}
use aio.Selector.{
  Mask, mask_and, is_some_event, Key, Selector, get_key, has_watch, add_watch, select, IoCall,
}
use mathlib.Core.List.{Mem}
use aio.Selector.Wakeup.{
  SocketPair, Wakeable, event_read, receiver_key, init_self_pipe, WakeOp, adds, wakes, stops_watch,
  takes_input, wake_ops, wakeup_thread_safe, on_receiver_input,
}
use aio.Selector.Keys.{failed_call_for}
use aio.Selector.Woken.{wakeup_reported}
use aio.Selector.Watches.{second_watch_missed, call_for}

abbrev reads : Mask
reads = record { read = true; write = false }

abbrev writes : Mask
writes = record { read = false; write = true }

-- The fd 3 is watched for reading.
abbrev read_key : Key
read_key = record {
  fd = 3;
  events = reads;
  watches = (record { needs = reads; callback = 1 }) ∷ [];
}

abbrev one_key : Selector
one_key = record { keys = read_key ∷ []; is_finalized = false }

abbrev all_ready : ℕ → Mask
all_ready fd = record { read = true; write = fd == 4 }

second_watch_missed_example :
    (k' : Key) × (get_key 3 (add_watch 3 writes 2 one_key).0.keys ≡ some k')
    × (has_watch (record { needs = writes; callback = 2 }) k'.watches ≡ true)
    × (is_some_event (mask_and writes k'.events) ≡ false)
unfolding add_watch get_key
second_watch_missed_example =
    second_watch_missed 3 2 writes one_key read_key refl refl (refl, tt) refl

-- A pair of sockets that counts.
counting_pair : SocketPair ℕ
counting_pair = record {
  unread = λ s. s;
  send = λ s. (suc s, ok tt);
  recv = λ n s. if s == 0 then (s, raised blocking_io_error) else (s - n, ok tt);
  close_sender = λ s. (s, ok tt);
  close_receiver = λ s. (s, ok tt);
  send-ok = λ s e. refl;
  send-raised = λ s x e. cc;
  recv-ok = λ n s h. ground arith;
  recv-empty = λ n s h. ground arith;
}

abbrev sleeper : Wakeable ℕ
sleeper = record {
  selector = record { keys = read_key ∷ receiver_key 5 9 ∷ []; is_finalized = false };
  pair = 0;
  receiver = 5;
  on_input = 9;
}

sleeper_made : init_self_pipe 5 9 0 (read_key ∷ []) ≡ ok sleeper
unfolding init_self_pipe get_key
sleeper_made = refl

abbrev around_wakeup : List WakeOp
around_wakeup = adds 4 writes 2 ∷ wakes ∷ stops_watch 3 none none ∷ []

wakeup_reported_example :
    let ops = takes_input ∷ around_wakeup in
    let w' =
      wake_ops counting_pair around_wakeup
        (wakeup_thread_safe counting_pair (wake_ops counting_pair ops sleeper)).0 in
    ((all_ready 5).read ≡ ltb 0 (counting_pair.unread w'.pair)
      → (calls : List IoCall) × (select none all_ready w'.selector ≡ ok calls)
        × Mem (call_for 9 5 event_read) calls)
    × ((e : Exc)
        → (calls : List IoCall) × (select (some e) all_ready w'.selector ≡ ok calls)
          × Mem (failed_call_for 9 5 e) calls)
    × ((on_receiver_input counting_pair w').1 ≡ ok tt)
    × (counting_pair.unread (on_receiver_input counting_pair w').0.pair
        ≡ counting_pair.unread w'.pair - 1024)
unfolding get_key counting_pair
wakeup_reported_example =
    wakeup_reported counting_pair sleeper (takes_input ∷ around_wakeup) around_wakeup all_ready
      (refl, refl) (refl, (omega arith, (omega arith, tt))) (omega arith, (omega arith, tt)) refl
