-- ===== src/Scheduler/Times.antt =====
-- aio/loop/pure/scheduler.py: how often a handle stands in a queue.
use mathlib.Core.List.Perm
use mathlib.Core.List.{Permᴰ}
use mathlib.Core.Logic.{∥∥₁_elim}
use native.Mathlib.Nat.{ℕ_set}
use aio.Prelude.{
  ℕ, ◌+◌, ◌≤◌, ◌≡◌, refl, ap, ◌∙◌, Option, none, some, List, [], ◌∷◌, ◌++◌, arith, if◌then◌else◌,
  ◌==◌, Perm,
}
use aio.Prelude.{true, leb, Bool-cases, inl, inr, ==_iff, ◌<◌}
use aio.World.{Handle}
use aio.Scheduler.{PriorityQueue, enqueue, enqueue_as, pop_pending, live_of, is_live}
use aio.Scheduler.Heap.{Entry, Heapq, IsHeap, All}
use aio.Scheduler.Pop.{items}
use aio.Scheduler.Agree.{due_of}
use aio.Scheduler.Pending.{pop_pending-Popped}

abbrev pub times : ℕ → List ℕ → ℕ
times h [] = 0
times h (x ∷ xs) = (if x == h then 1 else 0) + times h xs

pub times-append : (h : ℕ) (xs ys : List ℕ) → times h (xs ++ ys) ≡ times h xs + times h ys
times-append h [] ys = omega arith
times-append h (x ∷ xs) ys = omega (arith, times-append h xs ys)

times-Permᴰ : (h : ℕ) {xs ys : List ℕ} → Permᴰ xs ys → times h xs ≡ times h ys
times-Permᴰ h Permᴰ.nil = refl
times-Permᴰ h (Permᴰ.cons e p) = grind (arith, times-Permᴰ h p)
times-Permᴰ h (Permᴰ.swap e f) = grind (arith, e, f)
times-Permᴰ h (Permᴰ.trans p q) = times-Permᴰ h p ∙ times-Permᴰ h q

pub times-Perm : (h : ℕ) {xs ys : List ℕ} → Perm xs ys → times h xs ≡ times h ys
times-Perm h {xs} {ys} t = ∥∥₁_elim t (ℕ_set (times h xs) (times h ys)) (λ d. times-Permᴰ h d)

pub times-live_of :
    (handles : ℕ → Handle) (h : ℕ) (xs : List ℕ) → times h (live_of handles xs) ≤ times h xs
times-live_of handles h [] = omega arith
times-live_of handles h (x ∷ xs) = ground (arith, times-live_of handles h xs)

times-live_of-is_live :
    (handles : ℕ → Handle) (h : ℕ) (xs : List ℕ)
    → is_live handles h ≡ true
    → times h (live_of handles xs) ≡ times h xs
times-live_of-is_live handles h [] live = refl
times-live_of-is_live handles h (x ∷ xs) live =
    grind (arith, ==_iff x h, times-live_of-is_live handles h xs live)

-- How often the handle waits in the queue.
abbrev pub waiting : ℕ → PriorityQueue ℕ → ℕ
waiting h q = times h q.min_priority + times h (items q.prioritized)

module _ (hq : Heapq ℕ) where
  waiting-enqueue_as :
      (p : Option ℕ) (x h : ℕ) (q : PriorityQueue ℕ) (priority_fn : ℕ → Option ℕ)
      → priority_fn x ≡ p
      → waiting h (enqueue hq priority_fn x q) ≡ (if x == h then 1 else 0) + waiting h q
  unfolding enqueue enqueue_as
  waiting-enqueue_as none x h q priority_fn e =
      rw (e, enqueue) (omega (arith, times-append h q.min_priority (x ∷ [])))
  waiting-enqueue_as (some p) x h q priority_fn e =
      let entry : Entry ℕ = record { priority = p; seq = q.next_id; item = x } in
      rw (e, enqueue)
        (omega
          (arith, times-Perm h (Perm.map (λ y. y.item) (hq.heappush-perm q.prioritized entry))))

  -- A handle that is enqueued waits once more.
  pub waiting-enqueue :
      (priority_fn : ℕ → Option ℕ) (x h : ℕ) (q : PriorityQueue ℕ)
      → waiting h (enqueue hq priority_fn x q) ≡ (if x == h then 1 else 0) + waiting h q
  waiting-enqueue priority_fn x h q = waiting-enqueue_as (priority_fn x) x h q priority_fn refl

  soon-enqueue_as :
      (p : Option ℕ) (x h : ℕ) (q : PriorityQueue ℕ) (priority_fn : ℕ → Option ℕ)
      → priority_fn x ≡ p
      → times h q.min_priority ≤ times h (enqueue hq priority_fn x q).min_priority
  unfolding enqueue enqueue_as
  soon-enqueue_as none x h q priority_fn e =
      rw (e, enqueue) (omega (arith, times-append h q.min_priority (x ∷ [])))
  soon-enqueue_as (some p) x h q priority_fn e = rw (e, enqueue) (omega arith)

  -- What was to be called soon still is.
  pub soon-enqueue :
      (priority_fn : ℕ → Option ℕ) (x h : ℕ) (q : PriorityQueue ℕ)
      → times h q.min_priority ≤ times h (enqueue hq priority_fn x q).min_priority
  soon-enqueue priority_fn x h q = soon-enqueue_as (priority_fn x) x h q priority_fn refl

  -- One that has no time is to be called soon.
  pub soon-enqueue-none :
      (priority_fn : ℕ → Option ℕ) (x : ℕ) (q : PriorityQueue ℕ)
      → priority_fn x ≡ none
      → 1 + times x q.min_priority ≤ times x (enqueue hq priority_fn x q).min_priority
  unfolding enqueue enqueue_as
  soon-enqueue-none priority_fn x q e =
      rw (e, enqueue) (ground (arith, times-append x q.min_priority (x ∷ []), ==_iff x x))

  times-items :
      (h : ℕ) (xs ys : List (Entry ℕ))
      → times h (items (xs ++ ys)) ≡ times h (items xs) + times h (items ys)
  times-items h [] ys = omega arith
  times-items h (x ∷ xs) ys = omega (arith, times-items h xs ys)

  -- What is popped waits no more.
  pub waiting-pop_pending :
      (handles : ℕ → Handle) (threshold h : ℕ) (q : PriorityQueue ℕ)
      → IsHeap q.prioritized
      → let (q', taken) = pop_pending hq handles threshold q in
        times h taken + waiting h q' ≤ waiting h q
  waiting-pop_pending handles threshold h q i =
      let (ready, eq, empty, popped) = pop_pending-Popped hq handles threshold q i in
      omega (
        arith,
        ap (times h) eq,
        ap (times h) empty,
        ap (times h) popped.ready_items,
        times-append h (live_of handles q.min_priority) (live_of handles ready),
        times-live_of handles h q.min_priority,
        times-live_of handles h ready,
        times-items h popped.entries (pop_pending hq handles threshold q).0.prioritized,
        times-Perm h (Perm.map (λ y. y.item) popped.together),
      )

  -- And what is live is not lost.
  pub waiting-pop_pending-is_live :
      (handles : ℕ → Handle) (threshold h : ℕ) (q : PriorityQueue ℕ)
      → IsHeap q.prioritized
      → is_live handles h ≡ true
      → let (q', taken) = pop_pending hq handles threshold q in
        times h taken + waiting h q' ≡ waiting h q
  waiting-pop_pending-is_live handles threshold h q i live =
      let (ready, eq, empty, popped) = pop_pending-Popped hq handles threshold q i in
      omega (
        arith,
        ap (times h) eq,
        ap (times h) empty,
        ap (times h) popped.ready_items,
        times-append h (live_of handles q.min_priority) (live_of handles ready),
        times-live_of-is_live handles h q.min_priority live,
        times-live_of-is_live handles h ready live,
        times-items h popped.entries (pop_pending hq handles threshold q).0.prioritized,
        times-Perm h (Perm.map (λ y. y.item) popped.together),
      )

module _ (threshold : ℕ) (h : ℕ) where
  -- How often the handle is due.
  unfoldable pub due_times : List (Entry ℕ) → ℕ
  due_times xs = times h (items (due_of threshold xs))

  due_once : Entry ℕ → ℕ
  due_once a = if leb a.priority threshold then (if a.item == h then 1 else 0) else 0

  due_times-cons :
      (a : Entry ℕ) (xs : List (Entry ℕ)) → due_times (a ∷ xs) ≡ due_once a + due_times xs
  unfolding due_times due_once
  due_times-cons a xs = elim (Bool-cases (leb a.priority threshold)) [
    | inl now ↦ rw now refl
    | inr late ↦ rw late (omega arith)
  ]

  due_times-nil : due_times [] ≡ 0
  unfolding due_times
  due_times-nil = refl

  due_times-append : (xs ys : List (Entry ℕ)) → due_times (xs ++ ys) ≡ due_times xs + due_times ys
  due_times-append [] ys = omega (arith, due_times-nil)
  due_times-append (x ∷ xs) ys =
      omega (arith, due_times-cons x xs, due_times-cons x (xs ++ ys), due_times-append xs ys)

  due_times-Permᴰ : {xs ys : List (Entry ℕ)} → Permᴰ xs ys → due_times xs ≡ due_times ys
  due_times-Permᴰ Permᴰ.nil = refl
  due_times-Permᴰ (Permᴰ.cons {a} {b} {l₁} {l₂} e p) =
      omega (arith, due_times-cons a l₁, due_times-cons b l₂, ap due_once e, due_times-Permᴰ p)
  due_times-Permᴰ (Permᴰ.swap {a} {b} {a'} {b'} {l} e f) = omega (
    arith,
    due_times-cons a (b ∷ l),
    due_times-cons b l,
    due_times-cons a' (b' ∷ l),
    due_times-cons b' l,
    ap due_once e,
    ap due_once f,
  )
  due_times-Permᴰ (Permᴰ.trans p q) = due_times-Permᴰ p ∙ due_times-Permᴰ q

  due_times-Perm : {xs ys : List (Entry ℕ)} → Perm xs ys → due_times xs ≡ due_times ys
  due_times-Perm {xs} {ys} t =
      ∥∥₁_elim t (ℕ_set (due_times xs) (due_times ys)) (λ d. due_times-Permᴰ d)

  pub due_times-items : (xs : List (Entry ℕ)) → due_times xs ≤ times h (items xs)
  unfolding due_times
  due_times-items [] = omega arith
  due_times-items (x ∷ xs) = ground (arith, due_times-items xs)

  due_times-later : (xs : List (Entry ℕ)) → All (λ e. threshold < e.priority) xs → due_times xs ≡ 0
  unfolding due_times
  due_times-later [] l = refl
  due_times-later (x ∷ xs) l = ground (arith, l.0, due_times-later xs l.1)

  -- A live handle that is to be called soon or due is taken.
  pub pop_pending-takes :
      (hq : Heapq ℕ) (handles : ℕ → Handle) (q : PriorityQueue ℕ)
      → IsHeap q.prioritized
      → is_live handles h ≡ true
      → times h q.min_priority + due_times q.prioritized
        ≤ times h (pop_pending hq handles threshold q).1
  pop_pending-takes hq handles q i live =
      let (ready, eq, empty, popped) = pop_pending-Popped hq handles threshold q i in
      let rest = (pop_pending hq handles threshold q).0.prioritized in
      omega (
        arith,
        ap (times h) eq,
        ap (times h) popped.ready_items,
        times-append h (live_of handles q.min_priority) (live_of handles ready),
        times-live_of-is_live handles h q.min_priority live,
        times-live_of-is_live handles h ready live,
        due_times-Perm popped.together,
        due_times-append popped.entries rest,
        due_times-items popped.entries,
        due_times-later rest popped.later,
      )
