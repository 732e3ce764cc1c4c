-- ===== src/Scheduler/Agree.antt =====
-- aio/loop/pure/scheduler.py: what `pop_pending` returns, against a plain definition: sort all that is there,
-- and take what is due.
use native.Mathlib.Bridge.{le_prop}
use native.Mathlib.Nat.{ℕ_set}
use mathlib.Core.List.{Mem, mem-cons, mem-cons_self, not-mem-nil}
use mathlib.Core.List.Perm
use mathlib.Core.Logic.Or
use mathlib.Core.Path.{ap₂}
use aio.Prelude.{
  Option, none, some, subst, ℕ, ◌≤◌, ◌<◌, ◌≡◌, refl, sym, ap, ◌∙◌, List, [], ◌∷◌, ◌++◌, Perm, arith,
  leb, if◌then◌else◌,
}
use aio.World.{Handle}
use aio.Scheduler.{enqueue, PriorityQueue, pop_pending, live_of}
use aio.Scheduler.Heap.{Entry, EntryLe, IsHeap, Heapq, All, All-Perm, IsSorted}
use aio.Scheduler.Pop.{items, Popped}
use aio.Scheduler.Pending.{
  QueueInv, prioritized-enqueue-none, prioritized-enqueue-some, pop_pending-Popped,
}
use aio.Scheduler.Sorted.{sort, sort-perm, sort-IsSorted}

module _ {T : Type 0} where
  -- Entries that have one id are one entry.
  abbrev pub HaveIds : List (Entry T) → Type 0
  HaveIds h = (a b : Entry T) → Mem a h → Mem b h → a.seq ≡ b.seq → a ≡ b

  abbrev pub due_of : ℕ → List (Entry T) → List (Entry T)
  due_of threshold [] = []
  due_of threshold (e ∷ es) =
      if leb e.priority threshold then e ∷ due_of threshold es else due_of threshold es

  EntryLe-Mem : (a b : Entry T) (xs : List (Entry T)) → All (EntryLe a) xs → Mem b xs → EntryLe a b
  EntryLe-Mem a b [] h m = absurd (not-mem-nil m)
  EntryLe-Mem a b (x ∷ xs) h m =
      Or.elim (hlevel) (mem-cons.0 m) (λ e. subst (EntryLe a) (sym e) h.0) (EntryLe-Mem a b xs h.1)

  EntryLe-refl : (a : Entry T) → EntryLe a a
  EntryLe-refl a = ground arith

  antisymm_ids : (a b : Entry T) → EntryLe a b → EntryLe b a → a.seq ≡ b.seq
  antisymm_ids a b p q = ground arith

  first_le :
      (a b : Entry T) (xs ys : List (Entry T))
      → All (EntryLe a) xs
      → Perm (b ∷ ys) (a ∷ xs)
      → EntryLe a b
  first_le a b xs ys s p =
      EntryLe-Mem a b (a ∷ xs) (EntryLe-refl a, s) ((Perm.mem_iff p).0 mem-cons_self)

  -- Entries have one order.
  IsSorted-unique :
      (xs ys : List (Entry T)) → HaveIds xs → IsSorted xs → IsSorted ys → Perm xs ys → xs ≡ ys
  IsSorted-unique [] ys d s r p = Perm.nil-eq p
  IsSorted-unique (x ∷ xs) [] d s r p = Perm.eq-nil p
  IsSorted-unique (x ∷ xs) (y ∷ ys) d s r p =
      let there : Mem y (x ∷ xs) = (Perm.mem_iff p).1 mem-cons_self in
      let same : x ≡ y =
        d x y mem-cons_self there
          (antisymm_ids x y (first_le x y xs ys s.0 (Perm.symm p)) (first_le y x ys xs r.0 p)) in
      let tails = Perm.cons_inv (Perm.trans p (Perm.symm (Perm.cons' same Perm.rfl))) in
      ap₂ ◌∷◌ same (
        IsSorted-unique xs ys (λ a b m n. d a b (mem-cons.1 (Or.inr m)) (mem-cons.1 (Or.inr n))) s.1
          r.1 tails)

  fresh_of_mem :
      (n : ℕ) (a : Entry T) (xs : List (Entry T)) → All (λ e. e.seq < n) xs → Mem a xs → a.seq < n
  fresh_of_mem n a [] h m = absurd (not-mem-nil m)
  fresh_of_mem n a (x ∷ xs) h m =
      Or.elim le_prop (mem-cons.0 m) (λ e. subst (λ y. y.seq < n) (sym e) h.0)
        (fresh_of_mem n a xs h.1)

  HaveIds-Perm : {xs ys : List (Entry T)} → Perm xs ys → HaveIds xs → HaveIds ys
  HaveIds-Perm p d a b m n = d a b ((Perm.mem_iff p).1 m) ((Perm.mem_iff p).1 n)

  All-weaken :
      (P Q : Entry T → Type 0)
      → ((e : Entry T) → P e → Q e)
      → (xs : List (Entry T)) → All P xs
      → All Q xs
  All-weaken P Q f [] h = tt
  All-weaken P Q f (x ∷ xs) h = (f x h.0, All-weaken P Q f xs h.1)

  All-both :
      (P : Entry T → Type 0) (xs ys : List (Entry T)) → All P xs → All P ys → All P (xs ++ ys)
  All-both P [] ys h k = k
  All-both P (x ∷ xs) ys h k = (h.0, All-both P xs ys h.1 k)

  IsSorted-append :
      (threshold : ℕ) (xs ys : List (Entry T))
      → All (λ e. e.priority ≤ threshold) xs
      → All (λ e. threshold < e.priority) ys
      → IsSorted xs
      → IsSorted ys
      → IsSorted (xs ++ ys)
  IsSorted-append threshold [] ys h k s r = r
  IsSorted-append threshold (x ∷ xs) ys h k s r = (
    All-both (EntryLe x) xs ys s.0
        (All-weaken (λ e. threshold < e.priority) (EntryLe x) (λ e lt. before e lt) ys k),
    IsSorted-append threshold xs ys h.1 k s.1 r,
  )
    where
      before : (e : Entry T) → threshold < e.priority → EntryLe x e
      before e lt = ground (arith, h.0)

  due_of-append :
      (threshold : ℕ) (xs ys : List (Entry T))
      → All (λ e. e.priority ≤ threshold) xs
      → All (λ e. threshold < e.priority) ys
      → due_of threshold (xs ++ ys) ≡ xs
  due_of-append threshold [] [] h k = refl
  due_of-append threshold [] (y ∷ ys) h k =
      ground (arith, k.0, due_of-append threshold [] ys tt k.1)
  due_of-append threshold (x ∷ xs) ys h k = ground (arith, h.0, due_of-append threshold xs ys h.1 k)

  Popped-due :
      (threshold : ℕ) (h : List (Entry T)) (ready : List T) (rest : List (Entry T))
      → HaveIds h
      → Popped threshold h ready rest
      → ready ≡ items (due_of threshold (sort h))
  Popped-due threshold h ready rest d p =
      let after =
        All-Perm (λ e. threshold < e.priority) (λ e. le_prop) (Perm.symm (sort-perm rest))
          p.later in
      let whole =
        Perm.trans (sort-perm h) (
          Perm.symm (Perm.trans (Perm.append (Perm.refl p.entries) (sort-perm rest)) p.together)) in
      let same : sort h ≡ p.entries ++ sort rest =
        IsSorted-unique (sort h) (p.entries ++ sort rest) (HaveIds-Perm (Perm.symm (sort-perm h)) d)
          (sort-IsSorted h)
          (IsSorted-append threshold p.entries (sort rest) p.due after p.sorted
            (sort-IsSorted rest))
          whole in
      p.ready_items
      ∙ ap items (
          sym (
            ap (due_of threshold) same ∙ due_of-append threshold p.entries (sort rest) p.due after))

-- Whatever heapq does with its arrays, within its laws: if the prioritized entries are a heap and
-- have ids of their own, `pop_pending` returns the live ones of the handles to be called soon, and
-- then of those that a sort of all entries by times and ids has up to the threshold.
pub pop_pending-due :
    (hq : Heapq ℕ) (handles : ℕ → Handle) (threshold : ℕ) (q : PriorityQueue ℕ)
    → IsHeap q.prioritized
    → HaveIds q.prioritized
    → (pop_pending hq handles threshold q).1
      ≡ live_of handles q.min_priority
        ++ live_of handles (items (due_of threshold (sort q.prioritized)))
pop_pending-due hq handles threshold q i d =
    let (ready, taken, empty, popped) = pop_pending-Popped hq handles threshold q i in
    taken
    ∙ ap (λ r. live_of handles q.min_priority ++ live_of handles r)
        (Popped-due threshold q.prioritized ready _ d popped)

Entry_set : (a b : Entry ℕ) → IsProp (a ≡ b)
Entry_set a b = hlevel ℕ_set

pub HaveIds-cons :
    (x : Entry ℕ) (xs : List (Entry ℕ))
    → All (λ e. e.seq < x.seq) xs
    → HaveIds xs
    → HaveIds (x ∷ xs)
HaveIds-cons x xs f d a b m n e =
    Or.elim (Entry_set a b) (mem-cons.0 m)
      (λ p.
        Or.elim (Entry_set a b) (mem-cons.0 n) (λ q. p ∙ sym q)
          (λ n'. absurd (omega (arith, ap (λ y. y.seq) p, e, fresh_of_mem x.seq b xs f n'))))
      (λ m'.
        Or.elim (Entry_set a b) (mem-cons.0 n)
          (λ q. absurd (omega (arith, ap (λ y. y.seq) q, e, fresh_of_mem x.seq a xs f m')))
          (λ n'. d a b m' n' e))

-- What is enqueued keeps the ids apart.
enqueue-HaveIds :
    (hq : Heapq ℕ) (priority_fn : ℕ → Option ℕ) (x : ℕ) (q : PriorityQueue ℕ)
    → QueueInv q
    → HaveIds q.prioritized
    → HaveIds (enqueue hq priority_fn x q).prioritized
enqueue-HaveIds hq priority_fn x q i d = go (priority_fn x) refl
  where
    go : (p : Option ℕ) → priority_fn x ≡ p → HaveIds (enqueue hq priority_fn x q).prioritized
    go none e = rw (prioritized-enqueue-none hq priority_fn x q e) d
    go (some p) e = rw (prioritized-enqueue-some hq priority_fn x p q e) (
        HaveIds-Perm (Perm.symm (hq.heappush-perm q.prioritized _))
          (HaveIds-cons _ q.prioritized i.fresh d))
