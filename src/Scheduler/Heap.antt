-- ===== src/Scheduler/Heap.antt =====
-- The entries of the priority queue of aio/loop/pure/scheduler.py, and the standard library's heapq
-- on them, as its documentation describes it.
use mathlib.Core.List.{Permᴰ}
use mathlib.Core.HLevel.{×_prop}
use mathlib.Core.Logic.{∥∥₁_elim}
use aio.Prelude.{
  subst, ◌++◌, Bool, true, false, ltb, leb, ◌==◌, if◌then◌else◌, ℕ, zero, suc, ◌+◌, ◌*◌, ◌/◌, ◌<◌,
  ◌≡◌, refl, ◌⊎◌, inl, inr, Option, none, some, List, [], ◌∷◌, Perm, arith, get_elem?, get_elem?-lt,
  get_elem?_of_lt, length, ◌%◌,
}

-- The tuple `(priority, id, item)`. Times are natural numbers of clock ticks.
pub record Entry (T : Type 0) : Type 0 where
  pub priority : ℕ
  pub seq : ℕ
  pub item : T

module _ {T : Type 0} where
  -- `a <= b` on tuples whose ids differ: by the priority, and by the id where those are equal.
  abbrev pub entry_le : Entry T → Entry T → Bool
  entry_le a b =
      if ltb a.priority b.priority
      then true
      else if a.priority == b.priority
      then leb a.seq b.seq
      else false

  abbrev pub EntryLe : Entry T → Entry T → Type 0
  EntryLe a b = entry_le a b ≡ true

  -- heapq: "Heaps are arrays for which a[k] <= a[2*k+1] and a[k] <= a[2*k+2] for all k".
  pub record IsHeap (h : List (Entry T)) : Type 0 where
    pub ordered :
        (k j : ℕ) (a b : Entry T)
        → (j ≡ 2 * k + 1) ⊎ (j ≡ 2 * k + 2)
        → get_elem? h k ≡ some a
        → get_elem? h j ≡ some b
        → EntryLe a b

-- What the code uses of heapq. `heappop` of an empty heap is an `IndexError`, here `none`.
pub record Heapq (T : Type 0) : Type 1 where
  pub heappush : List (Entry T) → Entry T → List (Entry T)
  pub heappop : List (Entry T) → Option (Entry T × List (Entry T))
  pub heapify : List (Entry T) → List (Entry T)
  pub heappush-perm : (h : List (Entry T)) (e : Entry T) → Perm (heappush h e) (e ∷ h)
  pub heappush-IsHeap : (h : List (Entry T)) (e : Entry T) → IsHeap h → IsHeap (heappush h e)
  pub heappop_nil : heappop [] ≡ none
  pub heappop_root :
      (e : Entry T) (h : List (Entry T))
      → IsHeap (e ∷ h)
      → (rest : List (Entry T)) × (heappop (e ∷ h) ≡ some (e, rest))
        × Perm rest h
        × IsHeap rest
        × (length rest ≡ length h)
  pub heapify-perm : (h : List (Entry T)) → Perm (heapify h) h
  pub heapify-IsHeap : (h : List (Entry T)) → IsHeap (heapify h)

module _ {T : Type 0} where
  EntryLe-refl : (a : Entry T) → EntryLe a a
  EntryLe-refl a = ground arith

  pub EntryLe-trans : (a b c : Entry T) → EntryLe a b → EntryLe b c → EntryLe a c
  EntryLe-trans a b c p q = ground arith

  -- The first entry of a heap is the least: by the path from any entry up to it.
  pub root_least :
      (n : ℕ) (e : Entry T) (h : List (Entry T))
      → IsHeap (e ∷ h)
      → (j : ℕ) (b : Entry T) → j < n
      → get_elem? (e ∷ h) j ≡ some b
      → EntryLe e b
  root_least zero e h i j b lt g = absurd (omega arith)
  root_least (suc n) e h i zero b lt g = ground arith
  root_least (suc n) e h i (suc j) b lt g =
      let (a, at) =
        get_elem?_of_lt (e ∷ h) (j / 2) (omega (arith, get_elem?-lt (e ∷ h) (suc j) g)) in
      EntryLe-trans e a b (root_least n e h i (j / 2) a (omega arith) at)
        (i.ordered (j / 2) (suc j) a b (child j) at g)
    where
      child : (k : ℕ) → (suc k ≡ 2 * (k / 2) + 1) ⊎ (suc k ≡ 2 * (k / 2) + 2)
      child k = halves (k % 2) (omega arith) (omega arith)
        where
          halves :
              (r : ℕ)
              → r < 2
              → k ≡ 2 * (k / 2) + r
              → (suc k ≡ 2 * (k / 2) + 1) ⊎ (suc k ≡ 2 * (k / 2) + 2)
          halves zero lt2 e2 = inl (omega arith)
          halves (suc zero) lt2 e2 = inr (omega arith)
          halves (suc (suc r)) lt2 e2 = absurd (omega arith)

  abbrev pub All {ℓ} : (Entry T → Type ℓ) → List (Entry T) → Type ℓ
  All P [] = Unit
  All P (x ∷ xs) = P x × All P xs

  pub All-of_elem {ℓ} :
      (P : Entry T → Type ℓ) (h : List (Entry T))
      → ((j : ℕ) (b : Entry T) → get_elem? h j ≡ some b → P b)
      → All P h
  All-of_elem P [] f = tt
  All-of_elem P (x ∷ xs) f = (f 0 x refl, All-of_elem P xs (λ j b g. f (suc j) b g))

  -- All entries of a heap are behind its first.
  pub root_first : (e : Entry T) (h : List (Entry T)) → IsHeap (e ∷ h) → All (EntryLe e) h
  root_first e h i =
      All-of_elem (EntryLe e) h (λ j b g. root_least (suc (suc j)) e h i (suc j) b (omega arith) g)

  pub All-append {ℓ} :
      (P : Entry T → Type ℓ) (xs ys : List (Entry T)) → All P (xs ++ ys) → All P xs × All P ys
  All-append P [] ys h = (tt, h)
  All-append P (x ∷ xs) ys h = let (front, back) = All-append P xs ys h.1 in ((h.0, front), back)

  All-prop {ℓ} :
      (P : Entry T → Type ℓ)
      → ((x : Entry T) → IsProp (P x))
      → (xs : List (Entry T)) → IsProp (All P xs)
  All-prop P p [] = hlevel
  All-prop P p (x ∷ xs) = ×_prop (p x) (All-prop P p xs)

  All-Permᴰ {ℓ} :
      (P : Entry T → Type ℓ) {xs ys : List (Entry T)} → Permᴰ xs ys → All P xs → All P ys
  All-Permᴰ P Permᴰ.nil h = h
  All-Permᴰ P (Permᴰ.cons e p) h = (subst P e h.0, All-Permᴰ P p h.1)
  All-Permᴰ P (Permᴰ.swap e f) h = (subst P f h.1.0, (subst P e h.0, h.1.1))
  All-Permᴰ P (Permᴰ.trans p q) h = All-Permᴰ P q (All-Permᴰ P p h)

  pub All-Perm {ℓ} :
      (P : Entry T → Type ℓ)
      → ((x : Entry T) → IsProp (P x))
      → {xs ys : List (Entry T)} → Perm xs ys
      → All P xs
      → All P ys
  All-Perm P p {xs} {ys} t h = ∥∥₁_elim t (All-prop P p ys) (λ d. All-Permᴰ P d h)

  -- In the order of the times, and of the ids where the times are equal.
  abbrev pub IsSorted : List (Entry T) → Type 0
  IsSorted [] = Unit
  IsSorted (e ∷ es) = All (EntryLe e) es × IsSorted es
