-- ===== src/Scheduler/Sorted.antt =====
-- A heapq that keeps its arrays sorted: it shows that the laws of the interface can be met.
use mathlib.Core.List.Perm
use aio.Prelude.{
  subst, ℕ, zero, suc, ◌<◌, ◌≡◌, refl, ap, ◌∙◌, inl, inr, false, Option, none, some, List, [], ◌∷◌,
  Perm, arith, length, get_elem?, Bool-cases, if◌then◌else◌,
}
use aio.Scheduler.Heap.{Entry, entry_le, EntryLe, EntryLe-trans, IsHeap, Heapq, All, IsSorted}

module _ {T : Type 0} where
  unfoldable pub insert : Entry T → List (Entry T) → List (Entry T)
  insert e [] = e ∷ []
  insert e (x ∷ xs) = if entry_le e x then e ∷ x ∷ xs else x ∷ insert e xs

  unfoldable pub sort : List (Entry T) → List (Entry T)
  sort [] = []
  sort (x ∷ xs) = insert x (sort xs)

  insert-perm : (e : Entry T) (xs : List (Entry T)) → Perm (insert e xs) (e ∷ xs)
  unfolding insert
  insert-perm e [] = Perm.refl (e ∷ [])
  insert-perm e (x ∷ xs) = elim (Bool-cases (entry_le e x)) [
    | inl le ↦ rw le (Perm.refl (e ∷ x ∷ xs))
    | inr gt ↦ rw gt (Perm.trans (Perm.cons x (insert-perm e xs)) (Perm.swap e x xs))
  ]

  pub sort-perm : (xs : List (Entry T)) → Perm (sort xs) xs
  unfolding sort
  sort-perm [] = Perm.refl []
  sort-perm (x ∷ xs) = Perm.trans (insert-perm x (sort xs)) (Perm.cons x (sort-perm xs))

  length-insert : (e : Entry T) (xs : List (Entry T)) → length (insert e xs) ≡ suc (length xs)
  unfolding insert
  length-insert e [] = refl
  length-insert e (x ∷ xs) = ground (arith, length-insert e xs)

  length-sort : (xs : List (Entry T)) → length (sort xs) ≡ length xs
  unfolding sort
  length-sort [] = refl
  length-sort (x ∷ xs) = length-insert x (sort xs) ∙ ap suc (length-sort xs)

  All-insert :
      (a e : Entry T) (xs : List (Entry T))
      → EntryLe a e
      → All (EntryLe a) xs
      → All (EntryLe a) (insert e xs)
  unfolding insert
  All-insert a e [] p h = (p, tt)
  All-insert a e (x ∷ xs) p h = ground (arith, All-insert a e xs p h.1)

  All-EntryLe :
      (a b : Entry T) (xs : List (Entry T)) → EntryLe a b → All (EntryLe b) xs → All (EntryLe a) xs
  All-EntryLe a b [] p h = tt
  All-EntryLe a b (x ∷ xs) p h = (EntryLe-trans a b x p h.0, All-EntryLe a b xs p h.1)

  EntryLe-total : (a b : Entry T) → entry_le a b ≡ false → EntryLe b a
  EntryLe-total a b h = ground arith

  insert-IsSorted : (e : Entry T) (xs : List (Entry T)) → IsSorted xs → IsSorted (insert e xs)
  unfolding insert
  insert-IsSorted e [] s = (tt, tt)
  insert-IsSorted e (x ∷ xs) s = elim (Bool-cases (entry_le e x)) [
    | inl le ↦ rw le ((le, All-EntryLe e x xs le s.0), s)
    | inr gt ↦ rw gt (All-insert x e xs (EntryLe-total e x gt) s.0, insert-IsSorted e xs s.1)
  ]

  pub sort-IsSorted : (xs : List (Entry T)) → IsSorted (sort xs)
  unfolding sort
  sort-IsSorted [] = tt
  sort-IsSorted (x ∷ xs) = insert-IsSorted x (sort xs) (sort-IsSorted xs)

  elem_of_All :
      (P : Entry T → Type 0) (xs : List (Entry T)) (j : ℕ) (b : Entry T)
      → All P xs
      → get_elem? xs j ≡ some b
      → P b
  elem_of_All P [] j b h g = cc
  elem_of_All P (x ∷ xs) zero b h g = let same : x ≡ b = cc in subst P same h.0
  elem_of_All P (x ∷ xs) (suc j) b h g = elem_of_All P xs j b h.1 g

  sorted_elems :
      (xs : List (Entry T)) (k j : ℕ) (a b : Entry T)
      → IsSorted xs
      → k < j
      → get_elem? xs k ≡ some a
      → get_elem? xs j ≡ some b
      → EntryLe a b
  sorted_elems [] k j a b s lt p q = cc
  sorted_elems (x ∷ xs) k zero a b s lt p q = elim lt [ ]
  sorted_elems (x ∷ xs) zero (suc j) a b s lt p q =
      let same : x ≡ a = cc in subst (λ c. EntryLe c b) same (elem_of_All (EntryLe x) xs j b s.0 q)
  sorted_elems (x ∷ xs) (suc k) (suc j) a b s lt p q = sorted_elems xs k j a b s.1 (omega arith) p q

  pub IsSorted-IsHeap : (xs : List (Entry T)) → IsSorted xs → IsHeap xs
  IsSorted-IsHeap xs s = record {
    ordered = λ k j a b c p q. sorted_elems xs k j a b s (omega arith) p q;
  }

  unfoldable pub pop_sorted : List (Entry T) → Option (Entry T × List (Entry T))
  pop_sorted [] = none
  pop_sorted (e ∷ h) = some (e, sort h)

  pub pop_sorted_root :
      (e : Entry T) (h : List (Entry T))
      → (rest : List (Entry T)) × (pop_sorted (e ∷ h) ≡ some (e, rest))
        × Perm rest h
        × IsHeap rest
        × (length rest ≡ length h)
  unfolding pop_sorted
  pop_sorted_root e h =
      (sort h, refl, sort-perm h, IsSorted-IsHeap (sort h) (sort-IsSorted h), length-sort h)

  abbrev pub push_sorted : List (Entry T) → Entry T → List (Entry T)
  push_sorted h e = sort (e ∷ h)

  pub pop_sorted_nil : pop_sorted [] ≡ none
  unfolding pop_sorted
  pop_sorted_nil = refl

unfoldable pub sorted_heapq : (T : Type 0) → Heapq T
unfolding pop_sorted
sorted_heapq T = record {
  heappush = push_sorted;
  heappop = pop_sorted;
  heapify = sort;
  heappush-perm = λ h e. sort-perm (e ∷ h);
  heappush-IsHeap = λ h e i. IsSorted-IsHeap (sort (e ∷ h)) (sort-IsSorted (e ∷ h));
  heappop_nil = pop_sorted_nil;
  heappop_root = λ e h i. pop_sorted_root e h;
  heapify-perm = sort-perm;
  heapify-IsHeap = λ h. IsSorted-IsHeap (sort h) (sort-IsSorted h);
}
