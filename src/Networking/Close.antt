-- ===== src/Networking/Close.antt =====
-- aio/loop/pure/networking.py: the watches that `SelectorNetworking.close` stops.
use aio.Prelude.{
  ◌&&◌, sym, ◌∙◌, subst, ==_iff, ℕ, ◌<◌, ◌≡◌, refl, Bool, true, false, none, List, [], ◌∷◌, arith,
  if◌then◌else◌, ◌==◌, ltb, Bool-cases, inl, inr,
}
use aio.Exceptions.{ok, Result}
use aio.Selector.{Selector, Key, get_key, unregister}
use aio.Selector.Watches.{stop_watch_fd}
use aio.Networking.{Refs, count, close_watches}
use aio.Networking.Refs.{IsCounted, count_other}

-- The keys of the standard selector are its map's: one for each descriptor.
abbrev pub DistinctKeys : List Key → Type 0
DistinctKeys [] = Unit {0}
DistinctKeys (k ∷ ks) = (get_key (k.fd) ks ≡ none) × DistinctKeys ks

get_key-unregister_other :
    (fd g : ℕ) (ks : List Key) → (g == fd) ≡ false → get_key fd (unregister g ks) ≡ get_key fd ks
unfolding get_key unregister
get_key-unregister_other fd g [] d = refl
get_key-unregister_other fd g (k ∷ ks) d = ground (arith, get_key-unregister_other fd g ks)

get_key-unregister_same :
    (fd : ℕ) (ks : List Key) → DistinctKeys ks → get_key fd (unregister fd ks) ≡ none
unfolding get_key unregister
get_key-unregister_same fd [] i = refl
get_key-unregister_same fd (k ∷ ks) (h, i) = elim (Bool-cases (k.fd == fd)) [
  | inl same ↦ rw same (subst (λ f. get_key f ks ≡ none) ((==_iff k.fd fd).0 same) h)
  | inr other ↦ rw other (rw other (get_key-unregister_same fd ks i))
]

unregister-DistinctKeys : (g : ℕ) (ks : List Key) → DistinctKeys ks → DistinctKeys (unregister g ks)
unfolding get_key unregister
unregister-DistinctKeys g [] i = tt
unregister-DistinctKeys g (k ∷ ks) (h, i) = elim (Bool-cases (k.fd == g)) [
  | inl same ↦ rw same i
  | inr other ↦
      rw other
        (get_key-unregister_other k.fd g ks (ground arith) ∙ h, unregister-DistinctKeys g ks i)
]

-- A descriptor whose watches `close` stops.
abbrev pub is_closed : ℕ → Refs → Bool
is_closed fd refs = ltb 0 (count fd refs) && ltb 0 fd

-- What `close` does to the watch of each descriptor.
abbrev pub Closes : Refs → Selector → Selector × Result (Unit {0}) → Type 0
Closes refs s (s', r) =
    (r ≡ ok tt)
    × ((fd : ℕ) → get_key fd s'.keys ≡ (if is_closed fd refs then none else get_key fd s.keys))

Closes-stopped :
    (g n : ℕ) (refs : Refs) (s : Selector) (fd : ℕ)
    → IsCounted ((g, n) ∷ refs)
    → DistinctKeys s.keys
    → (ltb 0 n && ltb 0 g) ≡ true
    → (if is_closed fd refs then none else get_key fd (unregister g s.keys))
      ≡ (if is_closed fd ((g, n) ∷ refs) then none else get_key fd s.keys)
unfolding count
Closes-stopped g n refs s fd (h, p, i) d live = elim (Bool-cases (g == fd)) [
  | inl same ↦
      let none_left = count_other g fd refs h same in
      let gone =
        subst (λ f. get_key f (unregister g s.keys) ≡ none) ((==_iff g fd).0 same)
          (get_key-unregister_same g s.keys d) in
      ground (arith, (==_iff g fd).0 same)
  | inr other ↦ let kept = get_key-unregister_other fd g s.keys other in ground arith
]

Closes-skipped :
    (g n : ℕ) (refs : Refs) (s : Selector) (fd : ℕ)
    → 0 < n
    → (ltb 0 n && ltb 0 g) ≡ false
    → (if is_closed fd refs then none else get_key fd s.keys)
      ≡ (if is_closed fd ((g, n) ∷ refs) then none else get_key fd s.keys)
unfolding count
Closes-skipped g n refs s fd p dead = ground arith

close_watches-stopped :
    (g n : ℕ) (refs : Refs) (s : Selector)
    → s.is_finalized ≡ false
    → (ltb 0 n && ltb 0 g) ≡ true
    → close_watches ((g, n) ∷ refs) s ≡ close_watches refs (record s { keys = unregister g s.keys })
unfolding close_watches
close_watches-stopped g n refs s open_ live = ground (arith, stop_watch_fd g s open_)

-- When each descriptor has one key and one count, `close` stops the watches of exactly the
-- descriptors above 0 that are in use, and raises nothing if the selector is not finalized.
pub close_watches-Closes :
    (refs : Refs) (s : Selector)
    → s.is_finalized ≡ false
    → IsCounted refs
    → DistinctKeys s.keys
    → Closes refs s (close_watches refs s)
unfolding close_watches count
close_watches-Closes [] s open_ c d = (refl, (λ fd. refl))
close_watches-Closes ((g, n) ∷ refs) s open_ (h, p, i) d = elim (Bool-cases (ltb 0 n && ltb 0 g)) [
  | inl live ↦
      let s' : Selector = record s { keys = unregister g s.keys } in
      let (fine, keys) =
        close_watches-Closes refs s' open_ i (unregister-DistinctKeys g s.keys d) in
      subst (Closes ((g, n) ∷ refs) s) (sym (close_watches-stopped g n refs s open_ live))
        (fine, (λ fd. keys fd ∙ Closes-stopped g n refs s fd (h, p, i) d live))
  | inr dead ↦
      let (fine, keys) = close_watches-Closes refs s open_ i d in
      rw (dead, close_watches) (fine, (λ fd. keys fd ∙ Closes-skipped g n refs s fd p dead))
]
