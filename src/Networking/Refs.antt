-- ===== src/Networking/Refs.antt =====
-- aio/loop/pure/networking.py: the counts of the sockets in use.
use aio.Prelude.{
  ◌∙◌, ap, subst, ==_iff, ℕ, suc, ◌-◌, ◌<◌, ◌≡◌, refl, Bool, true, false, List, [], ◌∷◌, arith,
  if◌then◌else◌, ◌==◌, leb, Bool-cases, inl, inr,
}
use aio.Networking.{Refs, count, add_ref, remove_ref, RefOp, opens, closes, ref_op, run_refs}

abbrev pub has_ref : ℕ → Refs → Bool
has_ref fd [] = false
has_ref fd ((k, n) ∷ refs) = if k == fd then true else has_ref fd refs

-- Each descriptor has one count, and it is not 0.
abbrev pub IsCounted : Refs → Type 0
IsCounted [] = Unit {0}
IsCounted ((k, n) ∷ refs) = (has_ref k refs ≡ false) × (0 < n) × IsCounted refs

count_absent : (fd : ℕ) (refs : Refs) → has_ref fd refs ≡ false → count fd refs ≡ 0
unfolding count
count_absent fd [] h = refl
count_absent fd ((k, n) ∷ refs) h = ground (arith, count_absent fd refs)

-- The count of `fd` after an operation, if it was `n`.
abbrev pub counted : ℕ → RefOp → ℕ → ℕ
counted fd (opens g) n = if g == fd then suc n else n
counted fd (closes g) n = if g == fd then n - 1 else n

abbrev pub counted_all : ℕ → List RefOp → ℕ → ℕ
counted_all fd [] n = n
counted_all fd (o ∷ os) n = counted_all fd os (counted fd o n)

count-add_ref :
    (fd g : ℕ) (refs : Refs) → count fd (add_ref g refs) ≡ counted fd (opens g) (count fd refs)
unfolding count add_ref
count-add_ref fd g [] = ground arith
count-add_ref fd g ((k, n) ∷ refs) = ground (arith, count-add_ref fd g refs)

has_ref-add_ref :
    (fd g : ℕ) (refs : Refs)
    → has_ref fd refs ≡ false
    → (g == fd) ≡ false
    → has_ref fd (add_ref g refs) ≡ false
unfolding add_ref
has_ref-add_ref fd g [] h d = ground arith
has_ref-add_ref fd g ((k, n) ∷ refs) h d = ground (arith, has_ref-add_ref fd g refs)

add_ref-IsCounted : (g : ℕ) (refs : Refs) → IsCounted refs → IsCounted (add_ref g refs)
unfolding add_ref
add_ref-IsCounted g [] i = (refl, omega arith, tt)
add_ref-IsCounted g ((k, n) ∷ refs) (h, p, i) = elim (Bool-cases (k == g)) [
  | inl same ↦ rw same (h, omega arith, i)
  | inr other ↦ rw other (has_ref-add_ref k g refs h (ground arith), p, add_ref-IsCounted g refs i)
]

pub count_other :
    (k fd : ℕ) (refs : Refs) → has_ref k refs ≡ false → (k == fd) ≡ true → count fd refs ≡ 0
count_other k fd refs h e =
    subst (λ f. count f refs ≡ 0) ((==_iff k fd).0 e) (count_absent k refs h)

after_last :
    (k g fd n c : ℕ)
    → (k == g) ≡ true
    → leb n 1 ≡ true
    → ((k == fd) ≡ true → c ≡ 0)
    → c ≡ counted fd (closes g) (if k == fd then n else c)
after_last k g fd n c same last z = elim (Bool-cases (k == fd)) [
  | inl e ↦ let c0 = z e in ground arith
  | inr e ↦ ground arith
]

after_more :
    (k g fd n c : ℕ)
    → (k == g) ≡ true
    → (if k == fd then n - 1 else c) ≡ counted fd (closes g) (if k == fd then n else c)
after_more k g fd n c same = ground arith

after_other :
    (k g fd n c' c : ℕ)
    → (k == g) ≡ false
    → c' ≡ counted fd (closes g) c
    → (if k == fd then n else c') ≡ counted fd (closes g) (if k == fd then n else c)
after_other k g fd n c' c other e = ground arith

count-remove_ref :
    (fd g : ℕ) (refs : Refs)
    → IsCounted refs
    → count fd (remove_ref g refs) ≡ counted fd (closes g) (count fd refs)
unfolding count remove_ref
count-remove_ref fd g [] i = ground arith
count-remove_ref fd g ((k, n) ∷ refs) (h, p, i) = elim (Bool-cases (k == g)) [
  | inl same ↦ (elim (Bool-cases (leb n 1)) [
    | inl last ↦
        rw same (rw last (after_last k g fd n (count fd refs) same last (count_other k fd refs h)))
    | inr more ↦ rw same (rw more (after_more k g fd n (count fd refs) same))
  ])
  | inr other ↦ rw other (
      after_other k g fd n (count fd (remove_ref g refs)) (count fd refs) other
        (count-remove_ref fd g refs i))
]

has_ref-remove_ref :
    (fd g : ℕ) (refs : Refs) → has_ref fd refs ≡ false → has_ref fd (remove_ref g refs) ≡ false
unfolding remove_ref
has_ref-remove_ref fd g [] h = refl
has_ref-remove_ref fd g ((k, n) ∷ refs) h = ground (arith, has_ref-remove_ref fd g refs)

remove_ref-IsCounted : (g : ℕ) (refs : Refs) → IsCounted refs → IsCounted (remove_ref g refs)
unfolding remove_ref
remove_ref-IsCounted g [] i = tt
remove_ref-IsCounted g ((k, n) ∷ refs) (h, p, i) = elim (Bool-cases (k == g)) [
  | inl same ↦ (elim (Bool-cases (leb n 1)) [
    | inl last ↦ rw same (rw last i)
    | inr more ↦ rw same (rw more (h, ground arith, i))
  ])
  | inr other ↦ rw other (has_ref-remove_ref k g refs h, p, remove_ref-IsCounted g refs i)
]

ref_op-IsCounted :
    (o : RefOp) (refs : Refs)
    → IsCounted refs
    → IsCounted (ref_op o refs)
      × ((fd : ℕ) → count fd (ref_op o refs) ≡ counted fd o (count fd refs))
unfolding ref_op
ref_op-IsCounted (opens g) refs i = (add_ref-IsCounted g refs i, (λ fd. count-add_ref fd g refs))
ref_op-IsCounted (closes g) refs i =
    (remove_ref-IsCounted g refs i, (λ fd. count-remove_ref fd g refs i))

-- Whatever the order in which the calls of several tasks start and end, the dict holds each
-- descriptor once and only with a count above 0, and that count is the number of its calls that are
-- open: one more for each start, one less for each end.
pub run_refs-IsCounted :
    (os : List RefOp) (refs : Refs)
    → IsCounted refs
    → IsCounted (run_refs os refs)
      × ((fd : ℕ) → count fd (run_refs os refs) ≡ counted_all fd os (count fd refs))
unfolding run_refs
run_refs-IsCounted [] refs i = (i, (λ fd. refl))
run_refs-IsCounted (o ∷ os) refs i =
    let (j, step) = ref_op-IsCounted o refs i in
    let (k, steps) = run_refs-IsCounted os (ref_op o refs) j in
    (k, (λ fd. steps fd ∙ ap (counted_all fd os) (step fd)))
