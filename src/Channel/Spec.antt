-- ===== src/Channel/Spec.antt =====
-- What a channel promises (aio/channel.py), as an abstract queue: elements are pushed at its end
-- and popped at its front, and the element of a putter that gives up is withdrawn from where it is.
use mathlib.Core.List.{append_assoc, append-nil}
use aio.Prelude.{subst, ◌≡◌, refl, ap, sym, ◌∙◌, List, [], ◌∷◌, ◌++◌, arith}

pub data Label (T : Type 0) : Type 0 where
  pushed popped withdrawn : T → Label T

module _ {T : Type 0} where
  -- The queue `r` comes of the queue `q` by what the labels say.
  abbrev pub Follows : List (Label T) → List T → List T → Type 0
  Follows [] q r = q ≡ r
  Follows (pushed e ∷ ls) q r = Follows ls (q ++ e ∷ []) r
  Follows (popped e ∷ ls) q r = (q' : List T) × (q ≡ e ∷ q') × Follows ls q' r
  Follows (withdrawn e ∷ ls) q r =
      (a : List T) × (b : List T) × (q ≡ a ++ e ∷ b) × Follows ls (a ++ b) r

  abbrev pub pushes_of : List (Label T) → List T
  pushes_of [] = []
  pushes_of (pushed e ∷ ls) = e ∷ pushes_of ls
  pushes_of (popped e ∷ ls) = pushes_of ls
  pushes_of (withdrawn e ∷ ls) = pushes_of ls

  abbrev pub pops_of : List (Label T) → List T
  pops_of [] = []
  pops_of (pushed e ∷ ls) = pops_of ls
  pops_of (popped e ∷ ls) = e ∷ pops_of ls
  pops_of (withdrawn e ∷ ls) = pops_of ls

  abbrev pub withdrawals_of : List (Label T) → List T
  withdrawals_of [] = []
  withdrawals_of (pushed e ∷ ls) = withdrawals_of ls
  withdrawals_of (popped e ∷ ls) = withdrawals_of ls
  withdrawals_of (withdrawn e ∷ ls) = e ∷ withdrawals_of ls

  pub Follows-append :
      (ks ls : List (Label T)) (q r s : List T)
      → Follows ks q r
      → Follows ls r s
      → Follows (ks ++ ls) q s
  Follows-append [] ls q r s f g = subst (λ x. Follows ls x s) (sym f) g
  Follows-append (pushed e ∷ ks) ls q r s f g = Follows-append ks ls (q ++ e ∷ []) r s f g
  Follows-append (popped e ∷ ks) ls q r s (q', h, f) g = (q', h, Follows-append ks ls q' r s f g)
  Follows-append (withdrawn e ∷ ks) ls q r s (a, b, h, f) g =
      (a, b, h, Follows-append ks ls (a ++ b) r s f g)

  pub pushes_of-append :
      (ks ls : List (Label T)) → pushes_of (ks ++ ls) ≡ pushes_of ks ++ pushes_of ls
  pushes_of-append [] ls = refl
  pushes_of-append (pushed e ∷ ks) ls = ap (λ r. e ∷ r) (pushes_of-append ks ls)
  pushes_of-append (popped e ∷ ks) ls = pushes_of-append ks ls
  pushes_of-append (withdrawn e ∷ ks) ls = pushes_of-append ks ls

  pub pops_of-append : (ks ls : List (Label T)) → pops_of (ks ++ ls) ≡ pops_of ks ++ pops_of ls
  pops_of-append [] ls = refl
  pops_of-append (pushed e ∷ ks) ls = pops_of-append ks ls
  pops_of-append (popped e ∷ ks) ls = ap (λ r. e ∷ r) (pops_of-append ks ls)
  pops_of-append (withdrawn e ∷ ks) ls = pops_of-append ks ls

  pub withdrawals_of-append :
      (ks ls : List (Label T)) → withdrawals_of (ks ++ ls) ≡ withdrawals_of ks ++ withdrawals_of ls
  withdrawals_of-append [] ls = refl
  withdrawals_of-append (pushed e ∷ ks) ls = withdrawals_of-append ks ls
  withdrawals_of-append (popped e ∷ ks) ls = withdrawals_of-append ks ls
  withdrawals_of-append (withdrawn e ∷ ks) ls = ap (λ r. e ∷ r) (withdrawals_of-append ks ls)

  -- With nothing withdrawn, what was there and what was pushed is what was popped and what is left.
  pub Follows-fifo :
      (ls : List (Label T)) (q r : List T)
      → Follows ls q r
      → withdrawals_of ls ≡ []
      → q ++ pushes_of ls ≡ pops_of ls ++ r
  Follows-fifo [] q r f n = append-nil q ∙ f
  Follows-fifo (pushed e ∷ ls) q r f n =
      sym (append_assoc q (e ∷ []) (pushes_of ls)) ∙ Follows-fifo ls (q ++ e ∷ []) r f n
  Follows-fifo (popped e ∷ ls) q r (q', h, f) n =
      ap (λ x. x ++ pushes_of ls) h ∙ ap (λ x. e ∷ x) (Follows-fifo ls q' r f n)
  Follows-fifo (withdrawn e ∷ ls) q r f n = absurd (ground arith)
