-- ===== src/GenAll/Rewrite.antt =====
-- scripts/gen_all.py: what the script leaves of a module.
use mathlib.Core.Path.{ap₂}
use aio.Prelude.{
  String, ◌≡◌, refl, sym, ap, ◌∙◌, List, [], ◌∷◌, ◌++◌, if◌then◌else◌, Bool-cases, inl, inr,
}
use aio.GenAll.{
  Assign, Stmt, imports, assigns, block, simple, Stmts, nil, next, Bodies, end, body, collect,
  collect_stmt, collect_bodies, is_all, all_assign, rewrite, rewrite_stmt, rewrite_bodies,
  process_tree,
}

-- The assignments of a module, in their order.
unfoldable mutual
  stmt_assigns : Stmt → List Assign
  stmt_assigns (imports xs) = []
  stmt_assigns (assigns a) = a ∷ []
  stmt_assigns (block k bs) = bodies_assigns bs
  stmt_assigns (simple k) = []

  pub all_assigns : Stmts → List Assign
  all_assigns nil = []
  all_assigns (next s ss) = stmt_assigns s ++ all_assigns ss

  bodies_assigns : Bodies → List Assign
  bodies_assigns end = []
  bodies_assigns (body ss bs) = all_assigns ss ++ bodies_assigns bs

-- Those of `__all__`, each with the names.
abbrev pub only_all : List String → List Assign → List Assign
only_all names [] = []
only_all names (a ∷ xs) =
    if is_all a then all_assign names ∷ only_all names xs else only_all names xs

only_all-append :
    (names : List String) (xs bs : List Assign)
    → only_all names (xs ++ bs) ≡ only_all names xs ++ only_all names bs
only_all-append names [] bs = refl
only_all-append names (a ∷ xs) bs = elim (Bool-cases (is_all a)) [
  | inl e ↦ rw e (ap (λ r. all_assign names ∷ r) (only_all-append names xs bs))
  | inr e ↦ rw e (only_all-append names xs bs)
]

mutual
  unfolding collect rewrite

  collect-rewrite : (names : List String) (ss : Stmts) → collect (rewrite names ss) ≡ collect ss
  collect-rewrite names nil = refl
  collect-rewrite names (next s ss) =
      collect-rewrite_stmt names s (rewrite names ss)
      ∙ ap (λ r. collect_stmt s ++ r) (collect-rewrite names ss)

  collect-rewrite_stmt :
      (names : List String) (s : Stmt) (rest : Stmts)
      → collect (rewrite_stmt names s rest) ≡ collect_stmt s ++ collect rest
  collect-rewrite_stmt names (imports xs) rest = refl
  collect-rewrite_stmt names (assigns a) rest = elim (Bool-cases (is_all a)) [
    | inl e ↦ rw e refl
    | inr e ↦ rw e refl
  ]
  collect-rewrite_stmt names (block k bs) rest =
      ap (λ r. r ++ collect rest) (collect-rewrite_bodies names bs)
  collect-rewrite_stmt names (simple k) rest = refl

  collect-rewrite_bodies :
      (names : List String) (bs : Bodies)
      → collect_bodies (rewrite_bodies names bs) ≡ collect_bodies bs
  collect-rewrite_bodies names end = refl
  collect-rewrite_bodies names (body ss bs) =
      ap₂ (λ a b. a ++ b) (collect-rewrite names ss) (collect-rewrite_bodies names bs)

mutual
  unfolding all_assigns rewrite

  assigns-rewrite :
      (names : List String) (ss : Stmts)
      → all_assigns (rewrite names ss) ≡ only_all names (all_assigns ss)
  assigns-rewrite names nil = refl
  assigns-rewrite names (next s ss) =
      assigns-rewrite_stmt names s (rewrite names ss)
      ∙ ap (λ r. only_all names (stmt_assigns s) ++ r) (assigns-rewrite names ss)
      ∙ sym (only_all-append names (stmt_assigns s) (all_assigns ss))

  assigns-rewrite_stmt :
      (names : List String) (s : Stmt) (rest : Stmts)
      → all_assigns (rewrite_stmt names s rest)
        ≡ only_all names (stmt_assigns s) ++ all_assigns rest
  assigns-rewrite_stmt names (imports xs) rest = refl
  assigns-rewrite_stmt names (assigns a) rest = elim (Bool-cases (is_all a)) [
    | inl e ↦ rw e refl
    | inr e ↦ rw e refl
  ]
  assigns-rewrite_stmt names (block k bs) rest =
      ap (λ r. r ++ all_assigns rest) (assigns-rewrite_bodies names bs)
  assigns-rewrite_stmt names (simple k) rest = refl

  assigns-rewrite_bodies :
      (names : List String) (bs : Bodies)
      → bodies_assigns (rewrite_bodies names bs) ≡ only_all names (bodies_assigns bs)
  assigns-rewrite_bodies names end = refl
  assigns-rewrite_bodies names (body ss bs) =
      ap₂ (λ a b. a ++ b) (assigns-rewrite names ss) (assigns-rewrite_bodies names bs)
      ∙ sym (only_all-append names (all_assigns ss) (bodies_assigns bs))

mutual
  unfolding rewrite

  rewrite_twice :
      (names : List String) (ss : Stmts) → rewrite names (rewrite names ss) ≡ rewrite names ss
  rewrite_twice names nil = refl
  rewrite_twice names (next s ss) =
      rewrite_twice_stmt names s (rewrite names ss)
      ∙ ap (rewrite_stmt names s) (rewrite_twice names ss)

  rewrite_twice_stmt :
      (names : List String) (s : Stmt) (rest : Stmts)
      → rewrite names (rewrite_stmt names s rest) ≡ rewrite_stmt names s (rewrite names rest)
  rewrite_twice_stmt names (imports xs) rest = refl
  rewrite_twice_stmt names (assigns a) rest = elim (Bool-cases (is_all a)) [
    | inl e ↦ rw e refl
    | inr e ↦ rw e refl
  ]
  rewrite_twice_stmt names (block k bs) rest =
      ap (λ r. next (block k r) (rewrite names rest)) (rewrite_twice_bodies names bs)
  rewrite_twice_stmt names (simple k) rest = refl

  rewrite_twice_bodies :
      (names : List String) (bs : Bodies)
      → rewrite_bodies names (rewrite_bodies names bs) ≡ rewrite_bodies names bs
  rewrite_twice_bodies names end = refl
  rewrite_twice_bodies names (body ss bs) =
      ap₂ body (rewrite_twice names ss) (rewrite_twice_bodies names bs)

-- The script gives every assignment to `__all__` the imported names, in their order, and keeps the imports. It
-- removes all other assignments, wherever they stand. A module that it wrote it leaves as it is.
pub process_tree_cases :
    (ss : Stmts)
    → (collect (process_tree ss) ≡ collect ss)
      × (all_assigns (process_tree ss) ≡ only_all (collect ss) (all_assigns ss))
      × (process_tree (process_tree ss) ≡ process_tree ss)
unfolding process_tree
process_tree_cases ss =
    let same = collect-rewrite (collect ss) ss in
    (
      same,
      assigns-rewrite (collect ss) ss,
      ap (λ names. rewrite names (rewrite (collect ss) ss)) same ∙ rewrite_twice (collect ss) ss,
    )
