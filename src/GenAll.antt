-- ===== src/GenAll.antt =====
-- scripts/gen_all.py: the script that writes `__all__` of the packages. `ast.parse` and `ast.unparse` are arguments;
-- statements are what the script tells apart. A path is a number.
pub mod Rewrite
use text.Mathlib.Text.{◌==◌}
use aio.Prelude.{
  ℕ, String, Bool, false, Option, none, some, List, [], ◌∷◌, ◌++◌, if◌then◌else◌, update,
}
use aio.Exceptions.{Result, ok, raised}

-- `ast.alias`.
pub record Alias : Type 0 where
  pub name : String
  pub asname : Option String

-- A target of an assignment: a name, or something else.
pub data Target : Type 0 where
  named : String → Target
  no_name : ℕ → Target

-- The right side: a list of constants, or something else.
pub data Value : Type 0 where
  constants : List String → Value
  no_list : ℕ → Value

pub record Assign : Type 0 where
  pub targets : List Target
  pub value : Value

-- `imports` is an `Import` or an `ImportFrom`; `block` a statement with statements inside, such as an `if`, a
-- function or a class.
mutual
  pub data Stmt : Type 0 where
    imports : List Alias → Stmt
    assigns : Assign → Stmt
    block : ℕ → Bodies → Stmt
    simple : ℕ → Stmt

  pub data Stmts : Type 0 where
    nil : Stmts
    next : Stmt → Stmts → Stmts

  -- The lists of statements of a block.
  pub data Bodies : Type 0 where
    end : Bodies
    body : Stmts → Bodies → Bodies

-- `alias.asname or alias.name`; the empty string is false.
abbrev name_of : Alias → String
name_of a = elim a.asname [ none ↦ a.name | some n ↦ if n == "" then a.name else n ]

abbrev names_of : List Alias → List String
names_of [] = []
names_of (a ∷ xs) = name_of a ∷ names_of xs

-- `ImportCollector`: a visit of the whole tree.
unfoldable mutual
  collect_stmt : Stmt → List String
  collect_stmt (imports xs) = names_of xs
  collect_stmt (assigns a) = []
  collect_stmt (block k bs) = collect_bodies bs
  collect_stmt (simple k) = []

  pub collect : Stmts → List String
  collect nil = []
  collect (next s ss) = collect_stmt s ++ collect ss

  collect_bodies : Bodies → List String
  collect_bodies end = []
  collect_bodies (body ss bs) = collect ss ++ collect_bodies bs

-- The pattern `[ast.Name(id="__all__")]`.
abbrev is_all_name : Target → Bool
is_all_name (named n) = n == "__all__"
is_all_name (no_name k) = false

abbrev pub is_all : Assign → Bool
is_all a = elim a.targets [
  | [] ↦ false
  | t ∷ ts ↦ (elim ts [ [] ↦ is_all_name t | u ∷ us ↦ false ])
]

abbrev pub all_assign : List String → Assign
all_assign names = record { targets = named "__all__" ∷ []; value = constants names }

-- `visit_Assign`: none removes the statement.
abbrev visit_assign : List String → Assign → Option Assign
visit_assign names a = if is_all a then some (all_assign names) else none

abbrev keep_assign : Option Assign → Stmts → Stmts
keep_assign none ss = ss
keep_assign (some a) ss = next (assigns a) ss

-- `RewriteAll`: a transformation of the whole tree.
unfoldable mutual
  pub rewrite : List String → Stmts → Stmts
  rewrite names nil = nil
  rewrite names (next s ss) = rewrite_stmt names s (rewrite names ss)

  rewrite_stmt : List String → Stmt → Stmts → Stmts
  rewrite_stmt names (imports xs) rest = next (imports xs) rest
  rewrite_stmt names (assigns a) rest = keep_assign (visit_assign names a) rest
  rewrite_stmt names (block k bs) rest = next (block k (rewrite_bodies names bs)) rest
  rewrite_stmt names (simple k) rest = next (simple k) rest

  rewrite_bodies : List String → Bodies → Bodies
  rewrite_bodies names end = end
  rewrite_bodies names (body ss bs) = body (rewrite names ss) (rewrite_bodies names bs)

-- What `process` makes of a file's tree.
unfoldable pub process_tree : Stmts → Stmts
process_tree ss = rewrite (collect ss) ss

module _ (parse : String → Result Stmts) (unparse : Stmts → String) where
  -- `process`: a file that can not be parsed is left as it is.
  unfoldable pub process : ℕ → (ℕ → String) → (ℕ → String) × Result (Unit {0})
  process path files = elim (parse (files path)) [
    | raised e ↦ (files, raised e)
    | ok ss ↦ (update files path (unparse (process_tree ss)), ok tt)
  ]

  -- The loop of `gen_all` over the `__init__.py` files of a directory. Each is first parsed to be printed.
  unfoldable pub process_all : List ℕ → (ℕ → String) → (ℕ → String) × Result (Unit {0})
  process_all [] files = (files, ok tt)
  process_all (path ∷ paths) files =
      let rest = process_all paths (process path files).0 in
      elim (process path files).1 [ raised e ↦ ((process path files).0, raised e) | ok u ↦ rest ]
