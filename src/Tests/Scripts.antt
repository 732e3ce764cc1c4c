-- ===== src/Tests/Scripts.antt =====
-- The script of scripts/gen_all.py on a small module.
use aio.Prelude.{◌≡◌, refl, none, some, [], ◌∷◌}
use aio.GenAll.{
  named, constants, no_list, Stmts, imports, assigns, block, nil, next, end, body, collect, rewrite,
  process_tree,
}
use aio.GenAll.Rewrite.{all_assigns, only_all, process_tree_cases}

-- `from aio.loop.entry import run`, `if ...: import abc as letters`, `__version__ = ...`, `__all__ = []`.
abbrev some_module : Stmts
some_module = next (imports (record { name = "run"; asname = none } ∷ [])) (
    next
      (block 0
        (body (next (imports (record { name = "abc"; asname = some "letters" } ∷ [])) nil) end))
      (next (assigns (record { targets = named "__version__" ∷ []; value = no_list 0 }))
        (next (assigns (record { targets = named "__all__" ∷ []; value = constants [] })) nil)))

some_module_collected : collect some_module ≡ "run" ∷ "letters" ∷ []
unfolding collect
some_module_collected = refl

-- The version is gone.
some_module_assigns :
    all_assigns (process_tree some_module)
    ≡ (record { targets = named "__all__" ∷ []; value = constants ("run" ∷ "letters" ∷ []) }) ∷ []
unfolding process_tree rewrite collect all_assigns
some_module_assigns = refl

process_tree_cases_example :
    (collect (process_tree some_module) ≡ collect some_module)
    × (all_assigns (process_tree some_module)
        ≡ only_all (collect some_module) (all_assigns some_module))
    × (process_tree (process_tree some_module) ≡ process_tree some_module)
process_tree_cases_example = process_tree_cases some_module
