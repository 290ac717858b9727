-- ===== src/Ctrl/Tests.antt =====
-- Runs of the control path functions, and the theorems about them at concrete paths.
use transactron.Prelude.{ℕ, true, false, some, List, [], ◌∷◌, ◌≡◌, ◌↔◌, refl}
use transactron.Ctrl.{
  PathEdge, CtrlPath, exclusive_with, call_paths_exclusive, is_prefix, is_proper_prefix,
}
use transactron.Ctrl.Exclusive.{Choice, RunsIn, exclusive_with_iff}
use transactron.Ctrl.Builder.{CtrlPathBuilder, new}
use transactron.Ctrl.Builder.Programs.{Block, Branches, Named, run}
use transactron.Ctrl.Builder.Executed.{executed, running, run-executed}

abbrev edge : ℕ → ℕ → PathEdge
edge a p = record { alt = a; par = p }

abbrev in_if : CtrlPath
in_if = record { module_uid = 3; path = edge 0 0 ∷ [] }

abbrev in_else : CtrlPath
in_else = record { module_uid = 3; path = edge 1 0 ∷ edge 2 0 ∷ [] }

abbrev in_other_if : CtrlPath
in_other_if = record { module_uid = 3; path = edge 1 1 ∷ [] }

-- An `If` with a body and an `Else` that holds a `Switch` of two cases, then a second `If`.
abbrev program : Block
program =
    Block.chain (Block.body 10 Block.done)
      (Branches.branch
        (Block.switch
          (Branches.branch (Block.body 11 Block.done)
            (Branches.branch (Block.body 12 Block.done) Branches.last))
          Block.done)
        Branches.last)
      (Block.chain (Block.body 13 Block.done) Branches.last Block.done)

exclusive_tests :
    (exclusive_with in_if in_else ≡ true)
    × (exclusive_with in_if in_other_if ≡ false)
    × (exclusive_with in_if in_if ≡ false)
    × (exclusive_with in_if (record in_else { module_uid = 4 }) ≡ false)
unfolding exclusive_with
exclusive_tests = (refl, refl, refl, refl)

prefix_tests :
    (is_prefix in_if (record in_if { path = edge 0 0 ∷ edge 1 0 ∷ [] }) ≡ true)
    × (is_prefix in_else in_if ≡ false)
    × (is_proper_prefix in_if in_if ≡ false)
unfolding is_prefix is_proper_prefix
prefix_tests = (refl, refl, refl)

program_paths :
    (out : Named) × (b : CtrlPathBuilder) × (run program (new 3) ≡ some (out, b))
    × (out
        ≡ (10, in_if)
          ∷ (11, record { module_uid = 3; path = edge 1 0 ∷ edge 1 0 ∷ [] })
          ∷ (12, in_else)
          ∷ (13, record { module_uid = 3; path = edge 0 1 ∷ [] })
          ∷ [])
unfolding run new
program_paths =
    (_, record { module_uid = 3; ctrl_path = []; previous = some (edge 0 1) }, refl, refl)

exclusive_with_iff_example :
    (exclusive_with in_if in_else ≡ true)
    ↔ ((c : ℕ → Choice) → RunsIn c in_if → RunsIn c in_else → ⊥)
exclusive_with_iff_example = exclusive_with_iff in_if in_else

abbrev if_then_call : List CtrlPath
if_then_call = in_other_if ∷ in_if ∷ []

abbrev else_then_call : List CtrlPath
else_then_call = in_other_if ∷ in_else ∷ []

calls_exclusive_test : call_paths_exclusive if_then_call else_then_call ≡ true
unfolding call_paths_exclusive exclusive_with
calls_exclusive_test = refl

abbrev takes_first : ℕ → Choice
takes_first m pre par = some 0

run-executed_example :
    (out : Named) × (b : CtrlPathBuilder) × (run program (new 3) ≡ some (out, b))
    × ((c : Choice) → running c out ≡ executed c program 0)
run-executed_example = run-executed program 3
