-- ===== src/Stack/Tests.antt =====
-- A run of a stack with room for two elements.
use transactron.Prelude.{ℕ, Bool, true, false, none, some, List, [], ◌∷◌, ◌≡◌, refl}
use transactron.Hdl.{Cycle, trace}
use transactron.Hdl.Queue.{pop_push}
use transactron.Hdl.Instances.{Rows, unary, function_memory}
use transactron.Stack.{stack_cycle}
use transactron.Stack.Refines.{stack-pop_push}

abbrev memory_at_start : Rows ℕ
memory_at_start = record { row = λ i. 9; port = 9 }

abbrev signals : Bool → Bool → ℕ → Cycle ℕ
signals read write d = record { read = read; write = write; data_in = d; clear = false }

-- Push 1 and 2, replace 2 by 3, pop both.
abbrev cycles : List (Cycle ℕ)
cycles =
    signals false true 1
    ∷ signals false true 2
    ∷ signals true false 0
    ∷ signals true true 3
    ∷ signals true false 0
    ∷ []

stack-pop_push_example :
    trace
      (stack_cycle unary 2 (function_memory ℕ 2))
      (record { level = 0; cells = memory_at_start })
      cycles
    ≡ trace (pop_push 2) [] cycles
stack-pop_push_example = stack-pop_push unary 2 (function_memory ℕ 2) memory_at_start cycles

stack_results : trace (pop_push 2) [] cycles ≡ some (none ∷ some 1 ∷ some 2 ∷ some 1 ∷ some 3 ∷ [])
unfolding trace
stack_results = refl
