-- ===== src/Fifo/Tests.antt =====
-- A run of a queue with three entries, of which the indices wrap around.
use transactron.Prelude.{ℕ, Bool, true, false, none, some, List, [], ◌∷◌, ◌≡◌, refl, arith}
use transactron.Hdl.{Cycle, trace}
use transactron.Hdl.Queue.{pop_append}
use transactron.Hdl.Instances.{Rows, unary, function_memory}
use transactron.Allocator.{cleared_pointers}
use transactron.Fifo.{fifo_cycle}
use transactron.Fifo.Refines.{fifo-pop_append}

abbrev memory_at_start : Rows ℕ
memory_at_start = record { row = λ i. 9; port = 9 }

abbrev signals : Bool → Bool → ℕ → Cycle ℕ
signals read write d = record { read = read; write = write; data_in = d; clear = false }

abbrev cycles : List (Cycle ℕ)
cycles =
    signals false true 1
    ∷ signals false true 2
    ∷ signals true true 3
    ∷ signals false true 4
    ∷ signals true false 0
    ∷ signals true true 5
    ∷ signals true false 0
    ∷ []

fifo_results :
    trace (pop_append 3) [] cycles
    ≡ some (none ∷ some 1 ∷ some 1 ∷ some 2 ∷ some 2 ∷ some 3 ∷ some 4 ∷ [])
unfolding trace
fifo_results = refl

fifo-pop_append_example :
    trace
      (fifo_cycle unary 3 (function_memory ℕ 3))
      (record { allocator = cleared_pointers; cells = memory_at_start })
      cycles
    ≡ trace (pop_append 3) [] cycles
fifo-pop_append_example =
    fifo-pop_append unary 3 (function_memory ℕ 3) (omega arith) memory_at_start cycles
