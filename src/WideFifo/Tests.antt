-- ===== src/WideFifo/Tests.antt =====
-- A WideFifo of two rows that is read by two and written by three elements at most.
use transactron.Prelude.{
  ℕ, ◌+◌, ◌≤◌, ◌<◌, Bool, true, false, none, some, List, [], ◌∷◌, ◌≡◌, refl, arith,
}
use transactron.Hdl.{trace}
use transactron.Hdl.Widths.{wrap}
use transactron.Hdl.Memory.{Memory}
use transactron.Hdl.Instances.{unary, function_memory}
use transactron.Shifter.{rotate_left, rotate_vec_right, rotate_vec_left}
use transactron.Shifter.Instances.{part, one_bit}
use transactron.Modulo.{mod_incr}
use transactron.WideFifo.{
  WideShape, col_count, wide_depth, start, WideCalls, WideRegisters, wide_cycle, wide_after,
  list_cycle, write_enables, shifted_data, incr_row, advance, port_addr,
}
use transactron.WideFifo.Positions.{IsIndex, place, around}
use transactron.WideFifo.Refines.{wide_fifo-list, reset, next, wide_fifo_bounds}

abbrev two_rows : WideShape
two_rows = record { read_width = 2; write_width = 3; row_count = 2 }

abbrev memory : Memory Bool 2
memory = function_memory Bool 2

abbrev storage : ℕ → memory.Cells
storage i = record { row = λ a. false; port = false }

abbrev fresh : WideRegisters unary part one_bit two_rows memory
fresh = record { read_idx = start; write_idx = start; level = 0; storage = storage }

abbrev writing : ℕ → List Bool → WideCalls Bool
writing n xs = record {
  read = false;
  read_count = 0;
  write = true;
  write_count = n;
  write_data = xs;
  clear = false;
}

abbrev reading : ℕ → WideCalls Bool
reading n = record {
  read = true;
  read_count = n;
  write = false;
  write_count = 0;
  write_data = false ∷ false ∷ false ∷ [];
  clear = false;
}

abbrev cycles : List (WideCalls Bool)
cycles =
    writing 2 (true ∷ false ∷ true ∷ [])
    ∷ writing 3 (true ∷ true ∷ false ∷ [])
    ∷ reading 2
    ∷ reading 1
    ∷ reading 3
    ∷ []

runs :
    trace (wide_cycle unary part one_bit two_rows memory) fresh cycles
    ≡ some (
        (none, [])
        ∷ (some (true ∷ false ∷ []), [])
        ∷ (some (true ∷ false ∷ []), true ∷ false ∷ [])
        ∷ (some (true ∷ true ∷ []), true ∷ [])
        ∷ (some (true ∷ false ∷ []), true ∷ false ∷ [])
        ∷ [])
unfolding trace wide_cycle write_enables shifted_data col_count wrap rotate_vec_right rotate_left
    port_addr advance rotate_vec_left mod_incr incr_row
runs = refl

columns : 0 < col_count two_rows
unfolding col_count
columns = omega arith

wide_fifo-list_example :
    trace (wide_cycle unary part one_bit two_rows memory) fresh cycles
    ≡ trace (list_cycle unary part one_bit two_rows memory) [] cycles
wide_fifo-list_example =
    wide_fifo-list unary part one_bit two_rows memory storage cycles (omega arith) columns

abbrev first : WideCalls Bool
first = writing 2 (true ∷ false ∷ true ∷ [])

abbrev written : WideRegisters unary part one_bit two_rows memory
written = wide_after unary part one_bit two_rows memory fresh first

first_cycle : wide_cycle unary part one_bit two_rows memory fresh first ≡ some ((none, []), written)
unfolding wide_cycle wrap col_count
first_cycle = refl

empty_refused : wide_cycle unary part one_bit two_rows memory fresh (reading 1) ≡ none
unfolding wide_cycle
empty_refused = refl

wide_fifo_bounds_example :
    IsIndex two_rows written.read_idx
    × IsIndex two_rows written.write_idx
    × (written.level ≤ wide_depth two_rows)
    × (place two_rows written.write_idx
        ≡ around two_rows (place two_rows written.read_idx + written.level))
wide_fifo_bounds_example =
    wide_fifo_bounds unary part one_bit two_rows memory (omega arith) columns
      (next first (none, []) (reset storage) first_cycle)
