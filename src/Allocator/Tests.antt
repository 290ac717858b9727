-- ===== src/Allocator/Tests.antt =====
-- A cycle of an allocator of five identifiers, of which 3 and 4 are allocated: two more are allocated
-- and one is freed.
use transactron.Prelude.{◌+◌, ◌%◌, true, false, some, [], ◌∷◌, ◌≡◌, refl, arith, get_or}
use transactron.Hdl.Instances.{unary}
use transactron.Hdl.Widths.{wrap}
use transactron.Modulo.{mod_add, and_bits, switch_value}
use transactron.Allocator.{
  Pointers, Requests, Results, idents, next_idx, next_allocated, next_pointers, results,
  allocator_cycle,
}
use transactron.Allocator.Correct.{IsValid, InRange}
use transactron.Allocator.Cycles.{allocator_cycle-IsValid, allocator_cycle-fresh}

abbrev before : Pointers
before = record { start_idx = 3; end_idx = 0; allocated = 2 }

abbrev requests : Requests
requests = record { alloc = true; alloc_count = 2; free = true; free_count = 1; clear = false }

abbrev given : Results
given = record {
  alloc_idents = 0 ∷ 1 ∷ [];
  new_end_idx = 2;
  free_idents = 3 ∷ 4 ∷ [];
  new_start_idx = 4;
}

abbrev later : Pointers
later = record { start_idx = 4; end_idx = 2; allocated = 3 }

cycle : allocator_cycle unary 5 2 2 true before requests ≡ some (given, later)
unfolding allocator_cycle next_pointers results idents next_idx next_allocated mod_add and_bits
    switch_value wrap
cycle = refl

before-IsValid : IsValid 5 before
before-IsValid = (omega arith, (omega arith, refl))

in_range : InRange 2 2 requests
in_range = (omega arith, omega arith)

allocator_cycle-IsValid_example : IsValid 5 later
allocator_cycle-IsValid_example =
    allocator_cycle-IsValid unary 5 2 2 before requests given later cycle (omega arith)
      before-IsValid in_range

-- The second identifier handed out is not the second one allocated before.
allocator_cycle-fresh_example : ¬ ((3 + 1) % 5 ≡ get_or given.alloc_idents 1 7)
allocator_cycle-fresh_example =
    allocator_cycle-fresh unary 5 2 2 before requests given later cycle 1 1 7 before-IsValid
      in_range refl (omega arith) (omega arith)
