-- ===== src/MaskAllocator/Tests.antt =====
-- An allocator of four identifiers with two `alloc` methods: 0 is in use and 2 is freed.
use transactron.Prelude.{
  ◌<◌, Bool, true, false, none, some, List, [], ◌∷◌, get_or, ◌≡◌, refl, arith,
}
use transactron.Hdl.Instances.{unary}
use transactron.Hdl.Widths.{wrap}
use transactron.Encoder.{Slots, multi_encoder, build_tree}
use transactron.Encoder.Slots.{set_bits, slots_of}
use transactron.Encoder.Tree.{multi_encoder-slots_of}
use transactron.MaskAllocator.{Calls, mask_cycle}
use transactron.MaskAllocator.Identifiers.{mask_cycle-fresh}

abbrev not_used : List Bool
not_used = false ∷ true ∷ false ∷ true ∷ []

abbrev all_free : List Bool
all_free = true ∷ true ∷ true ∷ true ∷ []

abbrev calls : Calls
calls = record { allocs = true ∷ true ∷ []; frees = some 2 ∷ []; replace = none; clear = false }

abbrev outputs : Slots
outputs = (1, true) ∷ (3, true) ∷ []

abbrev later : List Bool
later = false ∷ false ∷ true ∷ false ∷ []

cycle : mask_cycle unary 2 all_free not_used calls ≡ some (outputs, later)
unfolding mask_cycle multi_encoder build_tree wrap
cycle = refl

mask_cycle-fresh_example :
    (get_or not_used (get_or outputs 0 (0, false)).0 false ≡ true)
    × ((get_or not_used (get_or outputs 1 (0, false)).0 false ≡ true)
        × ((get_or outputs 0 (0, false)).0 < (get_or outputs 1 (0, false)).0))
mask_cycle-fresh_example =
    mask_cycle-fresh unary 2 all_free not_used later calls outputs (omega arith) (omega arith) cycle
      0 1 (omega arith) (omega arith) refl refl

multi_encoder-slots_of_example :
    multi_encoder unary 2 not_used ≡ some (slots_of 2 (set_bits 0 not_used))
multi_encoder-slots_of_example = multi_encoder-slots_of unary 2 not_used (omega arith) (omega arith)
