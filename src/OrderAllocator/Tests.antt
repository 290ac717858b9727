-- ===== src/OrderAllocator/Tests.antt =====
-- Four identifiers, of which 2 and 0 are allocated: 3 is allocated and 2 is freed in one cycle.
use transactron.Prelude.{true, false, some, [], ◌∷◌, ◌≡◌, refl, arith}
use transactron.Hdl.Instances.{unary, zero_past}
use transactron.Hdl.Widths.{wrap, wrap_pred}
use transactron.OrderAllocator.{OrderRegisters, OrderCalls, free, order_cycle}
use transactron.OrderAllocator.Allocated.{IsPermuted, without, order_cycle-allocated}

abbrev before : OrderRegisters
before = record { order = 2 ∷ 0 ∷ 3 ∷ 1 ∷ []; used = 2 }

abbrev after : OrderRegisters
after = record { order = 0 ∷ 3 ∷ 1 ∷ 2 ∷ []; used = 2 }

abbrev calls : OrderCalls
calls = record { alloc = true; freed = free 2; clear = false }

cycle : order_cycle unary zero_past 4 before calls ≡ some (3, after)
unfolding order_cycle wrap wrap_pred
cycle = refl

before-IsPermuted : IsPermuted 4 before
before-IsPermuted = (refl, (omega arith, (refl, λ x m. ground arith)))

order_cycle-allocated_example : 0 ∷ 3 ∷ [] ≡ without (free 2) (2 ∷ 0 ∷ 3 ∷ [])
order_cycle-allocated_example =
    order_cycle-allocated unary zero_past 4 3 before after calls before-IsPermuted refl cycle refl
