-- ===== src/OrderAllocator.antt =====
-- `PreservedOrderAllocator` of transactron/lib/allocators.py: the registers `order` and `used`.
pub mod Permuted
pub mod Allocated
mod Tests
use transactron.Prelude.{
  ℕ, zero, suc, ◌+◌, ◌-◌, Bool, true, false, not, Option, none, some, List, [], ◌∷◌, ◌==◌, leb, bit,
  length, if◌then◌else◌,
}
use transactron.Hdl.{runs_if_ready}
use transactron.Hdl.Widths.{RangeShape, wrap, wrap_pred}
use transactron.Hdl.Arrays.{ArrayRead, tabulate}

pub record OrderRegisters : Type 0 where
  pub order : List ℕ
  pub used : ℕ

-- `free` calls `free_idx`, so that one of them runs at most.
pub data FreeCall : Type 0 where
  no_free : FreeCall
  free_idx free : ℕ → FreeCall

pub record OrderCalls : Type 0 where
  pub alloc : Bool
  pub freed : FreeCall
  pub clear : Bool

abbrev pub initial_order : ℕ → List ℕ
initial_order entries = tabulate entries (λ i. i)

-- The last position from `i` on whose element is `ident`; `idx` if there is none.
abbrev pub last_index : ℕ → ℕ → ℕ → List ℕ → ℕ
last_index ident idx i [] = idx
last_index ident idx i (x ∷ order) = last_index ident (if x == ident then i else idx) (i + 1) order

-- The argument of `free_idx`, if it runs.
abbrev pub freed_idx : List ℕ → FreeCall → Option ℕ
freed_idx order no_free = none
freed_idx order (free_idx idx) = some idx
freed_idx order (free ident) = some (last_index ident 0 0 order)

module _ (array : ArrayRead) (entries : ℕ) where
  -- The next value of `order[i]` when `free_idx` runs.
  abbrev pub moved : List ℕ → ℕ → ℕ → ℕ
  moved order idx i =
      if i + 1 == entries
      then array.at order idx
      else (if leb idx i then array.at order (i + 1) else array.at order i)

  abbrev pub next_order : List ℕ → Option ℕ → List ℕ
  next_order order none = order
  next_order order (some idx) = tabulate entries (moved order idx)

module _ (shape : RangeShape) (array : ArrayRead) (entries : ℕ) where
  abbrev pub incr_used : ℕ → Bool → ℕ
  incr_used used alloc = wrap shape (entries + 1) (used + bit alloc)

  -- `incr_used - self.free_idx.run`
  abbrev pub next_used : ℕ → Bool → Option ℕ → ℕ
  next_used used alloc none = wrap shape (entries + 1) (incr_used used alloc)
  next_used used alloc (some idx) = wrap_pred shape (entries + 1) (incr_used used alloc)

  -- The result is that of `alloc`.
  unfoldable pub order_cycle : OrderRegisters → OrderCalls → Option (ℕ × OrderRegisters)
  order_cycle s c =
      let idx : Option ℕ = freed_idx s.order c.freed in
      let next : OrderRegisters = record {
        order = next_order array entries s.order idx;
        used = next_used s.used c.alloc idx;
      } in
      let cleared : OrderRegisters = record { order = initial_order entries; used = 0 } in
      if runs_if_ready c.alloc (not (s.used == entries))
      then some (array.at s.order s.used, (if c.clear then cleared else next))
      else none
