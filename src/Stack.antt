-- ===== src/Stack.antt =====
-- `Stack` of transactron/lib/stack.py: the register `level` and a memory. The result of a cycle is
-- what `peek` gives, `none` if it is not ready.
pub mod Refines
mod Tests
use transactron.Prelude.{
  ℕ, ◌+◌, Bool, true, false, not, ◌&&◌, Option, none, some, ◌==◌, if◌then◌else◌,
}
use transactron.Hdl.{Cycle, runs_if_ready}
use transactron.Hdl.Widths.{RangeShape, wrap, wrap_pred}
use transactron.Hdl.Memory.{Memory}

module _ {ℓ} {A : Type ℓ} (shape : RangeShape) (depth : ℕ) (memory : Memory A depth) where
  pub record StackRegisters : Type ℓ where
    pub level : ℕ
    pub cells : memory.Cells

  abbrev pub read_ready : StackRegisters → Bool
  read_ready s = not (s.level == 0)

  abbrev pub write_ready : StackRegisters → Bool
  write_ready s = not (s.level == depth)

  -- `next_level`, by its assignments from the last to the first.
  unfoldable pub next_level : StackRegisters → Cycle A → ℕ
  next_level s c =
      if c.clear
      then 0
      else (if c.write && not c.read
          then wrap shape (depth + 1) (s.level + 1)
          else (if c.read && not c.write then wrap_pred shape (depth + 1) s.level else s.level))

  -- `data_rdport.addr`, and `data_wrport.addr` too.
  unfoldable pub port_addr : StackRegisters → Cycle A → ℕ
  port_addr s c = wrap_pred shape depth (next_level s c)

  -- The registers after the cycle.
  unfoldable pub after : StackRegisters → Cycle A → StackRegisters
  after s c = record {
    level = next_level s c;
    cells = memory.tick s.cells c.write (port_addr s c) c.data_in (port_addr s c);
  }

  abbrev pub legal : StackRegisters → Cycle A → Bool
  legal s c = runs_if_ready c.read (read_ready s) && runs_if_ready c.write (write_ready s)

  abbrev pub peek : StackRegisters → Option A
  peek s = if read_ready s then some (memory.port_data s.cells) else none

  unfoldable pub stack_cycle : StackRegisters → Cycle A → Option (Option A × StackRegisters)
  unfolding after
  stack_cycle s c = if legal s c then some (peek s, after s c) else none
