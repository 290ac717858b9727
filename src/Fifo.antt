-- ===== src/Fifo.antt =====
-- `BasicFifo` of transactron/lib/fifo.py: a CircularAllocator and a memory. The result of a cycle is
-- what `peek` gives, `none` if it is not ready.
pub mod Window
pub mod Registers
pub mod Refines
mod Tests
use transactron.Prelude.{ℕ, Bool, true, false, ◌&&◌, Option, none, some, if◌then◌else◌}
use transactron.Hdl.{Cycle, runs_if_ready}
use transactron.Hdl.Widths.{RangeShape}
use transactron.Hdl.Memory.{Memory}
use transactron.Allocator.{Pointers, Requests, next_pointers, next_idx, alloc_ready, free_ready}

module _ {ℓ} {A : Type ℓ} (shape : RangeShape) (depth : ℕ) (memory : Memory A depth) where
  pub record FifoRegisters : Type ℓ where
    pub allocator : Pointers
    pub cells : memory.Cells

  -- The methods of the allocator that `write`, `read` and `clear` call.
  abbrev pub requests : Cycle A → Requests
  requests c = record {
    alloc = c.write;
    alloc_count = 1;
    free = c.read;
    free_count = 1;
    clear = c.clear;
  }

  -- A method is ready if those that it calls are. `max_alloc` and `max_free` are 1.
  abbrev pub fifo_write_ready : FifoRegisters → Bool
  fifo_write_ready s = alloc_ready shape depth 1 1 true s.allocator 1

  abbrev pub fifo_read_ready : FifoRegisters → Bool
  fifo_read_ready s = free_ready shape depth 1 1 true s.allocator 1

  -- `data_rdport.addr`: the assignment in the body of `read` comes last.
  unfoldable pub read_addr : FifoRegisters → Cycle A → ℕ
  read_addr s c =
      if c.read
      then next_idx shape depth 1 1 true s.allocator.start_idx 1 1
      else s.allocator.start_idx

  unfoldable pub fifo_after : FifoRegisters → Cycle A → FifoRegisters
  unfolding read_addr
  fifo_after s c = record {
    allocator = next_pointers shape depth 1 1 true s.allocator (requests c);
    cells = memory.tick s.cells c.write s.allocator.end_idx c.data_in (read_addr s c);
  }

  abbrev pub fifo_legal : FifoRegisters → Cycle A → Bool
  fifo_legal s c =
      runs_if_ready c.read (fifo_read_ready s) && runs_if_ready c.write (fifo_write_ready s)

  abbrev pub fifo_peek : FifoRegisters → Option A
  fifo_peek s = if fifo_read_ready s then some (memory.port_data s.cells) else none

  unfoldable pub fifo_cycle : FifoRegisters → Cycle A → Option (Option A × FifoRegisters)
  unfolding fifo_after
  fifo_cycle s c = if fifo_legal s c then some (fifo_peek s, fifo_after s c) else none
