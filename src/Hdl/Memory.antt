-- ===== src/Hdl/Memory.antt =====
-- Amaranth's `memory.Memory` with a write port and a synchronous read port that is transparent for
-- it. The memory is a parameter: its cells, and the register of the read port.
use transactron.Prelude.{ℕ, ◌<◌, Bool, ◌&&◌, ◌==◌, if◌then◌else◌, ◌≡◌}

pub record Memory {ℓ} (A : Type ℓ) (depth : ℕ) : Type (ℓ + 1) where
  pub Cells : Type ℓ
  pub row : Cells → ℕ → A
  pub port_data : Cells → A
  -- One clock cycle: the enable, address and data of the write port, the address of the read port.
  pub tick : Cells → Bool → ℕ → A → ℕ → Cells
  pub row-tick :
      (m : Cells) (en : Bool) (w : ℕ) (d : A) (r i : ℕ)
      → i < depth
      → row (tick m en w d r) i ≡ (if en && w == i then d else row m i)
  pub port_data-tick :
      (m : Cells) (en : Bool) (w : ℕ) (d : A) (r : ℕ)
      → r < depth
      → port_data (tick m en w d r) ≡ (if en && w == r then d else row m r)
