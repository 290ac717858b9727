-- ===== src/Hdl/Instances.antt =====
-- Concrete widths and memories, at which the parameters' laws hold.
use transactron.Prelude.{
  ℕ, zero, suc, ◌^◌, ◌<◌, Bool, ◌&&◌, ◌==◌, if◌then◌else◌, get_or, refl, arith,
}
use transactron.Hdl.Widths.{RangeShape}
use transactron.Hdl.Memory.{Memory}
use transactron.Hdl.Arrays.{ArrayRead}

pub lt-power : (n : ℕ) → n < 2 ^ n
lt-power zero = omega arith
lt-power (suc n) = omega (arith, lt-power n)

-- One bit per number.
abbrev pub unary : RangeShape
unary = record { width = λ n. n; fits = λ n i h. omega (arith, lt-power n) }

pub record Rows {ℓ} (A : Type ℓ) : Type ℓ where
  pub row : ℕ → A
  pub port : A

abbrev updated {ℓ} : {A : Type ℓ} → (ℕ → A) → Bool → ℕ → A → ℕ → A
updated row en w d i = if en && w == i then d else row i

-- A memory as a function from addresses.
abbrev pub function_memory {ℓ} : (A : Type ℓ) (depth : ℕ) → Memory A depth
function_memory A depth = record {
  Cells = Rows A;
  row = λ m. m.row;
  port_data = λ m. m.port;
  tick = λ m en w d r. record { row = updated m.row en w d; port = updated m.row en w d r };
  row-tick = λ m en w d r i h. refl;
  port_data-tick = λ m en w d r h. refl;
}

-- An index past the end reads 0.
abbrev pub zero_past : ArrayRead
zero_past = record { at = λ xs i. get_or xs i 0; inside = λ xs i h. refl }
