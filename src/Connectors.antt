-- ===== src/Connectors.antt =====
-- What `Forwarder` and `Pipe` of transactron/lib/connectors.py share: their registers, and the
-- synchronous assignments to them in the order of the source, of which the last one counts.
pub mod Forwarder
pub mod Pipe
pub mod Buffers
mod Tests
use transactron.Prelude.{Bool, true, false, not, ◌&&◌, ◌||◌, Option, none, some, if◌then◌else◌}
use transactron.Hdl.{Cycle}

pub record Registers {ℓ} (A : Type ℓ) : Type ℓ where
  pub reg : A
  pub reg_valid : Bool

-- Assignments in a method body, made when the method runs.
module _ {ℓ} {A : Type ℓ} where
  abbrev pub store : Bool → A → Registers A → Registers A
  store run arg r = if run then record { reg = arg; reg_valid = true } else r

  abbrev pub invalidate : Bool → Registers A → Registers A
  invalidate run r = if run then record r { reg_valid = false } else r
