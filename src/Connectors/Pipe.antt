-- ===== src/Connectors/Pipe.antt =====
-- `Pipe` of transactron/lib/connectors.py. The result of a cycle is what `peek` gives, `none` if it is
-- not ready.
use transactron.Prelude.{Bool, not, ◌&&◌, ◌||◌, Option, none, some, if◌then◌else◌}
use transactron.Hdl.{Cycle, runs_if_ready}
use transactron.Connectors.{Registers, store, invalidate}

module _ {ℓ} {A : Type ℓ} where
  abbrev write_ready : Registers A → Cycle A → Bool
  write_ready r c = not r.reg_valid || c.read

  unfoldable pub pipe : Registers A → Cycle A → Option (Option A × Registers A)
  pipe r c =
      if runs_if_ready c.read r.reg_valid && runs_if_ready c.write (write_ready r c)
      then some (
        (if r.reg_valid then some r.reg else none),
        invalidate c.clear (store c.write c.data_in (invalidate c.read r)),
      )
      else none
