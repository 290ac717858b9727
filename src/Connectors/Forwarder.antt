-- ===== src/Connectors/Forwarder.antt =====
-- `Forwarder` of transactron/lib/connectors.py. The result of a cycle is what `peek` gives, `none` if
-- it is not ready.
use transactron.Prelude.{Bool, not, ◌&&◌, ◌||◌, Option, none, some, if◌then◌else◌}
use transactron.Hdl.{Cycle, runs_if_ready}
use transactron.Connectors.{Registers, store, invalidate}

module _ {ℓ} {A : Type ℓ} where
  abbrev read_ready : Registers A → Cycle A → Bool
  read_ready r c = r.reg_valid || c.write

  -- The `av_comb` signal, which no control structure guards but its own `m.If`.
  abbrev read_value : Registers A → Cycle A → A
  read_value r c = if r.reg_valid then r.reg else c.data_in

  unfoldable pub forward : Registers A → Cycle A → Option (Option A × Registers A)
  forward r c =
      if runs_if_ready c.write (not r.reg_valid) && runs_if_ready c.read (read_ready r c)
      then some (
        (if read_ready r c then some (read_value r c) else none),
        invalidate c.clear (invalidate c.read (store c.write c.data_in r)),
      )
      else none
