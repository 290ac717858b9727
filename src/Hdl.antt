-- ===== src/Hdl.antt =====
-- What the hardware components of transactron/lib share. A component is stepped once per clock
-- cycle: the step takes the registers and the signals from outside to the cycle's results and the
-- registers after it. A cycle in which a method runs that is not ready does not happen: it is
-- `none`.
pub mod Queue
pub mod Widths
pub mod Memory
pub mod Arrays
pub mod Instances
pub mod Simulation
use transactron.Prelude.{Bool, not, ◌||◌, Option, none, some, List, [], ◌∷◌}

module _ {ℓ κ ι} {S : Type ℓ} {I : Type κ} {O : Type ι} where
  -- The results of a run, cycle by cycle.
  unfoldable pub trace : (S → I → Option (O × S)) → S → List I → Option (List O)
  trace step s [] = some []
  trace step s (i ∷ is) = elim (step s i) [
    | none ↦ none
    | some (o, s') ↦ elim (trace step s' is) [ none ↦ none | some os ↦ some (o ∷ os) ]
  ]

-- The signals of one cycle at a component with the methods `read`, `write` and `clear`, with
-- results and arguments in `A`: which of them run, and the argument on the wires of `write`, which
-- has a value also when `write` does not run.
pub record Cycle {ℓ} (A : Type ℓ) : Type ℓ where
  pub read : Bool
  pub write : Bool
  pub data_in : A
  pub clear : Bool

-- A method that runs is ready.
abbrev pub runs_if_ready : Bool → Bool → Bool
runs_if_ready run ready = not run || ready
