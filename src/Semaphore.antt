-- ===== src/Semaphore.antt =====
-- `Semaphore` of transactron/lib/fifo.py: the register `count`.
pub mod Balance
mod Tests
use transactron.Prelude.{
  ℕ, ◌+◌, ◌-◌, ◌^◌, Bool, true, false, ◌&&◌, Option, none, some, List, [], ◌∷◌, ltb, bit,
  if◌then◌else◌,
}
use transactron.Hdl.{runs_if_ready}
use transactron.Hdl.Widths.{RangeShape, wrap}

-- Which methods run in a cycle.
pub record Calls : Type 0 where
  pub acquire : Bool
  pub release : Bool
  pub clear : Bool

module _ (shape : RangeShape) (max_count : ℕ) where
  abbrev pub release_ready : ℕ → Bool
  release_ready count = ltb 0 count

  abbrev pub acquire_ready : ℕ → Bool
  acquire_ready count = ltb count max_count

  -- `count + acquire.run - release.run` is signed, and `count_next` keeps its low bits.
  unfoldable pub count_next : ℕ → Calls → ℕ
  count_next count c =
      if c.clear
      then 0
      else wrap shape (max_count + 1)
          (count + bit c.acquire + 2 ^ shape.width (max_count + 1) - bit c.release)

  unfoldable pub semaphore_cycle : ℕ → Calls → Option ℕ
  unfolding count_next
  semaphore_cycle count c =
      if runs_if_ready c.acquire (acquire_ready count)
        && runs_if_ready c.release (release_ready count)
      then some (count_next count c)
      else none

  -- The count after a sequence of cycles.
  unfoldable pub semaphore_run : ℕ → List Calls → Option ℕ
  semaphore_run count [] = some count
  semaphore_run count (c ∷ cs) = elim (semaphore_cycle count c) [
    | none ↦ none
    | some next ↦ semaphore_run next cs
  ]
