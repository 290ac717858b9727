-- ===== src/MaskAllocator.antt =====
-- `PriorityEncoderAllocator` of transactron/lib/allocators.py: the register `not_used`, a bit for each
-- identifier. The results of a cycle are the encoder's outputs with their valid bits: what the
-- methods `alloc` give, and whether they are ready.
pub mod Identifiers
mod Tests
use transactron.Prelude.{
  ℕ, Bool, true, false, ◌&&◌, ◌||◌, not, Option, none, some, List, [], ◌∷◌, set, if◌then◌else◌,
}
use transactron.Hdl.{runs_if_ready}
use transactron.Hdl.Widths.{RangeShape}
use transactron.Encoder.{Slots, multi_encoder}

-- Which `alloc` methods run, in their order; the argument of each `free` method that runs; the
-- argument of `replace`, if it runs.
pub record Calls : Type 0 where
  pub allocs : List Bool
  pub frees : List (Option ℕ)
  pub replace : Option (List Bool)
  pub clear : Bool

-- `not_used.bit_select(encoder.outputs[i], 1).eq(0)` for the `alloc` methods that run.
abbrev pub without_allocated : Slots → List Bool → List Bool → List Bool
without_allocated [] runs not_used = not_used
without_allocated (s ∷ slots) [] not_used = not_used
without_allocated (s ∷ slots) (run ∷ runs) not_used =
    without_allocated slots runs (if run then set not_used s.0 false else not_used)

-- `not_used.bit_select(ident, 1).eq(1)` for the `free` methods that run.
abbrev pub with_freed : List (Option ℕ) → List Bool → List Bool
with_freed [] not_used = not_used
with_freed (none ∷ frees) not_used = with_freed frees not_used
with_freed (some ident ∷ frees) not_used = with_freed frees (set not_used ident true)

-- The assignment of `replace` comes last; `clear` calls it with the initial mask.
abbrev pub replaced : List Bool → Calls → List Bool → List Bool
replaced init c not_used =
    if c.clear then init else (elim c.replace [ none ↦ not_used | some mask ↦ mask ])

-- Every `alloc` method that runs is ready.
abbrev pub allocs_ready : Slots → List Bool → Bool
allocs_ready [] runs = true
allocs_ready (s ∷ slots) [] = true
allocs_ready (s ∷ slots) (run ∷ runs) = runs_if_ready run s.1 && allocs_ready slots runs

-- With `ways` methods `alloc` and the reset value `init`.
unfoldable pub mask_cycle :
    RangeShape → ℕ → List Bool → List Bool → Calls → Option (Slots × List Bool)
mask_cycle shape ways init not_used c = elim (multi_encoder shape ways not_used) [
  | none ↦ none
  | some slots ↦
      if allocs_ready slots c.allocs
      then some
          (slots, replaced init c (with_freed c.frees (without_allocated slots c.allocs not_used)))
      else none
]
