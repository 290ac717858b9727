-- ===== src/Network.antt =====
-- `StableSelectingNetwork` of transactron/utils/amaranth_ext/elaboratables.py, with values as numbers.
pub mod Stable
mod Tests
use Prim.Native.Nat.{max}
use transactron.Prelude.{
  ℕ, ◌+◌, ◌-◌, ◌%◌, ◌^◌, Bool, Option, none, some, List, [], ◌∷◌, ◌++◌, leb, bit, length, get_or,
  if◌then◌else◌,
}
use transactron.Hdl.Widths.{RangeShape, wrap}
use transactron.Hdl.Arrays.{ArrayRead, tabulate}
use transactron.Reduce.{layer, layers}

-- An element of `current_level`: the array, and the count with the number of its bits.
pub record Group : Type 0 where
  pub slots : List ℕ
  pub bits : ℕ
  pub cnt : ℕ

abbrev pub start_level : List ℕ → List Bool → List Group
start_level [] valids = []
start_level (x ∷ inputs) [] = []
start_level (x ∷ inputs) (v ∷ valids) =
    record { slots = x ∷ []; bits = 1; cnt = bit v } ∷ start_level inputs valids

module _ (array : ArrayRead) where
  -- `merged[i]` in the first loop, and `merged[len(a) + i]` in the second one.
  abbrev pub merged_low : Group → Group → ℕ → ℕ
  merged_low a b i = if leb a.cnt i then array.at b.slots (i - a.cnt) else get_or a.slots i 0

  abbrev pub merged_high : Group → Group → ℕ → ℕ
  merged_high a b i =
      let index = length a.slots + i - a.cnt in
      if leb (length b.slots) index then 0 else array.at b.slots index

  abbrev pub merge : Group → Group → Group
  merge a b = record {
    slots =
        tabulate (length a.slots) (merged_low a b) ++ tabulate (length b.slots) (merged_high a b);
    bits = max a.bits b.bits + 1;
    cnt = (a.cnt + b.cnt) % 2 ^ (max a.bits b.bits + 1);
  }

module _ (shape : RangeShape) (array : ArrayRead) where
  -- `outputs` and `output_cnt`: each round of the loops is a layer. Without inputs, `pop` raises.
  unfoldable pub network : List ℕ → List Bool → Option (List ℕ × ℕ)
  unfolding layers
  network inputs valids = elim (layers (merge array) (length inputs) (start_level inputs valids)) [
    | [] ↦ none
    | g ∷ level ↦ some (g.slots, wrap shape (length inputs + 1) g.cnt)
  ]
