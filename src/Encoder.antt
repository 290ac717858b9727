-- ===== src/Encoder.antt =====
-- `MultiPriorityEncoder` of transactron/utils/amaranth_ext/elaboratables.py. A signal is the list of
-- its bits, the lowest first, and an output stands with its valid bit.
pub mod Slots
pub mod Tree
use transactron.Prelude.{
  ℕ, zero, suc, ◌+◌, ◌-◌, ◌/◌, Bool, true, false, ◌&&◌, not, Option, none, some, List, [], ◌∷◌,
  ◌++◌, length, take, drop, if◌then◌else◌,
}
use transactron.Hdl.Widths.{RangeShape, wrap}

-- The signals `level_outputs` and `level_valids`, together.
abbrev pub Slots : Type 0
Slots = List (ℕ × Bool)

-- Signals that no statement drives.
abbrev pub undriven : ℕ → Slots
undriven zero = []
undriven (suc k) = (0, false) ∷ undriven k

-- `level_outputs[0].eq(v)` and `level_valids[0].eq(1)`.
abbrev pub drive_first : ℕ → Slots → Slots
drive_first v [] = []
drive_first v (s ∷ slots) = (v, true) ∷ slots

-- `m.Case((1 << i) - 1)` on the valid bits.
abbrev pub is_ones : ℕ → Slots → Bool
is_ones zero [] = true
is_ones zero ((o, v) ∷ slots) = not v && is_ones zero slots
is_ones (suc i) [] = false
is_ones (suc i) ((o, v) ∷ slots) = v && is_ones i slots

-- The assignments of the case `i`.
abbrev pub joined : ℕ → ℕ → Slots → Slots → Slots
joined k i r l = take i r ++ take (k - i) l

-- The switch, with `n` cases from `i` on.
abbrev pub switched : ℕ → ℕ → ℕ → Slots → Slots → Slots
switched k i zero r l = undriven k
switched k i (suc n) r l =
    let rest = switched k (i + 1) n r l in if is_ones i r then joined k i r l else rest

-- `build_tree`, on fuel; `none` is its failed assertion.
unfoldable pub build_tree : RangeShape → ℕ → ℕ → ℕ → List Bool → ℕ → Option Slots
build_tree shape width k zero bits start = none
build_tree shape width k (suc fuel) [] start = none
build_tree shape width k (suc fuel) (b ∷ []) start =
    some (if b then drive_first (wrap shape width start) (undriven k) else undriven k)
build_tree shape width k (suc fuel) (b ∷ c ∷ bits) start =
    let middle = length (b ∷ c ∷ bits) / 2 in
    elim (build_tree shape width k fuel (take middle (b ∷ c ∷ bits)) start) [
      | none ↦ none
      | some r ↦
          elim (build_tree shape width k fuel (drop middle (b ∷ c ∷ bits)) (start + middle)) [
            | none ↦ none
            | some l ↦ some (switched k 0 (k + 1) r l)
          ]
    ]

-- The outputs of the encoder: one level halves the bits, so their number is fuel enough.
unfoldable pub multi_encoder : RangeShape → ℕ → List Bool → Option Slots
unfolding build_tree
multi_encoder shape k bits = build_tree shape (length bits) k (length bits) bits 0
