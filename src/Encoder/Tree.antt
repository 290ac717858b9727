-- ===== src/Encoder/Tree.antt =====
-- The tree of a `MultiPriorityEncoder`, level by level.
use transactron.Prelude.{
  ℕ, zero, suc, ◌+◌, ◌-◌, ◌/◌, ◌≤◌, ◌<◌, Bool, true, false, some, List, [], ◌∷◌, length,
  length-take, length-drop, take, drop, if◌then◌else◌, ◌≡◌, ap, ◌∙◌, arith,
}
use transactron.Hdl.Widths.{RangeShape, wrap_small}
use transactron.Encoder.{undriven, drive_first, build_tree, multi_encoder}
use transactron.Encoder.Slots.{
  set_bits, slots_of, undriven-slots_of, set_bits-split, switched-slots_of,
}

module _ (shape : RangeShape) (width k : ℕ) (outputs : 0 < k) where
  leaf :
      (k start : ℕ) (b : Bool)
      → 0 < k
      → (if b then drive_first start (undriven k) else undriven k)
        ≡ slots_of k (set_bits start (b ∷ []))
  leaf zero start b h = absurd (omega arith)
  leaf (suc k) start true h = ap (λ s. (start, true) ∷ s) (undriven-slots_of k)
  leaf (suc k) start false h = undriven-slots_of (suc k)

  tree :
      (fuel : ℕ) (bits : List Bool) (start : ℕ)
      → 0 < length bits
      → length bits ≤ fuel
      → start + length bits ≤ width
      → build_tree shape width k fuel bits start ≡ some (slots_of k (set_bits start bits))
  unfolding build_tree
  tree zero bits start h h' h'' = absurd (omega arith)
  tree (suc fuel) [] start h h' h'' = absurd (omega arith)
  tree (suc fuel) (b ∷ []) start h h' h'' =
      ap (λ v. some (if b then drive_first v (undriven k) else undriven k))
        (wrap_small shape width start (omega arith))
      ∙ ap some (leaf k start b outputs)
  tree (suc fuel) (b ∷ c ∷ bits) start h h' h'' =
      let all_bits : List Bool = b ∷ c ∷ bits in
      let middle : ℕ = length all_bits / 2 in
      let left_length : length (take middle all_bits) ≡ middle =
        length-take middle all_bits (omega arith) in
      let right_length : length (drop middle all_bits) ≡ length all_bits - middle =
        length-drop middle all_bits in
      let ps : List ℕ = set_bits start (take middle all_bits) in
      let qs : List ℕ = set_bits (start + middle) (drop middle all_bits) in
      let left : build_tree shape width k fuel (take middle all_bits) start ≡ some (slots_of k ps) =
        tree fuel (take middle all_bits) start (omega (arith, left_length))
          (omega (arith, left_length)) (omega (arith, left_length)) in
      let right : build_tree shape width k fuel (drop middle all_bits) (start + middle)
          ≡ some (slots_of k qs) =
        tree fuel (drop middle all_bits) (start + middle) (omega (arith, right_length))
          (omega (arith, right_length)) (omega (arith, right_length)) in
      rw (left, right, build_tree)
        (ap some (
          switched-slots_of k 0 (k + 1) ps qs (omega arith) (omega arith)
          ∙ ap (slots_of k) (set_bits-split middle start all_bits (omega arith))))

-- A MultiPriorityEncoder with at least one output and one bit of input gives the positions of the set
-- bits in rising order, as many as it has outputs, each with its valid bit; the outputs past them
-- are 0 and not valid.
pub multi_encoder-slots_of :
    (shape : RangeShape) (k : ℕ) (bits : List Bool)
    → 0 < k
    → 0 < length bits
    → multi_encoder shape k bits ≡ some (slots_of k (set_bits 0 bits))
unfolding multi_encoder
multi_encoder-slots_of shape k bits h h' =
    tree shape (length bits) k h (length bits) bits 0 h' (omega arith) (omega arith)
