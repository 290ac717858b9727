-- ===== src/Shifter.antt =====
-- transactron/utils/amaranth_ext/shifter.py: shifts and rotations by a variable offset, of bit vectors
-- and of sequences. A bit vector is the list of its bits, the lowest first, and `Cat` appends. A failed
-- assertion is `none`.
pub mod Vectors
pub mod Rotations
pub mod Instances
mod Tests
use transactron.Prelude.{
  ℕ, zero, suc, ◌+◌, ◌≤◌, Bool, false, Option, none, some, List, [], ◌∷◌, ◌++◌, ◌==◌, ◌&&◌, ltb,
  if◌then◌else◌, length, get_or, take, drop, map, ◌≡◌,
}
use mathlib.Core.List.{reverse}

-- Amaranth's `value.bit_select(offset, width)`: the bits from `offset` on, where there are that many.
-- What it gives for bits past the end is left open.
pub record PartSelect : Type 0 where
  pub bit_select : List Bool → ℕ → ℕ → List Bool
  pub inside :
      (v : List Bool) (offset width : ℕ)
      → offset + width ≤ length v
      → bit_select v offset width ≡ take width (drop offset v)

-- A shape: `Value.cast` of an entry, and `shape(val)`, or the value itself where the shape is plain.
pub record EntryShape {ℓ} (A : Type ℓ) : Type ℓ where
  pub width : ℕ
  pub cast : A → List Bool
  pub of_bits : List Bool → A
  pub length-cast : (a : A) → length (cast a) ≡ width
  pub of_bits-cast : (a : A) → of_bits (cast a) ≡ a

abbrev pub replicate {ℓ} : {A : Type ℓ} → ℕ → A → List A
replicate zero a = []
replicate (suc n) a = a ∷ replicate n a

-- `[f(i) for i in range(n)]`
abbrev pub table {ℓ} : {A : Type ℓ} → ℕ → (ℕ → A) → List A
table zero f = []
table (suc n) f = f 0 ∷ table n (λ i. f (suc i))

-- `[f(b1, b2) for b1, b2 in zip(bits1, bits2)]`, where `f` may fail.
abbrev pub zip_some {ℓ} : {A : Type ℓ} → (A → A → Option A) → List A → List A → Option (List A)
zip_some f [] ys = some []
zip_some f (x ∷ xs) [] = some []
zip_some f (x ∷ xs) (y ∷ ys) = elim (f x y) [
  | none ↦ none
  | some z ↦ elim (zip_some f xs ys) [ none ↦ none | some zs ↦ some (z ∷ zs) ]
]

module _ (part : PartSelect) where
  unfoldable pub generic_shift_right : List Bool → List Bool → ℕ → Option (List Bool)
  generic_shift_right value1 value2 offset =
      if length value1 == length value2
      then some (part.bit_select (value1 ++ value2) offset (length value1))
      else none

  unfoldable pub generic_shift_left : List Bool → List Bool → ℕ → Option (List Bool)
  unfolding generic_shift_right
  generic_shift_left value1 value2 offset =
      elim (generic_shift_right (reverse value1) (reverse value2) offset) [
        | none ↦ none
        | some v ↦ some (reverse v)
      ]

  unfoldable pub shift_right : List Bool → ℕ → Bool → Option (List Bool)
  unfolding generic_shift_right
  shift_right value offset placeholder =
      generic_shift_right value (replicate (length value) placeholder) offset

  unfoldable pub shift_left : List Bool → ℕ → Bool → Option (List Bool)
  unfolding generic_shift_left
  shift_left value offset placeholder =
      generic_shift_left value (replicate (length value) placeholder) offset

  unfoldable pub rotate_right : List Bool → ℕ → Option (List Bool)
  unfolding generic_shift_right
  rotate_right value offset = generic_shift_right value value offset

  unfoldable pub rotate_left : List Bool → ℕ → Option (List Bool)
  unfolding generic_shift_left
  rotate_left value offset = generic_shift_left value value offset

-- `[Cat(val[i] for val in values) for i in range(width)]`
abbrev pub slice : ℕ → List (List Bool) → List Bool
slice i values = map (λ val. get_or val i false) values

abbrev pub slices : ℕ → List (List Bool) → List (List Bool)
slices width values = table width (λ i. slice i values)

module _ {ℓ} {A : Type ℓ} (part : PartSelect) (shape : EntryShape A) where
  -- Both assertions on the lengths; the entries have the width of their shape.
  unfoldable pub generic_shift_vec_right : List A → List A → ℕ → Option (List A)
  unfolding generic_shift_right
  generic_shift_vec_right data1 data2 offset =
      let shifted_bits =
        zip_some (λ b1 b2. generic_shift_right part b1 b2 offset)
          (slices shape.width (map shape.cast data1)) (slices shape.width (map shape.cast data2)) in
      if ltb 0 (length data1) && length data1 == length data2
      then elim shifted_bits [
        | none ↦ none
        | some bits ↦ some (map shape.of_bits (table (length data1) (λ i. slice i bits)))
      ]
      else none

  unfoldable pub generic_shift_vec_left : List A → List A → ℕ → Option (List A)
  unfolding generic_shift_vec_right
  generic_shift_vec_left data1 data2 offset =
      elim (generic_shift_vec_right (reverse data1) (reverse data2) offset) [
        | none ↦ none
        | some v ↦ some (reverse v)
      ]

  -- The placeholder `None` stands for the entry of zeros, of the shape of the first entry.
  abbrev pub placeholder_or : Option A → A
  placeholder_or none = shape.of_bits (replicate shape.width false)
  placeholder_or (some a) = a

  unfoldable pub shift_vec_right : List A → ℕ → Option A → Option (List A)
  unfolding generic_shift_vec_right
  shift_vec_right entries offset placeholder =
      generic_shift_vec_right entries (replicate (length entries) (placeholder_or placeholder))
        offset

  unfoldable pub shift_vec_left : List A → ℕ → Option A → Option (List A)
  unfolding generic_shift_vec_left
  shift_vec_left entries offset placeholder =
      generic_shift_vec_left entries (replicate (length entries) (placeholder_or placeholder))
        offset

  unfoldable pub rotate_vec_right : List A → ℕ → Option (List A)
  unfolding generic_shift_vec_right
  rotate_vec_right entries offset = generic_shift_vec_right entries entries offset

  unfoldable pub rotate_vec_left : List A → ℕ → Option (List A)
  unfolding generic_shift_vec_left
  rotate_vec_left entries offset = generic_shift_vec_left entries entries offset
