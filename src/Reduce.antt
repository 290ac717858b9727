-- ===== src/Reduce.antt =====
-- `binary_tree_reduce`, the functions built on it and `popcount`, of
-- transactron/utils/amaranth_ext/functions.py. Signals are their values: Amaranth's operators give
-- results that are wide enough.
pub mod Folded
pub mod Least
pub mod Ones
mod Tests
use transactron.Prelude.{
  ℕ, zero, suc, ◌+◌, ◌-◌, ◌%◌, Bool, true, false, Option, none, some, List, [], ◌∷◌, ◌++◌, length,
  get_or, map, ltb, leb, bit, ◌==◌, if◌then◌else◌,
}
use transactron.Hdl.Widths.{RangeShape, wrap}

-- `[operator(a, b) for a, b in zip(xs[::2], xs[1::2])]`, and the last element if it is alone.
abbrev pub layer {ℓ} : {A : Type ℓ} → (A → A → A) → List A → List A
layer op [] = []
layer op (a ∷ []) = a ∷ []
layer op (a ∷ b ∷ xs) = op a b ∷ layer op xs

-- The loop, on fuel.
unfoldable pub layers {ℓ} : {A : Type ℓ} → (A → A → A) → ℕ → List A → List A
layers op zero xs = xs
layers op (suc fuel) xs =
    let rest = layers op fuel (layer op xs) in if ltb 1 (length xs) then rest else xs

-- The values after `flatten_signals`; each round takes at least one of them away.
unfoldable pub binary_tree_reduce {ℓ} : {A : Type ℓ} → A → (A → A → A) → List A → A
unfolding layers
binary_tree_reduce neutral op [] = get_or (layers op 1 (neutral ∷ [])) 0 neutral
binary_tree_reduce neutral op (x ∷ xs) = get_or (layers op (length (x ∷ xs)) (x ∷ xs)) 0 neutral

abbrev pub sum_value : List ℕ → ℕ
sum_value = binary_tree_reduce 0 (λ a b. a + b)

-- `Mux(operator(v1, v2), v1, v2)` in the tree.
abbrev pub generic_min_value : (ℕ → ℕ → Bool) → List ℕ → ℕ
generic_min_value operator = binary_tree_reduce 0 (λ v1 v2. if operator v1 v2 then v1 else v2)

abbrev pub min_value : List ℕ → ℕ
min_value = generic_min_value ltb

abbrev pub max_value : List ℕ → ℕ
max_value = generic_min_value (λ a b. ltb b a)

-- `sum_layers.append(C(0))` on an odd number of values.
abbrev pub padded : List ℕ → List ℕ
padded xs = if length xs % 2 == 1 then xs ++ 0 ∷ [] else xs

-- The loop of `popcount`, on fuel.
unfoldable pub sum_layers : ℕ → List ℕ → List ℕ
sum_layers zero xs = xs
sum_layers (suc fuel) xs =
    let rest = sum_layers fuel (layer (λ a b. a + b) (padded xs)) in
    if ltb 1 (length xs) then rest else xs

-- `popcount` of the bits, the lowest first; the slice keeps `bits_for(len(s))` bits, which is the
-- width of `range(len(s) + 1)`. A signal without bits is an IndexError.
unfoldable pub popcount : RangeShape → List Bool → Option ℕ
unfolding sum_layers
popcount shape [] = none
popcount shape (b ∷ s) =
    some
      (wrap shape (length (b ∷ s) + 1) (get_or (sum_layers (length (b ∷ s)) (map bit (b ∷ s))) 0 0))
