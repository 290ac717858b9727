-- ===== src/Reduce/Ones.antt =====
-- `popcount`: the number of ones.
use transactron.Prelude.{
  ℕ, zero, suc, ◌+◌, ◌%◌, ◌≤◌, Bool, true, false, some, List, [], ◌∷◌, ◌++◌, length, get_or, map,
  bit, ltb, ◌≡◌, refl, ap, ◌∙◌, arith,
}
use transactron.Hdl.Widths.{RangeShape, wrap, wrap_small}
use transactron.Reduce.{layer, padded, sum_layers, popcount}
use transactron.Reduce.Folded.{length-layer}

abbrev total : List ℕ → ℕ
total [] = 0
total (x ∷ xs) = x + total xs

-- The number of set bits.
abbrev pub ones : List Bool → ℕ
ones [] = 0
ones (b ∷ bs) = bit b + ones bs

pub ones-append : (xs ys : List Bool) → ones (xs ++ ys) ≡ ones xs + ones ys
ones-append [] ys = omega arith
ones-append (x ∷ xs) ys = omega (arith, ones-append xs ys)

abbrev plus : ℕ → ℕ → ℕ
plus a b = a + b

total-layer : (xs : List ℕ) → total (layer plus xs) ≡ total xs
total-layer [] = refl
total-layer (a ∷ []) = refl
total-layer (a ∷ b ∷ xs) = omega (arith, total-layer xs)

total-snoc : (xs : List ℕ) → total (xs ++ 0 ∷ []) ≡ total xs
total-snoc [] = refl
total-snoc (x ∷ xs) = omega (arith, total-snoc xs)

length-snoc : (xs : List ℕ) → length (xs ++ 0 ∷ []) ≡ length xs + 1
length-snoc [] = refl
length-snoc (x ∷ xs) = omega (arith, length-snoc xs)

total-padded : (xs : List ℕ) → total (padded xs) ≡ total xs
total-padded xs = ground (arith, total-snoc xs)

length-padded : (xs : List ℕ) → (length (padded xs) ≤ length xs + 1) × (length (padded xs) % 2 ≡ 0)
length-padded xs = ground (arith, length-snoc xs)

sum_layers-total :
    (fuel : ℕ) (xs : List ℕ) → length xs ≤ fuel → get_or (sum_layers fuel xs) 0 0 ≡ total xs
unfolding sum_layers
sum_layers-total zero [] h = refl
sum_layers-total zero (x ∷ xs) h = absurd (omega arith)
sum_layers-total (suc fuel) [] h = refl
sum_layers-total (suc fuel) (x ∷ []) h = omega arith
sum_layers-total (suc fuel) (x ∷ y ∷ xs) h =
    let all_values : List ℕ = x ∷ y ∷ xs in
    let (some_more, even) = length-padded all_values in
    let shorter : length (layer plus (padded all_values)) ≤ fuel =
      omega (arith, length-layer plus (padded all_values), some_more, even) in
    let more : ltb 1 (length all_values) ≡ true = ground arith in
    rw (more, sum_layers)
      (sum_layers-total fuel (layer plus (padded all_values)) shorter
        ∙ total-layer (padded all_values)
        ∙ total-padded all_values)

total-ones : (s : List Bool) → total (map bit s) ≡ ones s
total-ones [] = refl
total-ones (b ∷ s) = omega (arith, total-ones s)

length-bits : (s : List Bool) → length (map bit s) ≡ length s
length-bits [] = refl
length-bits (b ∷ s) = ap suc (length-bits s)

ones-le : (s : List Bool) → ones s ≤ length s
ones-le [] = omega arith
ones-le (true ∷ s) = omega (arith, ones-le s)
ones-le (false ∷ s) = omega (arith, ones-le s)

-- popcount of a signal with at least one bit is the number of its ones: the slice cuts nothing off.
pub popcount-ones :
    (shape : RangeShape) (b : Bool) (s : List Bool) → popcount shape (b ∷ s) ≡ some (ones (b ∷ s))
unfolding popcount
popcount-ones shape b s = ap some (
    ap (wrap shape (length (b ∷ s) + 1)) (
      sum_layers-total (length (b ∷ s)) (map bit (b ∷ s)) (omega (arith, length-bits s))
      ∙ total-ones (b ∷ s))
    ∙ wrap_small shape (length (b ∷ s) + 1) (ones (b ∷ s)) (omega (arith, ones-le (b ∷ s))))
