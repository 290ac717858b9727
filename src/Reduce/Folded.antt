-- ===== src/Reduce/Folded.antt =====
-- The tree of `binary_tree_reduce` against a plain fold.
use transactron.Prelude.{
  ℕ, zero, suc, ◌+◌, ◌≤◌, true, List, [], ◌∷◌, length, get_or, ltb, ◌≡◌, refl, ap, ◌∙◌, arith,
}
use transactron.Reduce.{layer, layers, binary_tree_reduce}

-- A layer has half of the values.
pub length-layer {ℓ} :
    {A : Type ℓ} (op : A → A → A) (xs : List A)
    → length (layer op xs) + length (layer op xs) ≤ length xs + 1
length-layer op [] = omega arith
length-layer op (a ∷ []) = omega arith
length-layer op (a ∷ b ∷ xs) = omega (arith, length-layer op xs)

-- The values joined from left to right.
abbrev pub combined {ℓ} : {A : Type ℓ} → (A → A → A) → A → List A → A
combined op x [] = x
combined op x (y ∷ ys) = op x (combined op y ys)

abbrev pub folded {ℓ} : {A : Type ℓ} → A → (A → A → A) → List A → A
folded neutral op [] = neutral
folded neutral op (x ∷ xs) = combined op x xs

module _ {ℓ} {A : Type ℓ} (neutral : A) (op : A → A → A)
    (assoc : (a b c : A) → op (op a b) c ≡ op a (op b c)) where
  combined-op : (a b : A) (xs : List A) → combined op (op a b) xs ≡ op a (combined op b xs)
  combined-op a b [] = refl
  combined-op a b (x ∷ xs) = assoc a b (combined op x xs)

  combined-layer : (a : A) (xs : List A) → combined op a (layer op xs) ≡ combined op a xs
  combined-layer a [] = refl
  combined-layer a (b ∷ []) = refl
  combined-layer a (b ∷ c ∷ xs) = ap (op a) (combined-layer (op b c) xs ∙ combined-op b c xs)

  folded-layer : (xs : List A) → folded neutral op (layer op xs) ≡ folded neutral op xs
  folded-layer [] = refl
  folded-layer (a ∷ []) = refl
  folded-layer (a ∷ b ∷ xs) = combined-layer (op a b) xs ∙ combined-op a b xs

  layers-folded :
      (fuel : ℕ) (xs : List A)
      → length xs ≤ fuel
      → get_or (layers op fuel xs) 0 neutral ≡ folded neutral op xs
  unfolding layers
  layers-folded zero [] h = refl
  layers-folded zero (a ∷ xs) h = absurd (omega arith)
  layers-folded (suc fuel) [] h = refl
  layers-folded (suc fuel) (a ∷ []) h = refl
  layers-folded (suc fuel) (a ∷ b ∷ xs) h =
      let shorter = length-layer op (a ∷ b ∷ xs) in
      let more : ltb 1 (length (a ∷ b ∷ xs)) ≡ true = ground arith in
      rw (more, layers)
        (layers-folded fuel (layer op (a ∷ b ∷ xs)) (omega (arith, shorter))
          ∙ folded-layer (a ∷ b ∷ xs))

  -- With an associative operator, binary_tree_reduce joins the values from left to right, whatever
  -- their number; without values it gives the neutral one.
  pub binary_tree_reduce-folded :
      (xs : List A) → binary_tree_reduce neutral op xs ≡ folded neutral op xs
  unfolding binary_tree_reduce layers
  binary_tree_reduce-folded [] = refl
  binary_tree_reduce-folded (x ∷ xs) = layers-folded (length (x ∷ xs)) (x ∷ xs) (omega arith)
