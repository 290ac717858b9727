-- ===== src/Reduce/Tests.antt =====
-- Five values and five bits: odd layers.
use transactron.Prelude.{ℕ, ◌+◌, List, [], ◌∷◌, ◌≡◌, arith}
use transactron.Reduce.{binary_tree_reduce}
use transactron.Reduce.Folded.{folded, binary_tree_reduce-folded}

abbrev values : List ℕ
values = 3 ∷ 1 ∷ 4 ∷ 1 ∷ 5 ∷ []

abbrev plus : ℕ → ℕ → ℕ
plus a b = a + b

plus_assoc : (a b c : ℕ) → plus (plus a b) c ≡ plus a (plus b c)
plus_assoc a b c = omega arith

binary_tree_reduce-folded_example : binary_tree_reduce 0 plus values ≡ folded 0 plus values
binary_tree_reduce-folded_example = binary_tree_reduce-folded 0 plus plus_assoc values
