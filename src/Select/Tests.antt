-- ===== src/Select/Tests.antt =====
-- Three inputs, of which two are selected; the lowest one has priority.
use transactron.Prelude.{ℕ, Bool, true, false, none, some, List, [], ◌∷◌, ◌≡◌, refl}
use transactron.Select.{one_hot_mux}
use transactron.Select.Selected.{one_hot_mux-IsSelected}

abbrev both : List Bool
both = false ∷ true ∷ true ∷ []

abbrev inputs : List ℕ
inputs = 5 ∷ 6 ∷ 7 ∷ []

not_one_hot : one_hot_mux both inputs none false ≡ 7
unfolding one_hot_mux transactron.Reduce.binary_tree_reduce transactron.Reduce.layers
not_one_hot = refl

one_hot_mux-IsSelected_example : one_hot_mux both inputs (some 9) true ≡ 6
one_hot_mux-IsSelected_example =
    one_hot_mux-IsSelected both inputs (some 9) true 1 refl (refl, refl)
