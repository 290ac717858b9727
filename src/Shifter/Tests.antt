-- ===== src/Shifter/Tests.antt =====
-- Shifts of four one-bit entries.
use transactron.Prelude.{
  ◌-◌, Bool, true, false, none, some, List, [], ◌∷◌, ◌++◌, take, drop, ◌≡◌, refl, arith,
}
use transactron.Shifter.{
  generic_shift_right, generic_shift_left, shift_right, generic_shift_vec_right,
  generic_shift_vec_left, shift_vec_right, rotate_vec_right, rotate_vec_left,
}
use transactron.Shifter.Instances.{part, one_bit}
use transactron.Shifter.Rotations.{
  generic_shift_lem, generic_shift_vec_lem, rotate_vec_left-rotate_vec_right,
}

abbrev entries : List Bool
entries = true ∷ false ∷ false ∷ true ∷ []

rotated : rotate_vec_right part one_bit entries 1 ≡ some (false ∷ false ∷ true ∷ true ∷ [])
unfolding rotate_vec_right
rotated = refl

rotated_left : rotate_vec_left part one_bit entries 1 ≡ some (true ∷ true ∷ false ∷ false ∷ [])
unfolding rotate_vec_left
rotated_left = refl

shifted : shift_right part entries 3 false ≡ some (true ∷ false ∷ false ∷ false ∷ [])
unfolding shift_right
shifted = refl

filled : shift_vec_right part one_bit entries 3 (some true) ≡ some (true ∷ true ∷ true ∷ true ∷ [])
unfolding shift_vec_right
filled = refl

unequal : generic_shift_right part entries [] 1 ≡ none
unfolding generic_shift_right
unequal = refl

generic_shift_lem_example :
    (generic_shift_right part entries (true ∷ true ∷ true ∷ true ∷ []) 3
      ≡ some (drop 3 entries ++ take 3 (true ∷ true ∷ true ∷ true ∷ [])))
    × (generic_shift_left part entries (true ∷ true ∷ true ∷ true ∷ []) 3
        ≡ some (drop (4 - 3) (true ∷ true ∷ true ∷ true ∷ []) ++ take (4 - 3) entries))
generic_shift_lem_example =
    generic_shift_lem part entries (true ∷ true ∷ true ∷ true ∷ []) 3 refl (omega arith)

generic_shift_vec_lem_example :
    (generic_shift_vec_right part one_bit entries (true ∷ true ∷ true ∷ true ∷ []) 3
      ≡ some (drop 3 entries ++ take 3 (true ∷ true ∷ true ∷ true ∷ [])))
    × (generic_shift_vec_left part one_bit entries (true ∷ true ∷ true ∷ true ∷ []) 3
        ≡ some (drop (4 - 3) (true ∷ true ∷ true ∷ true ∷ []) ++ take (4 - 3) entries))
generic_shift_vec_lem_example =
    generic_shift_vec_lem part one_bit entries (true ∷ true ∷ true ∷ true ∷ []) 3 (omega arith) refl
      (omega arith)

rotate_vec_left-rotate_vec_right_example :
    (ys : List Bool) × (rotate_vec_right part one_bit entries 3 ≡ some ys)
    × (rotate_vec_left part one_bit ys 3 ≡ some entries)
rotate_vec_left-rotate_vec_right_example =
    rotate_vec_left-rotate_vec_right part one_bit entries 3 (omega arith) (omega arith)
