-- ===== src/Select.antt =====
-- `one_hot_mux` of transactron/utils/amaranth_ext/functions.py. The selection signal is the list of
-- its bits, the lowest first; the values are numbers. The assertions are not part of the result.
pub mod Selected
mod Tests
use Prim.Native.Nat.{bit_or}
use transactron.Prelude.{
  ℕ, Bool, true, false, ◌&&◌, not, Option, none, some, List, [], ◌∷◌, length, map, any, ◌==◌,
  if◌then◌else◌,
}
use transactron.Reduce.{binary_tree_reduce}

-- `x + 1` at the width of `x`.
abbrev pub increment : List Bool → List Bool
increment [] = []
increment (b ∷ bs) = let rest = increment bs in if b then false ∷ rest else true ∷ bs

abbrev pub and_each : List Bool → List Bool → List Bool
and_each [] bs = []
and_each (a ∷ as') [] = []
and_each (a ∷ as') (b ∷ bs) = (a && b) ∷ and_each as' bs

-- `select & (~select + 1)`
abbrev pub select_first : List Bool → List Bool
select_first select = and_each select (increment (map not select))

-- `[Mux(select[i], inputs[i], 0) for i in range(len(inputs))]`
abbrev pub masked : List Bool → List ℕ → List ℕ
masked select [] = []
masked [] (x ∷ xs) = []
masked (b ∷ select) (x ∷ xs) = (if b then x else 0) ∷ masked select xs

abbrev pub or_value : List ℕ → ℕ
or_value = binary_tree_reduce 0 bit_or

abbrev pub value_combined : Bool → List Bool → List ℕ → ℕ
value_combined priority select inputs =
    or_value (masked (if priority then select_first select else select) inputs)

unfoldable pub one_hot_mux : List Bool → List ℕ → Option ℕ → Bool → ℕ
one_hot_mux select [] none priority = 0
one_hot_mux select [] (some d) priority = d
one_hot_mux select (x ∷ []) none priority = x
one_hot_mux select (x ∷ y ∷ xs) none priority = value_combined priority select (x ∷ y ∷ xs)
one_hot_mux select (x ∷ xs) (some d) priority =
    if any (λ b. b) select then value_combined priority select (x ∷ xs) else d
