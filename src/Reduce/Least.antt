-- ===== src/Reduce/Least.antt =====
-- `min_value`: the least of the values.
use transactron.Prelude.{ℕ, ◌≤◌, List, [], ◌∷◌, ltb, if◌then◌else◌, In, ◌≡◌, subst, sym, arith}
use transactron.Reduce.{min_value}
use transactron.Reduce.Folded.{combined, binary_tree_reduce-folded}

abbrev smaller : ℕ → ℕ → ℕ
smaller a b = if ltb a b then a else b

smaller_assoc : (a b c : ℕ) → smaller (smaller a b) c ≡ smaller a (smaller b c)
smaller_assoc a b c = ground arith

abbrev IsLeast : List ℕ → ℕ → Type 0
IsLeast xs v = In v xs × ((x : ℕ) → In x xs → v ≤ x)

combined-IsLeast : (x : ℕ) (xs : List ℕ) → IsLeast (x ∷ xs) (combined smaller x xs)
combined-IsLeast x [] = (ground arith, λ y h. ground arith)
combined-IsLeast x (y ∷ ys) =
    let (here, least) = combined-IsLeast y ys in
    (ground (arith, here), λ z h. ground (arith, here, least z))

-- min_value of one or more values is the least of them.
pub min_value-IsLeast : (x : ℕ) (xs : List ℕ) → IsLeast (x ∷ xs) (min_value (x ∷ xs))
min_value-IsLeast x xs =
    subst (IsLeast (x ∷ xs)) (sym (binary_tree_reduce-folded 0 smaller smaller_assoc (x ∷ xs)))
      (combined-IsLeast x xs)
