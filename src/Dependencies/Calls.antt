-- ===== src/Dependencies/Calls.antt =====
-- Sequences of calls of a `DependencyManager`.
use transactron.Prelude.{ℕ, Bool, true, false, not, ◌&&◌, List, [], ◌∷◌, ◌==◌}
use transactron.Dependencies.{
  DependencyKey, Manager, add_dependency, get_optional_dependency, get_dependency,
}

pub data Op {ℓ} (T : Type ℓ) : Type ℓ where
  add : ℕ → T → Op T
  get get_optional : ℕ → Op T

module _ {ℓ} {T U W : Type ℓ} (keys : ℕ → DependencyKey T U W) where
  abbrev pub op_after : Manager keys × W → Op T → Manager keys × W
  op_after (m, outside) (add key x) = ((add_dependency keys m key x).1, outside)
  op_after (m, outside) (get key) = (get_dependency keys m key outside).1
  op_after (m, outside) (get_optional key) = (get_optional_dependency keys m key outside).1

  -- The manager, and what is outside of it, after a sequence of calls, also of calls that raise.
  unfoldable pub manager_after : Manager keys × W → List (Op T) → Manager keys × W
  manager_after state [] = state
  manager_after state (op ∷ ops) = manager_after (op_after state op) ops

abbrev pub adds_to {ℓ} : {T : Type ℓ} → ℕ → Op T → Bool
adds_to key (add j x) = j == key
adds_to key (get j) = false
adds_to key (get_optional j) = false

abbrev pub is_on {ℓ} : {T : Type ℓ} → ℕ → Op T → Bool
is_on key (add j x) = j == key
is_on key (get j) = j == key
is_on key (get_optional j) = j == key

-- No call adds to the key, or is on it at all.
abbrev pub never_adds {ℓ} : {T : Type ℓ} → ℕ → List (Op T) → Bool
never_adds key [] = true
never_adds key (op ∷ ops) = not (adds_to key op) && never_adds key ops

abbrev pub never_on {ℓ} : {T : Type ℓ} → ℕ → List (Op T) → Bool
never_on key [] = true
never_on key (op ∷ ops) = not (is_on key op) && never_on key ops
