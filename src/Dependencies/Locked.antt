-- ===== src/Dependencies/Locked.antt =====
-- Keys that are locked by a read.
use transactron.Prelude.{ℕ, true, List, [], ◌∷◌, contains, ◌≡◌, refl, ap, ◌∙◌, arith}
use transactron.Dependencies.{
  Error, err, DependencyKey, Manager, add_dependency, lock, locking, fetch, get_optional_dependency,
  get_dependency,
}
use transactron.Dependencies.Calls.{Op, add, get, get_optional, op_after, manager_after}

module _ {ℓ} {T U W : Type ℓ} (keys : ℕ → DependencyKey T U W) where
  abbrev IsLocked : Manager keys → ℕ → Type 0
  IsLocked m key = contains m.locked_dependencies key ≡ true

  lock-contains :
      (k key : ℕ) (locked_keys : List ℕ)
      → contains locked_keys key ≡ true
      → contains (lock keys k locked_keys) key ≡ true
  lock-contains k key locked_keys h = ground arith

  lock_self :
      (key : ℕ) (locked_keys : List ℕ)
      → (keys key).lock_on_get ≡ true
      → contains (lock keys key locked_keys) key ≡ true
  lock_self key locked_keys h = ground arith

  fetch-locked :
      (m : Manager keys) (key : ℕ) (outside : W)
      → (fetch keys m key outside).1.0.locked_dependencies ≡ m.locked_dependencies
  fetch-locked m key outside = ground arith

  get_optional-IsLocked :
      (m : Manager keys) (k key : ℕ) (outside : W)
      → IsLocked m key
      → IsLocked (get_optional_dependency keys m k outside).1.0 key
  unfolding get_optional_dependency
  get_optional-IsLocked m k key outside h =
      ap (λ l. contains l key) (fetch-locked (locking keys m k) k outside)
      ∙ lock-contains k key m.locked_dependencies h

  op-IsLocked :
      (m : Manager keys) (outside : W) (op : Op T) (key : ℕ)
      → IsLocked m key
      → IsLocked (op_after keys (m, outside) op).0 key
  unfolding add_dependency get_dependency
  op-IsLocked m outside (add k x) key h = ground arith
  op-IsLocked m outside (get k) key h = get_optional-IsLocked m k key outside h
  op-IsLocked m outside (get_optional k) key h = get_optional-IsLocked m k key outside h

  stays-IsLocked :
      (m : Manager keys) (outside : W) (key : ℕ) (ops : List (Op T))
      → IsLocked m key
      → IsLocked (manager_after keys (m, outside) ops).0 key
  unfolding manager_after
  stays-IsLocked m outside key [] h = h
  stays-IsLocked m outside key (op ∷ ops) h =
      let (m', outside') = op_after keys (m, outside) op in
      stays-IsLocked m' outside' key ops (op-IsLocked m outside op key h)

  -- Once a key with `lock_on_get` has been read, found or not, every later add_dependency to it raises
  -- the KeyError and changes nothing, whatever calls come between.
  pub add_dependency-locked :
      (m : Manager keys) (outside : W) (key : ℕ) (ops : List (Op T)) (x : T)
      → (keys key).lock_on_get ≡ true
      → let later = (manager_after keys (get_optional_dependency keys m key outside).1 ops).0 in
        add_dependency keys later key x ≡ (err (Error.locked key), later)
  unfolding add_dependency get_optional_dependency
  add_dependency-locked m outside key ops x locks =
      let (read, outside') = (get_optional_dependency keys m key outside).1 in
      let now : contains read.locked_dependencies key ≡ true =
        ap (λ l. contains l key) (fetch-locked (locking keys m key) key outside)
        ∙ lock_self key m.locked_dependencies locks in
      rw (stays-IsLocked read outside' key ops now) refl
