-- ===== src/Dependencies.antt =====
-- `DependencyManager` with `SimpleKey` and `ListKey`, transactron/utils/dependencies.py. A key is a
-- number, and its class attributes and `combine` are given by a function. `combine` is any method: it
-- may read and change what is outside of the manager, a state that the reads pass on, but it does not
-- call the manager. The dictionaries are association lists, and an exception is an error value. A
-- combined value is never Python's None, and a value is taken as it is at the read: that
-- `ListKey.combine` returns the manager's own list is not modelled.
pub mod Entries
pub mod Calls
pub mod Cached
pub mod Locked
mod Tests
use transactron.Prelude.{
  ℕ, Bool, true, false, ◌&&◌, not, Option, none, some, List, [], ◌∷◌, ◌++◌, length, contains, ◌==◌,
  if◌then◌else◌,
}
use transactron.Dependencies.Entries.{Dict, lookup, delete, list_at, has_key, append_at, touch}

-- The exceptions, each with the key that its text names.
pub data Error : Type 0 where
  locked not_provided too_many : ℕ → Error

pub data Result {ℓ} (A : Type ℓ) : Type ℓ where
  ok : A → Result A
  err : Error → Result A

pub record DependencyKey {ℓ} (T U W : Type ℓ) : Type ℓ where
  pub lock_on_get : Bool
  pub cache : Bool
  pub empty_valid : Bool
  pub combine : List T → W → Result U × W

-- `SimpleKey.combine`
abbrev pub simple_combine {ℓ} : {T : Type ℓ} → ℕ → T → List T → Result T
simple_combine key default_value [] = ok default_value
simple_combine key default_value (x ∷ []) = ok x
simple_combine key default_value (x ∷ y ∷ values) = err (too_many key)

-- `ListKey.combine`
abbrev pub list_combine {ℓ} : {T : Type ℓ} → List T → Result (List T)
list_combine values = ok values

module _ {ℓ} {T U W : Type ℓ} (keys : ℕ → DependencyKey T U W) where
  pub record Manager : Type ℓ where
    pub dependencies : Dict (List T)
    pub cache : Dict U
    pub locked_dependencies : List ℕ

  abbrev pub new : Manager
  new = record { dependencies = []; cache = []; locked_dependencies = [] }

  unfoldable pub add_dependency : Manager → ℕ → T → Result (Unit {ℓ}) × Manager
  add_dependency m key dependency =
      if contains m.locked_dependencies key then (err (locked key), m) else (
        ok tt,
        record m {
          dependencies = append_at m.dependencies key dependency;
          cache = delete key m.cache;
        },
      )

  -- `self.locked_dependencies.add(key)`, for a set.
  abbrev pub lock : ℕ → List ℕ → List ℕ
  lock key locked_keys =
      if (keys key).lock_on_get && not (contains locked_keys key)
      then key ∷ locked_keys
      else locked_keys

  -- The value is combined anew. Reading the `defaultdict` makes an entry.
  abbrev pub combined : Manager → ℕ → W → Result (Option U) × (Manager × W)
  combined m key outside =
      let (ret, outside') = (keys key).combine (list_at m.dependencies key) outside in
      elim ret [
        | err e ↦ (err e, (record m { dependencies = touch m.dependencies key }, outside'))
        | ok value ↦ (
          ok (some value),
          (
            record m {
              dependencies = touch m.dependencies key;
              cache = if (keys key).cache then (key, value) ∷ m.cache else m.cache;
            },
            outside',
          ),
        )
      ]

  -- After the key has been locked.
  abbrev pub fetch : Manager → ℕ → W → Result (Option U) × (Manager × W)
  fetch m key outside =
      if not (keys key).empty_valid && not (has_key m.dependencies key)
      then (ok none, (m, outside))
      else (elim (lookup key m.cache) [
        | some value ↦ (ok (some value), (m, outside))
        | none ↦ combined m key outside
      ])

  abbrev pub locking : Manager → ℕ → Manager
  locking m key = record m { locked_dependencies = lock key m.locked_dependencies }

  unfoldable pub get_optional_dependency : Manager → ℕ → W → Result (Option U) × (Manager × W)
  get_optional_dependency m key outside = fetch (locking m key) key outside

  abbrev pub provided : ℕ → Result (Option U) → Result U
  provided key (err e) = err e
  provided key (ok none) = err (not_provided key)
  provided key (ok (some value)) = ok value

  unfoldable pub get_dependency : Manager → ℕ → W → Result U × (Manager × W)
  unfolding get_optional_dependency
  get_dependency m key outside =
      let (ret, after) = get_optional_dependency m key outside in (provided key ret, after)
