-- ===== src/Dependencies/Tests.antt =====
-- Three keys: 0 is cached, 1 is not, and both count the calls of their `combine`; 2 is a `SimpleKey`
-- that may be read while it is empty.
use transactron.Prelude.{ℕ, ◌+◌, not, List, [], ◌∷◌, ◌==◌, if◌then◌else◌, ◌≡◌, refl}
use transactron.Dependencies.{
  Error, ok, err, DependencyKey, simple_combine, Manager, new, add_dependency, get_dependency,
}
use transactron.Dependencies.Calls.{Op, add, get, manager_after}
use transactron.Dependencies.Cached.{observed, read_after_add}
use transactron.Dependencies.Locked.{add_dependency-locked}

abbrev keys : ℕ → DependencyKey ℕ ℕ ℕ
keys k = record {
  lock_on_get = k == 0;
  cache = not (k == 1);
  empty_valid = k == 2;
  combine = λ values calls.
      if k == 2 then (simple_combine k 9 values, calls) else (ok (calls + 1), calls + 1);
}

abbrev first : Manager keys
first = (add_dependency keys (new keys) 0 5).1

abbrev before : List (Op ℕ)
before = add 1 6 ∷ get 1 ∷ get 2 ∷ []

abbrev later : List (Op ℕ)
later = get 1 ∷ get 0 ∷ get 1 ∷ add 2 7 ∷ []

abbrev start : Manager keys × ℕ
start = manager_after keys (first, 0) before

abbrev now : Manager keys × ℕ
now = manager_after keys (get_dependency keys start.0 0 start.1).1 later

added : add_dependency keys (new keys) 0 5 ≡ (ok tt, first)
unfolding add_dependency
added = refl

start_calls : start.1 ≡ 1
unfolding manager_after add_dependency get_dependency
start_calls = refl

now_calls : now.1 ≡ 4
unfolding manager_after add_dependency get_dependency
now_calls = refl

-- An empty `SimpleKey` has its default value, and with two values it raises.
simple : observed keys 2 (new keys, 3) ≡ (ok 9, 3)
unfolding get_dependency
simple = refl

missing : observed keys 1 (new keys, 3) ≡ (err (Error.not_provided 1), 3)
unfolding get_dependency
missing = refl

twice :
    observed keys 2 (manager_after keys (new keys, 3) (add 2 4 ∷ add 2 5 ∷ []))
    ≡ (err (Error.too_many 2), 3)
unfolding manager_after add_dependency get_dependency
twice = refl

read_after_add_example :
    (observed keys 0 start ≡ (ok (start.1 + 1), start.1 + 1))
    × (observed keys 0 now ≡ (ok 2, now.1))
unfolding manager_after add_dependency get_dependency
read_after_add_example =
    read_after_add keys 0 (new keys) first 0 5 2 before later added refl refl refl

later_add_refused :
    let after = (manager_after keys (get_dependency keys first 0 0).1 later).0 in
    add_dependency keys after 0 8 ≡ (err (Error.locked 0), after)
unfolding get_dependency
later_add_refused = add_dependency-locked keys first 0 0 later 8 refl
