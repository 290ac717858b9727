-- ===== src/Dependencies/Cached.antt =====
-- The cache of a `DependencyManager`: when `combine` is called, and what a read returns.
use transactron.Prelude.{
  ℕ, true, false, ◌&&◌, not, Option, none, some, List, [], ◌∷◌, ◌++◌, contains, ◌==◌, ==_refl,
  subst, if◌then◌else◌, ◌≡◌, refl, ap, ◌∙◌, ◌⊎◌, inl, inr, arith, Bool-cases, Option-cases,
}
use transactron.Dependencies.Entries.{
  lookup, delete, list_at, has_key, append_at, touch, lookup-delete, list_at-append_at,
  has_key-append_at, list_at-touch, has_key-touch,
}
use transactron.Dependencies.{
  Error, Result, ok, err, DependencyKey, Manager, add_dependency, fetch, combined, locking,
  get_optional_dependency, get_dependency,
}
use transactron.Dependencies.Calls.{
  Op, add, get, get_optional, adds_to, is_on, op_after, manager_after, never_adds, never_on,
}

Result-cases {ℓ} :
    {A : Type ℓ} (r : Result A) → ((e : Error) × (r ≡ err e)) ⊎ ((a : A) × (r ≡ ok a))
Result-cases (ok a) = inr (a, refl)
Result-cases (err e) = inl (e, refl)

module _ {ℓ} {T U W : Type ℓ} (keys : ℕ → DependencyKey T U W) (key : ℕ) where
  -- The entry of the key: its list, and the value in the cache.
  pub record Entry (xs : List T) (value : Option U) (m : Manager keys) : Type ℓ where
    pub provided_list : list_at m.dependencies key ≡ xs
    pub is_there : has_key m.dependencies key ≡ true
    pub in_cache : lookup key m.cache ≡ value

  add-Entry :
      (m : Manager keys) (j : ℕ) (x : T) (xs : List T) (value : Option U)
      → (j == key) ≡ false
      → Entry xs value m
      → Entry xs value (add_dependency keys m j x).1
  unfolding add_dependency
  add-Entry m j x xs value other e = elim (Bool-cases (contains m.locked_dependencies j)) [
    | inl locked ↦ rw locked e
    | inr open_key ↦ rw open_key (record {
      provided_list = list_at-append_at m.dependencies j key x ∙ rw other e.provided_list;
      is_there = ground (arith, has_key-append_at m.dependencies j key x, e.is_there);
      in_cache = lookup-delete j key m.cache ∙ rw other e.in_cache;
    })
  ]

  -- A read of a key does not change the entry: it is another key, or one that is not stored anew.
  abbrev Keeps : ℕ → Option U → Type ℓ
  Keeps j value = ((j == key) ≡ false) ⊎ (((keys key).cache ≡ false) ⊎ ((v : U) × (value ≡ some v)))

  other_stored :
      (m : Manager keys) (j : ℕ) (v : U)
      → (j == key) ≡ false
      → lookup key (if (keys j).cache then (j, v) ∷ m.cache else m.cache) ≡ lookup key m.cache
  other_stored m j v other = elim (Bool-cases (keys j).cache) [
    | inl stores ↦ rw (stores, other) refl
    | inr drops ↦ rw drops refl
  ]

  not_stored :
      (m : Manager keys) (j : ℕ) (value : Option U) (v : U)
      → Keeps j value
      → lookup key m.cache ≡ value
      → lookup j m.cache ≡ none
      → lookup key (if (keys j).cache then (j, v) ∷ m.cache else m.cache) ≡ value
  not_stored m j value v (inl other) kept miss = other_stored m j v other ∙ kept
  not_stored m j value v (inr why) kept miss = elim (Bool-cases (j == key)) [
    | inr other ↦ other_stored m j v other ∙ kept
    | inl same ↦
        let eq : j ≡ key = ground arith in
        elim why [
          | inl drops ↦ rw (eq, drops) kept
          | inr (v', is) ↦ let empty : lookup key m.cache ≡ none = rw eq at miss in absurd (cc)
        ]
  ]

  fetch-Entry :
      (m : Manager keys) (j : ℕ) (outside : W) (xs : List T) (value : Option U)
      → Keeps j value
      → Entry xs value m
      → Entry xs value (fetch keys m j outside).1.0
  fetch-Entry m j outside xs value keeps e =
      elim (Bool-cases (not (keys j).empty_valid && not (has_key m.dependencies j))) [
        | inl missing ↦ rw (missing, fetch) e
        | inr found ↦ elim (Option-cases (lookup j m.cache)) [
          | inr (v, hit) ↦ rw (found, hit, fetch) e
          | inl miss ↦
              let list = list_at-touch m.dependencies j key ∙ e.provided_list in
              let there : has_key (touch m.dependencies j) key ≡ true =
                ground (arith, has_key-touch m.dependencies j key, e.is_there) in
              elim (Result-cases ((keys j).combine (list_at m.dependencies j) outside).0) [
                | inl (error, fails) ↦
                    rw (found, miss, fails, fetch, combined)
                      (record { provided_list = list; is_there = there; in_cache = e.in_cache })
                | inr (v, gives) ↦
                    rw (found, miss, gives, fetch, combined)
                      (record {
                        provided_list = list;
                        is_there = there;
                        in_cache = not_stored m j value v keeps e.in_cache miss;
                      })
              ]
        ]
      ]

  locking-Entry :
      (m : Manager keys) (j : ℕ) (xs : List T) (value : Option U)
      → Entry xs value m
      → Entry xs value (locking keys m j)
  locking-Entry m j xs value e = record {
    provided_list = e.provided_list;
    is_there = e.is_there;
    in_cache = e.in_cache;
  }

  op-Entry :
      (m : Manager keys) (outside : W) (op : Op T) (xs : List T) (value : Option U)
      → ((adds_to key op ≡ false) × (((keys key).cache ≡ false) ⊎ ((v : U) × (value ≡ some v))))
        ⊎ (is_on key op ≡ false)
      → Entry xs value m
      → Entry xs value (op_after keys (m, outside) op).0
  unfolding get_dependency get_optional_dependency
  op-Entry m outside (add j x) xs value (inl (apart, why)) e = add-Entry m j x xs value apart e
  op-Entry m outside (add j x) xs value (inr apart) e = add-Entry m j x xs value apart e
  op-Entry m outside (get j) xs value (inl (apart, why)) e =
      fetch-Entry (locking keys m j) j outside xs value (inr why) (locking-Entry m j xs value e)
  op-Entry m outside (get j) xs value (inr apart) e =
      fetch-Entry (locking keys m j) j outside xs value (inl apart) (locking-Entry m j xs value e)
  op-Entry m outside (get_optional j) xs value (inl (apart, why)) e =
      fetch-Entry (locking keys m j) j outside xs value (inr why) (locking-Entry m j xs value e)
  op-Entry m outside (get_optional j) xs value (inr apart) e =
      fetch-Entry (locking keys m j) j outside xs value (inl apart) (locking-Entry m j xs value e)

  never_on-Entry :
      (m : Manager keys) (outside : W) (ops : List (Op T)) (xs : List T) (value : Option U)
      → never_on key ops ≡ true
      → Entry xs value m
      → Entry xs value (manager_after keys (m, outside) ops).0
  unfolding manager_after
  never_on-Entry m outside [] xs value apart e = e
  never_on-Entry m outside (op ∷ ops) xs value apart e =
      let (m', outside') = op_after keys (m, outside) op in
      never_on-Entry m' outside' ops xs value (ground arith)
        (op-Entry m outside op xs value (inr (ground arith)) e)

  never_adds-Entry :
      (m : Manager keys) (outside : W) (ops : List (Op T)) (xs : List T) (value : Option U)
      → never_adds key ops ≡ true
      → ((keys key).cache ≡ false) ⊎ ((v : U) × (value ≡ some v))
      → Entry xs value m
      → Entry xs value (manager_after keys (m, outside) ops).0
  unfolding manager_after
  never_adds-Entry m outside [] xs value apart why e = e
  never_adds-Entry m outside (op ∷ ops) xs value apart why e =
      let (m', outside') = op_after keys (m, outside) op in
      never_adds-Entry m' outside' ops xs value (ground arith) why
        (op-Entry m outside op xs value (inl (ground arith, why)) e)

  -- What a read returns or raises, and what it leaves outside of the manager.
  abbrev pub observed : Manager keys × W → Result U × W
  observed (m, outside) =
      let (ret, (m', outside')) = get_dependency keys m key outside in (ret, outside')

  read_anew :
      (m : Manager keys) (outside : W) (xs : List T)
      → Entry xs none m
      → observed (m, outside) ≡ (keys key).combine xs outside
  unfolding get_dependency get_optional_dependency
  read_anew m outside xs e =
      let found : (not (keys key).empty_valid && not (has_key m.dependencies key)) ≡ false =
        ground (arith, e.is_there) in
      elim (Result-cases ((keys key).combine xs outside).0) [
        | inl (error, fails) ↦
            rw (found, e.in_cache, combined, e.provided_list, fails) (rw e.provided_list)
        | inr (v, gives) ↦
            rw (found, e.in_cache, combined, e.provided_list, gives) (rw e.provided_list)
      ]

  read_cached :
      (m : Manager keys) (outside : W) (xs : List T) (v : U)
      → Entry xs (some v) m
      → observed (m, outside) ≡ (ok v, outside)
  unfolding get_dependency get_optional_dependency
  read_cached m outside xs v e =
      let found : (not (keys key).empty_valid && not (has_key m.dependencies key)) ≡ false =
        ground (arith, e.is_there) in
      rw (found, e.in_cache) refl

  stored : U → Option U
  stored v = if (keys key).cache then some v else none

  read-Entry :
      (m : Manager keys) (outside : W) (xs : List T) (v : U)
      → ((keys key).combine xs outside).0 ≡ ok v
      → Entry xs none m
      → Entry xs (stored v) (get_dependency keys m key outside).1.0
  unfolding get_dependency get_optional_dependency stored
  read-Entry m outside xs v gives e =
      let found : (not (keys key).empty_valid && not (has_key m.dependencies key)) ≡ false =
        ground (arith, e.is_there) in
      let gives' : ((keys key).combine (list_at m.dependencies key) outside).0 ≡ ok v =
        rw e.provided_list gives in
      rw (found, e.in_cache, combined, gives')
        (record {
          provided_list = list_at-touch m.dependencies key key ∙ e.provided_list;
          is_there = ground (arith, has_key-touch m.dependencies key key);
          in_cache = elim (Bool-cases (keys key).cache) [
            | inl stores ↦ rw (stores, ==_refl key) refl
            | inr drops ↦ rw drops e.in_cache
          ];
        })

  added-Entry :
      (m m' : Manager keys) (x : T)
      → add_dependency keys m key x ≡ (ok tt, m')
      → Entry (list_at m.dependencies key ++ x ∷ []) none m'
  unfolding add_dependency
  added-Entry m m' x added = elim (Bool-cases (contains m.locked_dependencies key)) [
    | inl locked ↦ let bad = ap (λ r. r.0) (rw locked at added) in absurd (cc)
    | inr open_key ↦
        let same : (record m {
          dependencies = append_at m.dependencies key x;
          cache = delete key m.cache;
        })
            ≡ m' =
          ap (λ r. r.1) (rw open_key at added) in
        subst (Entry (list_at m.dependencies key ++ x ∷ []) none) same (record {
          provided_list = list_at-append_at m.dependencies key key x ∙ rw (==_refl key) refl;
          is_there = ground (arith, has_key-append_at m.dependencies key key x);
          in_cache = lookup-delete key key m.cache ∙ rw (==_refl key) refl;
        })
  ]

  -- A dependency is added to a key, calls on other keys follow, and `combine` then gives a value of the
  -- list with the new dependency. The first read of the key calls `combine` on this list and returns
  -- its value. After any further calls that add nothing to the key, reads of it included, a read
  -- returns this value without a call of `combine` if the key is cached, and otherwise calls `combine`
  -- anew on the same list. `combine` may read and change what is outside of the manager.
  pub read_after_add :
      (m m' : Manager keys) (outside : W) (x : T) (v : U) (before later : List (Op T))
      → add_dependency keys m key x ≡ (ok tt, m')
      → never_on key before ≡ true
      → ((keys key).combine
          (list_at m.dependencies key ++ x ∷ [])
          (manager_after keys (m', outside) before).1).0
        ≡ ok v
      → never_adds key later ≡ true
      → let xs = list_at m.dependencies key ++ x ∷ [] in
        let start = manager_after keys (m', outside) before in
        let now = manager_after keys (get_dependency keys start.0 key start.1).1 later in
        (observed start ≡ (keys key).combine xs start.1)
        × (observed now ≡ (if (keys key).cache then (ok v, now.1) else (keys key).combine xs now.1))
  unfolding stored
  read_after_add m m' outside x v before later added apart gives quiet =
      let xs = list_at m.dependencies key ++ x ∷ [] in
      let start = manager_after keys (m', outside) before in
      let e = never_on-Entry m' outside before xs none apart (added-Entry m m' x added) in
      let e' = read-Entry start.0 start.1 xs v gives e in
      let (m3, outside3) = (get_dependency keys start.0 key start.1).1 in
      let now = manager_after keys (m3, outside3) later in
      (
        read_anew start.0 start.1 xs e,
        elim (Bool-cases (keys key).cache) [
          | inl stores ↦ rw stores (
              read_cached now.0 now.1 xs v (
                never_adds-Entry m3 outside3 later xs (some v) quiet (inr (v, refl))
                  (rw stores at e')))
          | inr drops ↦ rw drops (
              read_anew now.0 now.1 xs
                (never_adds-Entry m3 outside3 later xs none quiet (inl drops) (rw drops at e')))
        ],
      )
