-- ===== src/Dependencies/Entries.antt =====
-- Dictionaries with numbers as keys, as association lists.
use transactron.Prelude.{
  ℕ, Bool, true, false, Option, none, some, List, [], ◌∷◌, ◌++◌, ◌==◌, if◌then◌else◌, ◌≡◌, arith,
}

abbrev pub Dict {ℓ} : Type ℓ → Type ℓ
Dict V = List (ℕ × V)

module _ {ℓ} {V : Type ℓ} where
  abbrev pub lookup : ℕ → Dict V → Option V
  lookup k [] = none
  lookup k ((j, v) ∷ d) = if j == k then some v else lookup k d

  -- `del d[k]`, if it is there.
  abbrev pub delete : ℕ → Dict V → Dict V
  delete k [] = []
  delete k ((j, v) ∷ d) = if j == k then delete k d else (j, v) ∷ delete k d

  pub lookup-delete :
      (k j : ℕ) (d : Dict V) → lookup j (delete k d) ≡ (if k == j then none else lookup j d)
  lookup-delete k j [] = ground arith
  lookup-delete k j ((i, v) ∷ d) = ground (arith, lookup-delete k j d)

-- A `defaultdict(list)`.
module _ {ℓ} {T : Type ℓ} where
  abbrev pub has_key : Dict (List T) → ℕ → Bool
  has_key [] k = false
  has_key ((j, xs) ∷ d) k = if j == k then true else has_key d k

  -- The list that `d[k]` reads.
  abbrev pub list_at : Dict (List T) → ℕ → List T
  list_at [] k = []
  list_at ((j, xs) ∷ d) k = if j == k then xs else list_at d k

  -- `d[k]` alone: a key that is missing gets the empty list.
  abbrev pub touch : Dict (List T) → ℕ → Dict (List T)
  touch [] k = (k, []) ∷ []
  touch ((j, xs) ∷ d) k = if j == k then (j, xs) ∷ d else (j, xs) ∷ touch d k

  -- `d[k].append(x)`
  abbrev pub append_at : Dict (List T) → ℕ → T → Dict (List T)
  append_at [] k x = (k, x ∷ []) ∷ []
  append_at ((j, xs) ∷ d) k x = if j == k then (j, xs ++ x ∷ []) ∷ d else (j, xs) ∷ append_at d k x

  pub list_at-append_at :
      (d : Dict (List T)) (k j : ℕ) (x : T)
      → list_at (append_at d k x) j ≡ (if k == j then list_at d k ++ x ∷ [] else list_at d j)
  list_at-append_at [] k j x = ground arith
  list_at-append_at ((i, xs) ∷ d) k j x = ground (arith, list_at-append_at d k j x)

  pub has_key-append_at :
      (d : Dict (List T)) (k j : ℕ) (x : T)
      → has_key (append_at d k x) j ≡ (if k == j then true else has_key d j)
  has_key-append_at [] k j x = ground arith
  has_key-append_at ((i, xs) ∷ d) k j x = ground (arith, has_key-append_at d k j x)

  pub list_at-touch : (d : Dict (List T)) (k j : ℕ) → list_at (touch d k) j ≡ list_at d j
  list_at-touch [] k j = ground arith
  list_at-touch ((i, xs) ∷ d) k j = ground (arith, list_at-touch d k j)

  pub has_key-touch :
      (d : Dict (List T)) (k j : ℕ) → has_key (touch d k) j ≡ (if k == j then true else has_key d j)
  has_key-touch [] k j = ground arith
  has_key-touch ((i, xs) ∷ d) k j = ground (arith, has_key-touch d k j)

  pub touch-has_key : (d : Dict (List T)) (k : ℕ) → has_key d k ≡ true → touch d k ≡ d
  touch-has_key [] k h = cc
  touch-has_key ((i, xs) ∷ d) k h = ground (arith, touch-has_key d k)
