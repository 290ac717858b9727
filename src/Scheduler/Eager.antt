-- ===== src/Scheduler/Eager.antt =====
-- One component under `eager_deterministic_cc_scheduler`: what runs and what waits.
use transactron.Prelude.{
  ℕ, ◌≤◌, Bool, true, false, List, [], ◌∷◌, ◌++◌, ◌==◌, contains-append, In, arith, ◌≡◌, ◌≢◌, ◌⊎◌,
  inl, inr, Bool-cases,
}
use transactron.Graph.{Graph}
use transactron.Graph.Search.{Edge}
use transactron.Scheduler.{Signals, sort, conflicting, grant, Assigned, Eager}
use transactron.Scheduler.Sort.{contains-sort, Ordered, sort-Ordered}

conflicting_of_run :
    (gr : Graph) (run : ℕ → Bool) (t : ℕ) (before : List ℕ) (j : ℕ)
    → In j before
    → Edge gr t j
    → run j ≡ true
    → conflicting gr run t before ≡ true
unfolding conflicting
conflicting_of_run gr run t [] j m e r = cc
conflicting_of_run gr run t (x ∷ before) j m e r = elim (Bool-cases (x == j)) [
  | inl same ↦ let eq : x ≡ j = ground arith in rw eq (ground arith)
  | inr other ↦ ground (arith, conflicting_of_run gr run t before j)
]

-- A running transaction in conflict, of those before.
conflict_found :
    (gr : Graph) (run : ℕ → Bool) (t : ℕ) (before : List ℕ)
    → conflicting gr run t before ≡ true
    → (j : ℕ) × In j before × Edge gr t j × (run j ≡ true)
unfolding conflicting
conflict_found gr run t [] h = cc
conflict_found gr run t (x ∷ before) h = elim (Bool-cases (conflicting gr run t before)) [
  | inl later ↦ let (j, m, e, r) = conflict_found gr run t before later in (j, ground arith, e, r)
  | inr none_later ↦ (x, ground arith, ground arith, ground arith)
]

placed :
    (porder : ℕ → ℕ) (before : List ℕ) (x t j : ℕ)
    → porder x ≤ porder t
    → (In j (before ++ x ∷ []) ⊎ (porder j ≤ porder t))
    → In j before ⊎ (porder j ≤ porder t)
placed porder before x t j le (inr le') = inr le'
placed porder before x t j le (inl m) = elim (Bool-cases (x == j)) [
  | inl same ↦ let eq : j ≡ x = ground arith in inr (rw eq le)
  | inr other ↦ inl (ground (arith, contains-append before (x ∷ []) j))
]

module _ (gr : Graph) (s : Signals) where
  runs_ready :
      (before ccl : List ℕ) (t : ℕ)
      → Assigned gr s before ccl
      → In t ccl
      → s.run t ≡ true
      → (s.ready t ≡ true) × (s.runnable t ≡ true)
  unfolding grant
  runs_ready before [] t a m r = cc
  runs_ready before (x ∷ ccl) t a m r = elim (Bool-cases (x == t)) [
    | inl same ↦
        let eq : t ≡ x = ground arith in
        let r' : s.run x ≡ true = rw eq at r in rw eq (ground (arith, a.0))
    | inr other ↦ runs_ready (before ++ x ∷ []) ccl t a.1 (ground arith) r
  ]

  -- A running transaction conflicts with nothing that runs before it.
  apart_from_before :
      (before ccl : List ℕ) (t j : ℕ)
      → Assigned gr s before ccl
      → In t ccl
      → In j before
      → Edge gr t j
      → s.run t ≡ true
      → s.run j ≡ true
      → ⊥
  unfolding grant
  apart_from_before before [] t j a m b e r r' = cc
  apart_from_before before (x ∷ ccl) t j a m b e r r' = elim (Bool-cases (x == t)) [
    | inl same ↦
        let eq : x ≡ t = ground arith in
        let a' : s.run t ≡ grant gr s before t = rw eq at a.0 in
        ground (arith, a', conflicting_of_run gr s.run t before j b e r')
    | inr other ↦
        apart_from_before (before ++ x ∷ []) ccl t j a.1 (ground arith)
          (ground (arith, contains-append before (x ∷ []) j)) e r r'
  ]

  apart :
      (before ccl : List ℕ) (t u : ℕ)
      → Assigned gr s before ccl
      → In t ccl
      → In u ccl
      → t ≢ u
      → Edge gr t u
      → Edge gr u t
      → s.run t ≡ true
      → s.run u ≡ true
      → ⊥
  apart before [] t u a mt mu ne e e' r r' = cc
  apart before (x ∷ ccl) t u a mt mu ne e e' r r' = elim (Bool-cases (x == t)) [
    | inl same ↦
        apart_from_before (before ++ x ∷ []) ccl u t a.1 (ground arith)
          (ground (arith, contains-append before (x ∷ []) t)) e' r' r
    | inr other ↦ elim (Bool-cases (x == u)) [
      | inl same ↦
          apart_from_before (before ++ x ∷ []) ccl t u a.1 (ground arith)
            (ground (arith, contains-append before (x ∷ []) u)) e r r'
      | inr other' ↦ apart (before ++ x ∷ []) ccl t u a.1 (ground arith) (ground arith) ne e e' r r'
    ]
  ]

  -- What holds a transaction back that is ready and runnable.
  held_back :
      (porder : ℕ → ℕ) (before ccl : List ℕ) (t : ℕ)
      → Assigned gr s before ccl
      → Ordered porder ccl
      → In t ccl
      → s.ready t ≡ true
      → s.runnable t ≡ true
      → s.run t ≡ false
      → (j : ℕ) × (In j before ⊎ (porder j ≤ porder t)) × Edge gr t j × (s.run j ≡ true)
  unfolding grant
  held_back porder before [] t a o m h h' r = cc
  held_back porder before (x ∷ ccl) t a o m h h' r = elim (Bool-cases (x == t)) [
    | inl same ↦
        let eq : x ≡ t = ground arith in
        let a' : s.run t ≡ grant gr s before t = rw eq at a.0 in
        let (j, b, e, run_j) = conflict_found gr s.run t before (ground (arith, a')) in
        (j, inl b, e, run_j)
    | inr other ↦
        let (j, b, e, run_j) =
          held_back porder (before ++ x ∷ []) ccl t a.1 o.1 (ground arith) h h' r in
        (j, placed porder before x t j (o.0 t (ground arith)) b, e, run_j)
  ]

module _ (gr : Graph) (comp : List ℕ) (porder : ℕ → ℕ) (s : Signals)
    (eager : Eager gr comp porder s) where
  pub eager_ready :
      (t : ℕ) → In t comp → s.run t ≡ true → (s.ready t ≡ true) × (s.runnable t ≡ true)
  unfolding Eager
  eager_ready t m =
      runs_ready gr s [] (sort porder comp) t eager (rw (contains-sort porder comp t) m)

  pub eager_safe :
      (t u : ℕ)
      → In t comp
      → In u comp
      → t ≢ u
      → Edge gr t u
      → Edge gr u t
      → s.run t ≡ true
      → s.run u ≡ true
      → ⊥
  unfolding Eager
  eager_safe t u mt mu =
      apart gr s [] (sort porder comp) t u eager (rw (contains-sort porder comp t) mt)
        (rw (contains-sort porder comp u) mu)

  -- A transaction of the component that is ready and runnable, and does not run, is in conflict
  -- with a running one which does not come after it in the priority order.
  pub eager_blocked :
      (t : ℕ)
      → In t comp
      → s.ready t ≡ true
      → s.runnable t ≡ true
      → s.run t ≡ false
      → (j : ℕ) × (porder j ≤ porder t) × Edge gr t j × (s.run j ≡ true)
  unfolding Eager
  eager_blocked t m h h' r =
      let (j, b, e, run_j) =
        held_back gr s porder [] (sort porder comp) t eager (sort-Ordered porder comp)
          (rw (contains-sort porder comp t) m) h h' r in
      (j, not_before j b, e, run_j)
    where
      not_before : (j : ℕ) → (In j [] ⊎ (porder j ≤ porder t)) → porder j ≤ porder t
      not_before j (inl none_before) = cc
      not_before j (inr le) = le
