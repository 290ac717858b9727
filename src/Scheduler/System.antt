-- ===== src/Scheduler/System.antt =====
-- All components together, as `TransactionManager.elaborate` schedules them.
use transactron.Prelude.{
  ℕ, ◌≤◌, true, false, some, List, [], ◌∷◌, contains, contains-append, In, arith, ◌≡◌, ◌≢◌, inl,
  inr, Bool-cases,
}
use transactron.Graph.{Graph, keys, graph_ccs}
use transactron.Graph.Search.{Edge, here, step}
use transactron.Graph.Components.{
  All, IsComponent, Symmetric, HasKeys, joined, graph_ccs_components,
}
use transactron.Scheduler.{Signals, Eager}
use transactron.Scheduler.Eager.{eager_ready, eager_safe, eager_blocked}

-- `[cc_scheduler(method_map, cgr, cc, porder) for cc in _graph_ccs(cgr)]`, with the eager scheduler.
abbrev pub Scheduled : Graph → (ℕ → ℕ) → Signals → Type 0
Scheduled cgr porder s =
    (ccs : List (List ℕ)) × (graph_ccs cgr ≡ some ccs) × All (λ comp. Eager cgr comp porder s) ccs

-- A transaction's component, with what holds of it.
component_of {ℓ κ} :
    (P : List ℕ → Type ℓ) (Q : List ℕ → Type κ) (ccs : List (List ℕ)) (t : ℕ)
    → All P ccs
    → All Q ccs
    → In t (joined ccs)
    → (comp : List ℕ) × P comp × Q comp × In t comp
component_of P Q [] t p q m = cc
component_of P Q (comp ∷ ccs) t p q m = elim (Bool-cases (contains comp t)) [
  | inl here_in ↦ (comp, p.0, q.0, here_in)
  | inr later ↦ component_of P Q ccs t p.1 q.1 (ground (arith, contains-append comp (joined ccs) t))
]

module _ (cgr : Graph) (porder : ℕ → ℕ) (s : Signals) (sym : Symmetric cgr) (closed : HasKeys cgr)
    (sched : Scheduled cgr porder s) where
  component :
      (t : ℕ)
      → In t (keys cgr)
      → (comp : List ℕ) × IsComponent cgr comp × Eager cgr comp porder s × In t comp
  component t m =
      let (ccs, e, comps, unique, covers) = graph_ccs_components cgr sym closed in
      let (ccs', e', eager) = sched in
      let same : ccs' ≡ ccs = cc in
      component_of (IsComponent cgr) (λ comp. Eager cgr comp porder s) ccs t comps
        (rw same at eager) (covers t m)

  -- With an undirected conflict graph and the eager scheduler on every component, a transaction that
  -- runs is ready and runnable.
  pub run-ready :
      (t : ℕ) → In t (keys cgr) → s.run t ≡ true → (s.ready t ≡ true) × (s.runnable t ≡ true)
  run-ready t m r =
      let (comp, c, eager, mc) = component t m in eager_ready cgr comp porder s eager t mc r

  -- With an undirected conflict graph and the eager scheduler on every component, two different
  -- transactions that are joined by an edge of the graph do not run in one cycle.
  pub no_conflicting_runs :
      (t u : ℕ) → In t (keys cgr) → t ≢ u → Edge cgr t u → ¬ ((s.run t ≡ true) × (s.run u ≡ true))
  no_conflicting_runs t u m ne e (r, r') =
      let (comp, c, eager, mc) = component t m in
      eager_safe cgr comp porder s eager t u mc (c.isolated t u mc (step here e)) ne e (sym t u e) r
        r'

  -- With an undirected conflict graph and the eager scheduler on every component, when a transaction
  -- that is ready and runnable does not run, one in conflict with it runs that does not come after it
  -- in the priority order.
  pub runs_or_blocked :
      (t : ℕ)
      → In t (keys cgr)
      → s.ready t ≡ true
      → s.runnable t ≡ true
      → s.run t ≡ false
      → (j : ℕ) × (porder j ≤ porder t) × Edge cgr t j × (s.run j ≡ true)
  runs_or_blocked t m h h' r =
      let (comp, c, eager, mc) = component t m in eager_blocked cgr comp porder s eager t mc h h' r
