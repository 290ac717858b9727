-- ===== src/Scheduler/Tests.antt =====
-- A cycle of the eager scheduler on the path 0 - 1 - 2: 0 has priority over 1 and 1 over 2; all are
-- ready and runnable.
use transactron.Prelude.{ℕ, ◌≤◌, true, [], ◌∷◌, ◌≡◌, refl, arith, ◌==◌, ◌||◌}
use transactron.Graph.{Graph, graph_ccs}
use transactron.Graph.Search.{Edge}
use transactron.Graph.Components.{Symmetric, HasKeys, key_neighbours}
use transactron.Scheduler.{Signals, Eager, sort, grant}
use transactron.Scheduler.System.{Scheduled, no_conflicting_runs, runs_or_blocked}

abbrev path : Graph
path = (0, 1 ∷ []) ∷ (1, 0 ∷ 2 ∷ []) ∷ (2, 1 ∷ []) ∷ []

path_undirected : Symmetric path
path_undirected u v e = ground arith

path_closed : HasKeys path
path_closed u v e = key_neighbours path v (ground arith)

abbrev identity_order : ℕ → ℕ
identity_order t = t

-- 0 and 2 run together.
abbrev cycle : Signals
cycle = record { ready = λ t. true; runnable = λ t. true; run = λ t. t == 0 || t == 2 }

path-Scheduled : Scheduled path identity_order cycle
unfolding graph_ccs Eager sort grant
path-Scheduled = ((2 ∷ 1 ∷ 0 ∷ []) ∷ [], refl, ((refl, (refl, (refl, tt))), tt))

no_conflicting_runs_example : ¬ ((cycle.run 0 ≡ true) × (cycle.run 1 ≡ true))
no_conflicting_runs_example =
    no_conflicting_runs path identity_order cycle path_undirected path_closed path-Scheduled 0 1
      refl (omega arith) refl

runs_or_blocked_example :
    (j : ℕ) × (identity_order j ≤ identity_order 1) × Edge path 1 j × (cycle.run j ≡ true)
runs_or_blocked_example =
    runs_or_blocked path identity_order cycle path_undirected path_closed path-Scheduled 1 refl refl
      refl refl
