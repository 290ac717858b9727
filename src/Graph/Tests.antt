-- ===== src/Graph/Tests.antt =====
-- `_graph_ccs` on a graph with two components.
use transactron.Prelude.{ℕ, true, some, none, List, [], ◌∷◌, ◌≡◌, In, refl, arith}
use transactron.Graph.{Graph, keys, graph_ccs}
use transactron.Graph.Search.{distinct}
use transactron.Graph.Components.{
  Symmetric, HasKeys, All, IsComponent, joined, key_neighbours, graph_ccs_components,
}

-- A path 0 - 1 - 2 and an edge 3 - 4.
abbrev pub two_parts : Graph
two_parts = (0, 1 ∷ []) ∷ (1, 0 ∷ 2 ∷ []) ∷ (2, 1 ∷ []) ∷ (3, 4 ∷ []) ∷ (4, 3 ∷ []) ∷ []

two_parts_ccs : graph_ccs two_parts ≡ some ((2 ∷ 1 ∷ 0 ∷ []) ∷ (4 ∷ 3 ∷ []) ∷ [])
unfolding graph_ccs
two_parts_ccs = refl

two_parts_missing : graph_ccs ((0, 7 ∷ []) ∷ []) ≡ none
unfolding graph_ccs
two_parts_missing = refl

pub two_parts_undirected : Symmetric two_parts
two_parts_undirected u v e = ground arith

pub two_parts_closed : HasKeys two_parts
two_parts_closed u v e = key_neighbours two_parts v (ground arith)

graph_ccs_components_example :
    (ccs : List (List ℕ)) × (graph_ccs two_parts ≡ some ccs)
    × All (IsComponent two_parts) ccs
    × (distinct (joined ccs) ≡ true)
    × ((v : ℕ) → In v (keys two_parts) → In v (joined ccs))
graph_ccs_components_example = graph_ccs_components two_parts two_parts_undirected two_parts_closed
