-- ===== src/Graph.antt =====
-- `_graph_ccs` of transactron/utils/transactron_helpers.py: the connected components of a graph
-- that is given by adjacency lists. A dictionary is an association list in insertion order, a set
-- is a list in the order of the additions, and a missing key is the error `none`.
pub mod Search
pub mod Components
mod Tests
use transactron.Prelude.{
  ℕ, zero, suc, ◌+◌, Bool, true, false, Option, none, some, List, [], ◌∷◌, ◌==◌, if◌then◌else◌,
  contains, length,
}

abbrev pub Graph : Type 0
Graph = List (ℕ × List ℕ)

-- `gr[w]`
abbrev pub neighbours : Graph → ℕ → Option (List ℕ)
neighbours [] w = none
neighbours ((k, ns) ∷ g) w = if k == w then some ns else neighbours g w

abbrev pub keys : Graph → List ℕ
keys [] = []
keys ((k, ns) ∷ g) = k ∷ keys g

-- `q.extend(ns)`, for a stack `q` with its top first.
abbrev pub extend : List ℕ → List ℕ → List ℕ
extend q [] = q
extend q (n ∷ ns) = extend (n ∷ q) ns

-- All edges of the graph, by both ends.
abbrev pub size : Graph → ℕ
size [] = 0
size ((k, ns) ∷ g) = length ns + size g

-- The inner `while` loop, on fuel: it returns `cc` and `visited`.
unfoldable pub search : ℕ → Graph → List ℕ → List ℕ → List ℕ → Option (List ℕ × List ℕ)
search fuel g [] visited cc = some (cc, visited)
search zero g (w ∷ q) visited cc = none
search (suc fuel) g (w ∷ q) visited cc = elim (contains visited w) [
  | true ↦ search fuel g q visited cc
  | false ↦ elim (neighbours g w) [
    | none ↦ none
    | some ns ↦ search fuel g (extend q ns) (w ∷ visited) (w ∷ cc)
  ]
]

-- `if cc: ccs.append(cc)`
abbrev pub append_found : List ℕ → List (List ℕ) → List (List ℕ)
append_found [] ccs = ccs
append_found (v ∷ cc) ccs = (v ∷ cc) ∷ ccs

-- The outer loop, over the keys that are left.
unfoldable pub scan : Graph → List ℕ → List ℕ → Option (List (List ℕ))
scan g [] visited = some []
scan g (v ∷ vs) visited = elim (search (size g + 1) g (v ∷ []) visited []) [
  | none ↦ none
  | some (cc, visited') ↦ elim (scan g vs visited') [
    | none ↦ none
    | some ccs ↦ some (append_found cc ccs)
  ]
]

unfoldable pub graph_ccs : Graph → Option (List (List ℕ))
unfolding scan search
graph_ccs g = scan g (keys g) []
