-- ===== src/Manager/Conflicts/Edges.antt =====
-- The edges of the conflict graph.
use transactron.Prelude.{
  ℕ, Bool, true, ◌&&◌, ◌||◌, List, [], ◌∷◌, ◌++◌, ◌==◌, contains, In, any, arith, ◌≡◌, refl, ap,
  ap₂, ◌∙◌, inl, inr, Bool-cases,
}
use transactron.Graph.{Graph, keys}
use transactron.Manager.MethodMap.{targets}
use transactron.Manager.MethodMap.Build.{targets-append_at, keys-append_at}
use transactron.Manager.Conflicts.{EdgeArgs, Graphs, add_to, add_edge, add_edges, empty_graph}

targets-add_to :
    (g : Graph) (k v j x : ℕ)
    → contains (targets (add_to g k v) j) x
      ≡ (contains (targets g j) x || (contains (keys g) k && (k == j && v == x)))
targets-add_to g k v j x = elim (Bool-cases (contains (targets g k) v)) [
  | inl old ↦ elim (Bool-cases (k == j && v == x)) [
    | inl same ↦
        let ej : j ≡ k = ground arith in let ex : x ≡ v = ground arith in rw (ej, ex, old) old
    | inr other ↦ rw (old, other) (ground arith)
  ]
  | inr new ↦ rw new (targets-append_at g k v j x)
]

keys-add_to : (g : Graph) (k v : ℕ) → keys (add_to g k v) ≡ keys g
keys-add_to g k v = ground (arith, keys-append_at g k v)

-- The edge from `u` to `v` is one of the two that the call adds.
abbrev pub adds : EdgeArgs → ℕ → ℕ → Bool
adds e u v = e.conflict && ((e.begin == u && e.end == v) || (e.end == u && e.begin == v))

adds_comm : (e : EdgeArgs) (u v : ℕ) → adds e u v ≡ adds e v u
adds_comm e u v = ground arith

abbrev pub KnownEdges : List ℕ → List EdgeArgs → Type 0
KnownEdges ks [] = Unit
KnownEdges ks (e ∷ es) = (In e.begin ks × In e.end ks) × KnownEdges ks es

pub known_append :
    (ks : List ℕ) (es fs : List EdgeArgs)
    → KnownEdges ks es
    → KnownEdges ks fs
    → KnownEdges ks (es ++ fs)
known_append ks [] fs h k = k
known_append ks (e ∷ es) fs h k = (h.0, known_append ks es fs h.1 k)

keys-add_edge : (e : EdgeArgs) (gs : Graphs) → keys (add_edge e gs).cgr ≡ keys gs.cgr
unfolding add_edge
keys-add_edge e gs = elim (Bool-cases e.conflict) [
  | inl yes_conflict ↦
      rw yes_conflict
        (keys-add_to (add_to gs.cgr e.begin e.end) e.end e.begin ∙ keys-add_to gs.cgr e.begin e.end)
  | inr no_conflict ↦ rw no_conflict
]

targets-add_edge :
    (e : EdgeArgs) (gs : Graphs) (u v : ℕ)
    → In e.begin (keys gs.cgr)
    → In e.end (keys gs.cgr)
    → contains (targets (add_edge e gs).cgr u) v ≡ (contains (targets gs.cgr u) v || adds e u v)
unfolding add_edge
targets-add_edge e gs u v kb ke = elim (Bool-cases e.conflict) [
  | inl yes_conflict ↦
      rw
        (
          yes_conflict,
          targets-add_to (add_to gs.cgr e.begin e.end) e.end e.begin u v,
          keys-add_to gs.cgr e.begin e.end,
          targets-add_to gs.cgr e.begin e.end u v,
          kb,
          ke,
        )
        (ground arith)
  | inr no_conflict ↦ rw no_conflict (ground arith)
]

pub targets-add_edges :
    (es : List EdgeArgs) (gs : Graphs) (u v : ℕ)
    → KnownEdges (keys gs.cgr) es
    → contains (targets (add_edges es gs).cgr u) v
      ≡ (contains (targets gs.cgr u) v || any (λ e. adds e u v) es)
targets-add_edges [] gs u v k = ground arith
targets-add_edges (e ∷ es) gs u v k =
    targets-add_edges es (add_edge e gs) u v (rw (keys-add_edge e gs) k.1)
    ∙ rw (targets-add_edge e gs u v k.0.0 k.0.1) (ground arith)

pub keys-add_edges : (es : List EdgeArgs) (gs : Graphs) → keys (add_edges es gs).cgr ≡ keys gs.cgr
keys-add_edges [] gs = refl
keys-add_edges (e ∷ es) gs = keys-add_edges es (add_edge e gs) ∙ keys-add_edge e gs

pub keys-empty_graph : (ts : List ℕ) → keys (empty_graph ts) ≡ ts
keys-empty_graph [] = refl
keys-empty_graph (t ∷ ts) = ap (λ ks. t ∷ ks) (keys-empty_graph ts)

pub targets-empty_graph : (ts : List ℕ) (t : ℕ) → targets (empty_graph ts) t ≡ []
targets-empty_graph [] t = refl
targets-empty_graph (u ∷ ts) t = ground (arith, targets-empty_graph ts t)

pub any-adds_comm :
    (es : List EdgeArgs) (u v : ℕ) → any (λ e. adds e u v) es ≡ any (λ e. adds e v u) es
any-adds_comm [] u v = refl
any-adds_comm (e ∷ es) u v = ap₂ ◌||◌ (adds_comm e u v) (any-adds_comm es u v)

pub adds_known :
    (ks : List ℕ) (es : List EdgeArgs) (u v : ℕ)
    → KnownEdges ks es
    → any (λ e. adds e u v) es ≡ true
    → In v ks
adds_known ks [] u v k h = cc
adds_known ks (e ∷ es) u v k h = elim (Bool-cases (adds e u v)) [
  | inl now ↦ elim (Bool-cases (e.end == v)) [
    | inl same ↦ let eq : v ≡ e.end = ground arith in rw eq k.0.1
    | inr other ↦ let eq : v ≡ e.begin = ground arith in rw eq k.0.0
  ]
  | inr later ↦ adds_known ks es u v k.1 (ground arith)
]
