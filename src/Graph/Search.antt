-- ===== src/Graph/Search.antt =====
-- The inner loop of `_graph_ccs`: its fuel, and what it finds.
use transactron.Prelude.{
  ℕ, zero, suc, ◌+◌, ◌≤◌, Bool, true, false, ◌||◌, ◌&&◌, not, Option, none, some, List, [], ◌∷◌,
  ◌++◌, ◌==◌, if◌then◌else◌, contains, contains-append, In, length, arith, ◌≡◌, refl, inl, inr,
  Bool-cases,
}
use transactron.Graph.{Graph, neighbours, extend, size, search}

abbrev pub found_or_nil : Option (List ℕ) → List ℕ
found_or_nil none = []
found_or_nil (some ns) = ns

abbrev pub Edge : Graph → ℕ → ℕ → Type 0
Edge g u v = In v (found_or_nil (neighbours g u))

-- The walks of a graph.
pub data Walk (g : Graph) (u : ℕ) : ℕ → Type 0 where
  here : Walk g u u
  step : {v w : ℕ} → Walk g u v → Edge g v w → Walk g u w

-- No number twice.
abbrev pub distinct : List ℕ → Bool
distinct [] = true
distinct (x ∷ xs) = not (contains xs x) && distinct xs

-- The edges out of the vertices that are not visited.
abbrev pending : Graph → List ℕ → ℕ
pending [] vis = 0
pending ((k, ns) ∷ g) vis = (if contains vis k then 0 else length ns) + pending g vis

pending_mono : (g : Graph) (vis : List ℕ) (w : ℕ) → pending g (w ∷ vis) ≤ pending g vis
pending_mono [] vis w = omega arith
pending_mono ((k, ns) ∷ g) vis w = ground (arith, pending_mono g vis w)

pending_drops :
    (g : Graph) (vis : List ℕ) (w : ℕ) (ns : List ℕ)
    → contains vis w ≡ false
    → neighbours g w ≡ some ns
    → pending g (w ∷ vis) + length ns ≤ pending g vis
pending_drops [] vis w ns h e = cc
pending_drops ((k, ms) ∷ g) vis w ns h e =
    ground (arith, pending_mono g vis w, pending_drops g vis w ns)

pending-size : (g : Graph) (vis : List ℕ) → pending g vis ≤ size g
pending-size [] vis = omega arith
pending-size ((k, ns) ∷ g) vis = ground (arith, pending-size g vis)

length-extend : (q ns : List ℕ) → length (extend q ns) ≡ length q + length ns
length-extend q [] = omega arith
length-extend q (n ∷ ns) = omega (arith, length-extend (n ∷ q) ns)

contains-extend :
    (q ns : List ℕ) (v : ℕ) → contains (extend q ns) v ≡ (contains ns v || contains q v)
contains-extend q [] v = refl
contains-extend q (n ∷ ns) v = ground (arith, contains-extend (n ∷ q) ns v)

-- `seen` was visited before this search, from `root`.
module _ (g : Graph) (root : ℕ) (seen : List ℕ) where
  -- The loop's invariant, at the stack `q` and with `comp` found.
  record Searching (q comp : List ℕ) : Type 0 where
    reached : (v : ℕ) → (contains q v || contains comp v) ≡ true → Walk g root v
    closed : (u v : ℕ) → In u comp → Edge g u v → (contains q v || contains (comp ++ seen) v) ≡ true
    covers : (contains q root || contains (comp ++ seen) root) ≡ true
    fresh : (v : ℕ) → In v comp → contains seen v ≡ false
    distinct_cc : distinct comp ≡ true

  pub record Found (comp : List ℕ) : Type 0 where
    pub reached : (v : ℕ) → In v comp → Walk g root v
    pub closed : (u v : ℕ) → In u comp → Edge g u v → In v (comp ++ seen)
    pub covers : In root (comp ++ seen)
    pub fresh : (v : ℕ) → In v comp → contains seen v ≡ false
    pub distinct_cc : distinct comp ≡ true

  skips :
      (w : ℕ) (q comp : List ℕ) → In w (comp ++ seen) → Searching (w ∷ q) comp → Searching q comp
  skips w q comp h s = record {
    reached = λ v m. s.reached v (ground arith);
    closed = λ u v m e. ground (arith, s.closed u v m e);
    covers = ground (arith, s.covers);
    fresh = s.fresh;
    distinct_cc = s.distinct_cc;
  }

  visits :
      (w : ℕ) (q comp ns : List ℕ)
      → contains (comp ++ seen) w ≡ false
      → neighbours g w ≡ some ns
      → Searching (w ∷ q) comp
      → Searching (extend q ns) (w ∷ comp)
  visits w q comp ns new e s = record {
    reached = λ v m. elim (Bool-cases (contains ns v)) [
      | inl out ↦ step (s.reached w (ground arith)) (rw e out)
      | inr other ↦ s.reached v (ground (arith, contains-extend q ns v))
    ];
    closed = λ u v m edge. ground (
      arith,
      contains-extend q ns v,
      out_of w ns e u v edge,
      λ (old : In u comp). s.closed u v old edge,
    );
    covers = ground (arith, s.covers, contains-extend q ns root);
    fresh = λ v m. ground (arith, s.fresh v, contains-append comp seen w);
    distinct_cc = ground (arith, s.distinct_cc, contains-append comp seen w);
  }
    where
      out_of :
          (w : ℕ) (ns : List ℕ)
          → neighbours g w ≡ some ns
          → (u v : ℕ) → Edge g u v
          → (w == u) ≡ true
          → In v ns
      out_of w ns e u v edge h = let same : u ≡ w = ground arith in rw (same, e) at edge

  start : Searching (root ∷ []) []
  start = record {
    reached = λ v m. let same : v ≡ root = ground arith in rw same here;
    closed = λ u v m e. cc;
    covers = ground arith;
    fresh = λ v m. cc;
    distinct_cc = refl;
  }

  -- Every neighbour is a key.
  module _ (is_closed : (u v : ℕ) → Edge g u v → (ns : List ℕ) × (neighbours g v ≡ some ns)) where
    search_ends :
        (fuel : ℕ) (q comp : List ℕ)
        → length q + pending g (comp ++ seen) ≤ fuel
        → ((v : ℕ) → In v q → (ns : List ℕ) × (neighbours g v ≡ some ns))
        → Searching q comp
        → (out : List ℕ) × (search fuel g q (comp ++ seen) comp ≡ some (out, out ++ seen))
          × Found out
    unfolding search
    search_ends fuel [] comp h k s = (
      comp,
      refl,
      record {
        reached = λ v m. s.reached v m;
        closed = s.closed;
        covers = s.covers;
        fresh = s.fresh;
        distinct_cc = s.distinct_cc;
      },
    )
    search_ends zero (w ∷ q) comp h k s = absurd (omega arith)
    search_ends (suc fuel) (w ∷ q) comp h k s = elim (Bool-cases (contains (comp ++ seen) w)) [
      | inl old ↦
          rw (old, search)
            (search_ends fuel q comp (omega arith) (λ v m. k v (ground arith))
              (skips w q comp old s))
      | inr new ↦
          let (ns, e) = k w (ground arith) in
          rw (new, e, search)
            (search_ends fuel (extend q ns) (w ∷ comp)
              (omega (arith, length-extend q ns, pending_drops g (comp ++ seen) w ns new e))
              (λ v m. elim (Bool-cases (contains ns v)) [
                | inl out ↦ is_closed w v (rw e out)
                | inr other ↦ k v (ground (arith, contains-extend q ns v))
              ])
              (visits w q comp ns new e s))
    ]

    -- From a key the search ends within its fuel.
    pub search_finds :
        (ns : List ℕ)
        → neighbours g root ≡ some ns
        → (out : List ℕ) × (search (size g + 1) g (root ∷ []) seen [] ≡ some (out, out ++ seen))
          × Found out
    search_finds ns e =
        search_ends (size g + 1) (root ∷ []) [] (omega (arith, pending-size g seen))
          (λ v m. let same : v ≡ root = ground arith in rw same (ns, e)) start
