-- ===== src/Graph/Components.antt =====
-- The result of `_graph_ccs` on an undirected graph: its connected components.
use transactron.Prelude.{
  ℕ, ◌+◌, true, false, some, List, [], ◌∷◌, ◌++◌, ◌==◌, contains, contains-append, In, arith,
  append-nil, ◌≡◌, refl, inl, inr, Bool-cases,
}
use transactron.Graph.{Graph, neighbours, keys, size, search, append_found, scan, graph_ccs}
use transactron.Graph.Search.{Edge, Walk, here, step, distinct, Found, search_finds}

-- All members of the components.
abbrev pub joined : List (List ℕ) → List ℕ
joined [] = []
joined (c ∷ ccs) = c ++ joined ccs

abbrev pub All {ℓ} : (List ℕ → Type ℓ) → List (List ℕ) → Type ℓ
All P [] = Unit
All P (c ∷ ccs) = P c × All P ccs

-- The members are connected to each other and to nothing else.
pub record IsComponent (g : Graph) (c : List ℕ) : Type 0 where
  pub nonempty : (v : ℕ) × In v c
  pub connected : (u v : ℕ) → In u c → In v c → Walk g u v
  pub isolated : (u v : ℕ) → In u c → Walk g u v → In v c

distinct-append :
    (xs ys : List ℕ)
    → distinct xs ≡ true
    → distinct ys ≡ true
    → ((v : ℕ) → In v xs → contains ys v ≡ false)
    → distinct (xs ++ ys) ≡ true
distinct-append [] ys dx dy apart = dy
distinct-append (x ∷ xs) ys dx dy apart =
    let tail = distinct-append xs ys (ground arith) dy (λ v m. apart v (ground arith)) in
    ground (arith, tail, contains-append xs ys x, apart x)

Walk-trans : {g : Graph} {u v w : ℕ} → Walk g u v → Walk g v w → Walk g u w
Walk-trans p here = p
Walk-trans p (step q e) = step (Walk-trans p q) e

abbrev pub Symmetric : Graph → Type 0
Symmetric g = (u v : ℕ) → Edge g u v → Edge g v u

abbrev pub HasKeys : Graph → Type 0
HasKeys g = (u v : ℕ) → Edge g u v → (ns : List ℕ) × (neighbours g v ≡ some ns)

module _ (g : Graph) (sym : Symmetric g) (closed : HasKeys g) where
  Walk-back : {u v : ℕ} → Walk g u v → Walk g v u
  Walk-back here = here
  Walk-back (step {v} {w} p e) = Walk-trans (step here (sym v w e)) (Walk-back p)

  abbrev IsClosed : List ℕ → Type 0
  IsClosed vis = (u v : ℕ) → In u vis → Edge g u v → In v vis

  stays : (c : List ℕ) → IsClosed c → {u v : ℕ} → Walk g u v → In u c → In v c
  stays c k here h = h
  stays c k (step {v} {w} p e) h = k v w (stays c k p h) e

  -- What one search adds is closed, and so is all that is visited then.
  Found-IsClosed :
      (root : ℕ) (vis c : List ℕ)
      → IsClosed vis
      → Found g root vis c
      → IsClosed c × IsClosed (c ++ vis)
  Found-IsClosed root vis c k f = (
    λ u v m e. ground (
      arith,
      f.closed u v m e,
      contains-append c vis v,
      λ (o : In v vis). k v u o (sym u v e),
      f.fresh u m,
    ),
    λ u v m e. ground (
      arith,
      contains-append c vis u,
      contains-append c vis v,
      λ (o : In u vis). k u v o e,
      λ (o : In u c). f.closed u v o e,
    ),
  )

  Found-IsComponent :
      (root x : ℕ) (vis c : List ℕ)
      → IsClosed vis
      → Found g root vis (x ∷ c)
      → IsComponent g (x ∷ c)
  Found-IsComponent root x vis c k f = record {
    nonempty = (x, ground arith);
    connected = λ u v a b. Walk-trans (Walk-back (f.reached u a)) (f.reached v b);
    isolated = λ u v a p. stays (x ∷ c) (Found-IsClosed root vis (x ∷ c) k f).0 p a;
  }

  record Scanned (vs vis : List ℕ) (ccs : List (List ℕ)) : Type 0 where
    components : All (IsComponent g) ccs
    unique : distinct (joined ccs) ≡ true
    fresh : (v : ℕ) → In v (joined ccs) → contains vis v ≡ false
    covers : (v : ℕ) → In v vs → In v (joined ccs ++ vis)

  extend_scan :
      (v : ℕ) (vs vis c : List ℕ) (ccs : List (List ℕ))
      → IsClosed vis
      → Found g v vis c
      → Scanned vs (c ++ vis) ccs
      → Scanned (v ∷ vs) vis (append_found c ccs)
  extend_scan v vs vis [] ccs k f s = record {
    components = s.components;
    unique = s.unique;
    fresh = s.fresh;
    covers = λ w m. ground (arith, s.covers w, f.covers, contains-append (joined ccs) vis w);
  }
  extend_scan v vs vis (x ∷ c) ccs k f s = record {
    components = (Found-IsComponent v x vis c k f, s.components);
    unique =
        distinct-append (x ∷ c) (joined ccs) f.distinct_cc s.unique
          (λ w m. ground (arith, s.fresh w, contains-append (x ∷ c) vis w));
    fresh = λ w m.
        ground
          (arith, f.fresh w, s.fresh w, contains-append c (joined ccs) w, contains-append c vis w);
    covers = λ w m. ground (
      arith,
      s.covers w,
      f.covers,
      contains-append c (joined ccs) w,
      contains-append c vis w,
      contains-append (joined ccs) vis w,
      contains-append (c ++ joined ccs) vis w,
      contains-append (joined ccs) (x ∷ c ++ vis) w,
    );
  }

  scan-cons :
      (v : ℕ) (vs vis : List ℕ) {vis' c : List ℕ} {ccs : List (List ℕ)}
      → search (size g + 1) g (v ∷ []) vis [] ≡ some (c, vis')
      → scan g vs vis' ≡ some ccs
      → scan g (v ∷ vs) vis ≡ some (append_found c ccs)
  unfolding scan
  scan-cons v vs vis e e' = rw (e, e', scan)

  scan_finds :
      (vs vis : List ℕ)
      → ((v : ℕ) → In v vs → (ns : List ℕ) × (neighbours g v ≡ some ns))
      → IsClosed vis
      → (ccs : List (List ℕ)) × (scan g vs vis ≡ some ccs) × Scanned vs vis ccs
  unfolding scan
  scan_finds [] vis ks k =
      ([], refl, record { components = tt; unique = refl; fresh = λ v m. cc; covers = λ v m. cc })
  scan_finds (v ∷ vs) vis ks k =
      let (ns, key) = ks v (ground arith) in
      let (c, e, f) = search_finds g v vis closed ns key in
      let (ccs, e', s) =
        scan_finds vs (c ++ vis) (λ w m. ks w (ground arith)) (Found-IsClosed v vis c k f).1 in
      (append_found c ccs, scan-cons v vs vis e e', extend_scan v vs vis c ccs k f s)

pub key_neighbours :
    (g : Graph) (v : ℕ) → In v (keys g) → (ns : List ℕ) × (neighbours g v ≡ some ns)
key_neighbours [] v m = cc
key_neighbours ((k, ns) ∷ g) v m = elim (Bool-cases (k == v)) [
  | inl same ↦ (ns, rw same)
  | inr other ↦ rw other (key_neighbours g v (ground arith))
]

-- On an undirected graph whose edges lead to keys only, `_graph_ccs` ends without a missing key.
-- Its components hold every key exactly once, and each is a whole connected component: not empty,
-- connected by walks, and left by no walk.
pub graph_ccs_components :
    (g : Graph)
    → Symmetric g
    → HasKeys g
    → (ccs : List (List ℕ)) × (graph_ccs g ≡ some ccs)
      × All (IsComponent g) ccs
      × (distinct (joined ccs) ≡ true)
      × ((v : ℕ) → In v (keys g) → In v (joined ccs))
unfolding graph_ccs
graph_ccs_components g sym closed =
    let (ccs, e, s) = scan_finds g sym closed (keys g) [] (key_neighbours g) (λ u v m edge. cc) in
    (ccs, e, s.components, s.unique, λ v m. rw append-nil at (s.covers v m))
