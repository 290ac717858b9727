-- ===== src/Manager/Conflicts/Undirected.antt =====
-- The conflict graph of a design: undirected, on the transactions, with an edge for each conflict.
use transactron.Prelude.{
  ℕ, Bool, true, false, not, ◌&&◌, ◌||◌, some, List, [], ◌∷◌, ◌++◌, ◌==◌, contains, contains-append,
  In, any, arith, ◌≡◌, ◌≢◌, refl, sym, subst, ◌∙◌, inl, inr, Bool-cases, Option-cases,
}
use transactron.Graph.{keys}
use transactron.Graph.Search.{Edge}
use transactron.Graph.Components.{Symmetric, HasKeys, key_neighbours}
use transactron.Manager.{RelationBase, Design}
use transactron.Manager.MethodMap.{MethodMap, targets, transactions_for}
use transactron.Manager.MethodMap.Contents.{Describes}
use transactron.Manager.Conflicts.{
  EdgeArgs, Graphs, add_edges, implicit_with, implicit_of, implicit_edges, Relation, relations_of,
  relations, explicit_with, explicit_of, explicit_edges, scheduled_late, calls_nonexclusive,
  empty_graph, conflict_graphs,
}
use transactron.Manager.Conflicts.Edges.{
  adds, KnownEdges, known_append, any-adds_comm, adds_known, targets-add_edges, keys-add_edges,
  keys-empty_graph, targets-empty_graph,
}

pub any-append {ℓ} :
    {A : Type ℓ} (p : A → Bool) (xs ys : List A) → any p (xs ++ ys) ≡ (any p xs || any p ys)
any-append p [] ys = refl
any-append p (x ∷ xs) ys = ground (arith, any-append p xs ys)

module _ (d : Design) (mm : MethodMap) (desc : Describes d mm) where
  elems : List ℕ
  elems = keys mm.transactions_by_method ++ keys mm.methods_by_transaction

  AllTransactions : List ℕ → Type 0
  AllTransactions ts = (t : ℕ) → In t ts → In t (keys mm.methods_by_transaction)

  transactions_for_known : (e : ℕ) → In e elems → AllTransactions (transactions_for mm e)
  unfolding transactions_for elems AllTransactions
  transactions_for_known e known t h =
      elim (Bool-cases (contains (keys mm.transactions_by_method) e)) [
        | inl is_method ↦ rw desc.transactions (
            ground (arith, desc.inverse t e, desc.calls t e, rw (is_method, transactions_for) at h))
        | inr is_transaction ↦
            let same : t ≡ e =
              (let h' = rw (is_transaction, transactions_for) at h in ground arith) in
            rw same (
              ground (
                arith,
                contains-append (keys mm.transactions_by_method) (keys mm.methods_by_transaction) e,
              ))
      ]

  known_implicit_with :
      (m t1 : ℕ) (ts : List ℕ)
      → In t1 (keys mm.methods_by_transaction)
      → AllTransactions ts
      → KnownEdges (keys mm.methods_by_transaction) (implicit_with d mm m t1 ts)
  unfolding AllTransactions
  known_implicit_with m t1 [] k a = tt
  known_implicit_with m t1 (t2 ∷ ts) k a =
      elim (Bool-cases (not (t1 == t2) && not (calls_nonexclusive d mm t1 t2 m))) [
        | inl edge ↦
            rw edge
              ((k, a t2 (ground arith)), known_implicit_with m t1 ts k (λ t h. a t (ground arith)))
        | inr no_edge ↦ rw no_edge (known_implicit_with m t1 ts k (λ t h. a t (ground arith)))
      ]

  known_implicit_of :
      (m : ℕ) (ts all_ts : List ℕ)
      → AllTransactions ts
      → AllTransactions all_ts
      → KnownEdges (keys mm.methods_by_transaction) (implicit_of d mm m ts all_ts)
  unfolding AllTransactions
  known_implicit_of m [] all_ts a b = tt
  known_implicit_of m (t ∷ ts) all_ts a b =
      known_append _ (implicit_with d mm m t all_ts) (implicit_of d mm m ts all_ts)
        (known_implicit_with m t all_ts (a t (ground arith)) b)
        (known_implicit_of m ts all_ts (λ u h. a u (ground arith)) b)

  known_implicit :
      (ms : List ℕ)
      → ((m : ℕ) → In m ms → In m elems)
      → KnownEdges (keys mm.methods_by_transaction) (implicit_edges d mm ms)
  unfolding implicit_edges
  known_implicit [] k = tt
  known_implicit (m ∷ ms) k =
      let a = transactions_for_known m (k m (ground arith)) in
      known_append _ (implicit_of d mm m (transactions_for mm m) (transactions_for mm m))
        (implicit_edges d mm ms)
        (known_implicit_of m (transactions_for mm m) (transactions_for mm m) a a)
        (known_implicit ms (λ n h. k n (ground arith)))

  known_explicit_with :
      (r : RelationBase) (t1 : ℕ) (ts : List ℕ)
      → In t1 (keys mm.methods_by_transaction)
      → AllTransactions ts
      → KnownEdges (keys mm.methods_by_transaction) (explicit_with d mm r t1 ts)
  unfolding AllTransactions
  known_explicit_with r t1 [] k a = tt
  known_explicit_with r t1 (t2 ∷ ts) k a =
      ((k, a t2 (ground arith)), known_explicit_with r t1 ts k (λ t h. a t (ground arith)))

  known_explicit_of :
      (r : RelationBase) (ts ends : List ℕ)
      → AllTransactions ts
      → AllTransactions ends
      → KnownEdges (keys mm.methods_by_transaction) (explicit_of d mm r ts ends)
  unfolding AllTransactions
  known_explicit_of r [] ends a b = tt
  known_explicit_of r (t ∷ ts) ends a b =
      known_append _ (explicit_with d mm r t ends) (explicit_of d mm r ts ends)
        (known_explicit_with r t ends (a t (ground arith)) b)
        (known_explicit_of r ts ends (λ u h. a u (ground arith)) b)

  KnownRelations : List Relation → Type 0
  KnownRelations [] = Unit
  KnownRelations ((start, r) ∷ rs) = (In start elems × In r.end elems) × KnownRelations rs

  known_explicit :
      (rs : List Relation) (es : List EdgeArgs)
      → KnownRelations rs
      → explicit_edges d mm rs ≡ some es
      → KnownEdges (keys mm.methods_by_transaction) es
  unfolding explicit_edges KnownRelations
  known_explicit [] es k h = let e : [] ≡ es = cc in subst (KnownEdges _) e tt
  known_explicit ((start, r) ∷ rs) es k h = elim (Bool-cases (scheduled_late d (start, r))) [
    | inl late ↦ ground (arith, late)
    | inr on_time ↦ elim (Option-cases (explicit_edges d mm rs)) [
      | inl failed ↦ let h' = rw (on_time, failed, explicit_edges) at h in cc
      | inr (fs, e) ↦
          let all : explicit_of d mm r (transactions_for mm start) (transactions_for mm r.end) ++ fs
              ≡ es =
            (let h' = rw (on_time, e, explicit_edges) at h in cc) in
          subst (KnownEdges _) all (
            known_append _
              (explicit_of d mm r (transactions_for mm start) (transactions_for mm r.end)) fs
              (known_explicit_of r (transactions_for mm start) (transactions_for mm r.end)
                (transactions_for_known start k.0.0) (transactions_for_known r.end k.0.1))
              (known_explicit rs fs k.1 e))
    ]
  ]

  KnownRelations-append :
      (rs ss : List Relation) → KnownRelations rs → KnownRelations ss → KnownRelations (rs ++ ss)
  unfolding KnownRelations
  KnownRelations-append [] ss h k = k
  KnownRelations-append ((start, r) ∷ rs) ss h k = (h.0, KnownRelations-append rs ss h.1 k)

  KnownRelations-of :
      (start : ℕ) (rs : List RelationBase)
      → In start elems
      → KnownRelations (relations_of start rs elems)
  unfolding KnownRelations
  KnownRelations-of start [] k = tt
  KnownRelations-of start (r ∷ rs) k = elim (Bool-cases (contains elems r.end)) [
    | inl known ↦ rw known ((k, known), KnownRelations-of start rs k)
    | inr unknown ↦ rw unknown (KnownRelations-of start rs k)
  ]

  known_relations :
      (es : List ℕ) → ((e : ℕ) → In e es → In e elems) → KnownRelations (relations d es elems)
  unfolding relations KnownRelations
  known_relations [] k = tt
  known_relations (e ∷ es) k =
      KnownRelations-append (relations_of e (d.body e).relations elems) (relations d es elems)
        (KnownRelations-of e (d.body e).relations (k e (ground arith)))
        (known_relations es (λ x h. k x (ground arith)))

  all_edges : List EdgeArgs → List EdgeArgs
  all_edges es = implicit_edges d mm (keys mm.transactions_by_method) ++ es

  -- The graphs, when no relation is late, from the edges of the relations.
  graphs_of :
      (gs : Graphs)
      → conflict_graphs d mm ≡ some gs
      → (es : List EdgeArgs) × (explicit_edges d mm (relations d elems elems) ≡ some es)
        × KnownEdges (keys mm.methods_by_transaction) (all_edges es)
        × (keys gs.cgr ≡ keys mm.methods_by_transaction)
        × ((u v : ℕ) → contains (targets gs.cgr u) v ≡ any (λ e. adds e u v) (all_edges es))
  unfolding conflict_graphs all_edges elems
  graphs_of gs h = elim (Option-cases (explicit_edges d mm (relations d elems elems))) [
    | inl failed ↦ let h' = rw (failed, conflict_graphs) at h in cc
    | inr (es, e) ↦
        let ks = keys mm.methods_by_transaction in
        let start : Graphs = record { cgr = empty_graph ks; pgr = empty_graph ks } in
        let same : add_edges (all_edges es) start ≡ gs =
          (let h' = rw (e, conflict_graphs) at h in cc) in
        let known : KnownEdges ks (all_edges es) =
          known_append ks (implicit_edges d mm (keys mm.transactions_by_method)) es
            (known_implicit (keys mm.transactions_by_method)
              (λ m k. ground (arith, contains-append (keys mm.transactions_by_method) ks m)))
            (known_explicit (relations d elems elems) es (known_relations elems (λ x k. k)) e) in
        (
          es,
          e,
          known,
          rw (← same) (keys-add_edges (all_edges es) start ∙ keys-empty_graph ks),
          λ u v. rw (← same) (
              targets-add_edges (all_edges es) start u v (rw keys-empty_graph known)
              ∙ rw (targets-empty_graph ks u) refl),
        )
  ]

  -- The conflict graph is undirected, its nodes are the transactions, and so are the ends of its
  -- edges.
  pub conflict_graph-undirected :
      (gs : Graphs)
      → conflict_graphs d mm ≡ some gs
      → Symmetric gs.cgr × HasKeys gs.cgr × (keys gs.cgr ≡ d.transactions)
  conflict_graph-undirected gs h =
      let (es, e, known, ks, edges) = graphs_of gs h in
      (
        λ u v m. edges v u ∙ (any-adds_comm (all_edges es) v u ∙ (sym (edges u v) ∙ m)),
        λ u v m. key_neighbours gs.cgr v (
            rw ks (
              adds_known (keys mm.methods_by_transaction) (all_edges es) u v known
                (sym (edges u v) ∙ m))),
        ks ∙ desc.transactions,
      )

  with_adds :
      (m t1 t2 : ℕ) (ts : List ℕ)
      → In t2 ts
      → t1 ≢ t2
      → calls_nonexclusive d mm t1 t2 m ≡ false
      → any (λ e. adds e t1 t2) (implicit_with d mm m t1 ts) ≡ true
  with_adds m t1 t2 [] k ne x = cc
  with_adds m t1 t2 (t ∷ ts) k ne x = elim (Bool-cases (t == t2)) [
    | inl same ↦
        let eq : t ≡ t2 = ground arith in
        let test : (not (t1 == t) && not (calls_nonexclusive d mm t1 t m)) ≡ true =
          rw (eq, x) (ground arith) in
        rw test (ground arith)
    | inr other ↦
        let rest = with_adds m t1 t2 ts (ground arith) ne x in
        elim (Bool-cases (not (t1 == t) && not (calls_nonexclusive d mm t1 t m))) [
          | inl edge ↦ rw edge (ground arith)
          | inr no_edge ↦ rw no_edge rest
        ]
  ]

  of_adds :
      (m t1 t2 : ℕ) (ts all_ts : List ℕ)
      → In t1 ts
      → In t2 all_ts
      → t1 ≢ t2
      → calls_nonexclusive d mm t1 t2 m ≡ false
      → any (λ e. adds e t1 t2) (implicit_of d mm m ts all_ts) ≡ true
  of_adds m t1 t2 [] all_ts k1 k2 ne x = cc
  of_adds m t1 t2 (t ∷ ts) all_ts k1 k2 ne x =
      rw (any-append (λ e. adds e t1 t2) (implicit_with d mm m t all_ts))
        (elim (Bool-cases (t == t1)) [
          | inl same ↦
              let eq : t ≡ t1 = ground arith in
              rw eq (ground (arith, with_adds m t1 t2 all_ts k2 ne x))
          | inr other ↦ ground (arith, of_adds m t1 t2 ts all_ts (ground arith) k2 ne x)
        ])

  implicit_adds :
      (ms : List ℕ) (m t1 t2 : ℕ)
      → In m ms
      → In t1 (transactions_for mm m)
      → In t2 (transactions_for mm m)
      → t1 ≢ t2
      → calls_nonexclusive d mm t1 t2 m ≡ false
      → any (λ e. adds e t1 t2) (implicit_edges d mm ms) ≡ true
  unfolding implicit_edges
  implicit_adds [] m t1 t2 k k1 k2 ne x = cc
  implicit_adds (n ∷ ms) m t1 t2 k k1 k2 ne x =
      rw
        (any-append (λ e. adds e t1 t2)
          (implicit_of d mm n (transactions_for mm n) (transactions_for mm n)))
        (elim (Bool-cases (n == m)) [
          | inl same ↦
              let eq : n ≡ m = ground arith in
              rw eq (
                ground (
                  arith,
                  of_adds m t1 t2 (transactions_for mm m) (transactions_for mm m) k1 k2 ne x,
                ))
          | inr other ↦ ground (arith, implicit_adds ms m t1 t2 (ground arith) k1 k2 ne x)
        ])

  -- Two transactions that call one method are in conflict, unless `calls_nonexclusive` says that
  -- all their calls of it can be made together.
  pub shared_method-Edge :
      (gs : Graphs) (m t1 t2 : ℕ)
      → conflict_graphs d mm ≡ some gs
      → In m (keys mm.transactions_by_method)
      → In t1 (transactions_for mm m)
      → In t2 (transactions_for mm m)
      → t1 ≢ t2
      → calls_nonexclusive d mm t1 t2 m ≡ false
      → Edge gs.cgr t1 t2
  unfolding all_edges
  shared_method-Edge gs m t1 t2 h k k1 k2 ne x =
      let (es, e, known, ks, edges) = graphs_of gs h in
      edges t1 t2
      ∙ (any-append (λ e. adds e t1 t2) (implicit_edges d mm (keys mm.transactions_by_method)) es
          ∙ ground (arith, implicit_adds (keys mm.transactions_by_method) m t1 t2 k k1 k2 ne x))
