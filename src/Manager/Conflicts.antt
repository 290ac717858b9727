-- ===== src/Manager/Conflicts.antt =====
-- `TransactionManager._conflict_graph` of transactron/core/manager.py, with `_relations` and
-- `_transactions_exclusive`. `networkx.lexicographical_topological_sort` is a parameter.
pub mod Edges
pub mod Undirected
pub mod Exclusion
use transactron.Prelude.{
  ℕ, suc, ◌+◌, Bool, true, false, not, ◌&&◌, ◌||◌, Option, none, some, List, [], ◌∷◌, ◌++◌, ◌==◌,
  ltb, if◌then◌else◌, contains, length, any, all,
}
use transactron.Ctrl.{exclusive_with, call_paths_exclusive}
use transactron.Graph.{Graph, neighbours, keys}
use transactron.Manager.{Priority, RelationBase, Body, Design}
use transactron.Manager.MethodMap.{
  CallInfo, MethodMap, targets, append_at, transactions_for, ready_for_transaction, calls_by,
}

-- `longest_common_prefix` of the ancestors of two calls, by its last element.
abbrev pub last_common : List ℕ → List ℕ → Option ℕ
last_common [] bs = none
last_common (a ∷ as') [] = none
last_common (a ∷ as') (b ∷ bs) =
    let rest = last_common as' bs in
    if a == b then (elim rest [ none ↦ some a | some m ↦ some m ]) else none

-- The condition on a pair of calls, with the filter on an empty prefix.
abbrev pub pair_nonexclusive : Design → CallInfo → CallInfo → Bool
pair_nonexclusive d i j = elim (last_common i.ancestors j.ancestors) [
  | none ↦ true
  | some m ↦ (d.body m).nonexclusive || call_paths_exclusive i.call_path j.call_path
]

unfoldable pub calls_nonexclusive : Design → MethodMap → ℕ → ℕ → ℕ → Bool
calls_nonexclusive d mm t1 t2 m =
    all (λ i. all (λ j. pair_nonexclusive d i j) (calls_by mm.info_by_call t2 m))
      (calls_by mm.info_by_call t1 m)

-- The arguments of one call of `add_edge`.
pub record EdgeArgs : Type 0 where
  pub begin : ℕ
  pub end : ℕ
  pub priority : Priority
  pub conflict : Bool

pub record Graphs : Type 0 where
  pub cgr : Graph
  pub pgr : Graph

-- `g[k].add(v)`
abbrev pub add_to : Graph → ℕ → ℕ → Graph
add_to g k v = if contains (targets g k) v then g else append_at g k v

abbrev pub add_conflict_edge : Bool → Graph → ℕ → ℕ → Graph
add_conflict_edge true cgr u v = add_to (add_to cgr u v) v u
add_conflict_edge false cgr u v = cgr

abbrev pub add_priority_edge : Priority → Graph → ℕ → ℕ → Graph
add_priority_edge Priority.left pgr u v = add_to pgr v u
add_priority_edge Priority.right pgr u v = add_to pgr u v
add_priority_edge Priority.undefined pgr u v = pgr

unfoldable pub add_edge : EdgeArgs → Graphs → Graphs
add_edge e gs = record {
  cgr = add_conflict_edge e.conflict gs.cgr e.begin e.end;
  pgr = add_priority_edge e.priority gs.pgr e.begin e.end;
}

abbrev pub add_edges : List EdgeArgs → Graphs → Graphs
add_edges [] gs = gs
add_edges (e ∷ es) gs = add_edges es (add_edge e gs)

-- The calls of `add_edge` in the loops over methods: for a method and a first transaction, ...
abbrev pub implicit_with : Design → MethodMap → ℕ → ℕ → List ℕ → List EdgeArgs
implicit_with d mm m t1 [] = []
implicit_with d mm m t1 (t2 ∷ ts) =
    let rest = implicit_with d mm m t1 ts in
    if not (t1 == t2) && not (calls_nonexclusive d mm t1 t2 m)
    then record { begin = t1; end = t2; priority = Priority.undefined; conflict = true } ∷ rest
    else rest

abbrev pub implicit_of : Design → MethodMap → ℕ → List ℕ → List ℕ → List EdgeArgs
implicit_of d mm m [] all_ts = []
implicit_of d mm m (t1 ∷ ts) all_ts = implicit_with d mm m t1 all_ts ++ implicit_of d mm m ts all_ts

unfoldable pub implicit_edges : Design → MethodMap → List ℕ → List EdgeArgs
unfolding calls_nonexclusive
implicit_edges d mm [] = []
implicit_edges d mm (m ∷ ms) =
    implicit_of d mm m (transactions_for mm m) (transactions_for mm m) ++ implicit_edges d mm ms

-- `Relation(start=elem, ...)`
abbrev pub Relation : Type 0
Relation = ℕ × RelationBase

abbrev pub relations_of : ℕ → List RelationBase → List ℕ → List Relation
relations_of start [] known = []
relations_of start (r ∷ rs) known =
    let rest = relations_of start rs known in
    if contains known r.end then (start, r) ∷ rest else rest

unfoldable pub relations : Design → List ℕ → List ℕ → List Relation
relations d [] known = []
relations d (elem ∷ elems) known =
    relations_of elem (d.body elem).relations known ++ relations d elems known

-- `_transactions_exclusive`: over the product of all that must be ready for the two.
unfoldable pub transactions_exclusive : Design → MethodMap → ℕ → ℕ → Bool
transactions_exclusive d mm t1 t2 =
    any
      (λ tm1.
        any (λ tm2. exclusive_with (d.body tm1).ctrl_path (d.body tm2).ctrl_path)
          (ready_for_transaction mm t2))
      (ready_for_transaction mm t1)

abbrev pub explicit_with : Design → MethodMap → RelationBase → ℕ → List ℕ → List EdgeArgs
explicit_with d mm r t1 [] = []
explicit_with d mm r t1 (t2 ∷ ts) =
    record {
      begin = t1;
      end = t2;
      priority = r.priority;
      conflict = r.conflict && not (transactions_exclusive d mm t1 t2);
    }
    ∷ explicit_with d mm r t1 ts

abbrev pub explicit_of : Design → MethodMap → RelationBase → List ℕ → List ℕ → List EdgeArgs
explicit_of d mm r [] ends = []
explicit_of d mm r (t1 ∷ ts) ends = explicit_with d mm r t1 ends ++ explicit_of d mm r ts ends

-- A relation of `schedule_before` whose end was defined before its start.
abbrev pub scheduled_late : Design → Relation → Bool
scheduled_late d (start, r) =
    not r.conflict
    && (ltb (d.body r.end).def_order (d.body start).def_order && not r.silence_warning)

-- The loop over the relations; `none` is its RuntimeError.
unfoldable pub explicit_edges : Design → MethodMap → List Relation → Option (List EdgeArgs)
unfolding transactions_exclusive
explicit_edges d mm [] = some []
explicit_edges d mm ((start, r) ∷ rs) = elim (scheduled_late d (start, r)) [
  | true ↦ none
  | false ↦ elim (explicit_edges d mm rs) [
    | none ↦ none
    | some es ↦
        some (explicit_of d mm r (transactions_for mm start) (transactions_for mm r.end) ++ es)
  ]
]

abbrev pub empty_graph : List ℕ → Graph
empty_graph [] = []
empty_graph (t ∷ ts) = (t, []) ∷ empty_graph ts

-- The two graphs, at the end of the loops.
unfoldable pub conflict_graphs : Design → MethodMap → Option Graphs
unfolding implicit_edges relations explicit_edges add_edge
conflict_graphs d mm =
    let elems = keys mm.transactions_by_method ++ keys mm.methods_by_transaction in
    let start = empty_graph (keys mm.methods_by_transaction) in
    elim (explicit_edges d mm (relations d elems elems)) [
      | none ↦ none
      | some es ↦ some (
          add_edges (implicit_edges d mm (keys mm.transactions_by_method) ++ es)
            (record { cgr = start; pgr = start }))
    ]

-- `porder`: the positions in the sorted list.
unfoldable pub porder_of : List ℕ → ℕ → ℕ
porder_of [] t = 0
porder_of (x ∷ xs) t = let rest = porder_of xs t in if x == t then 0 else rest + 1

-- `lexicographical_topological_sort(DiGraph(pgr).reverse(), key)` is `sort pgr key`; `none` is its
-- exception on a cycle.
unfoldable pub conflict_graph :
    (Graph → (ℕ → ℕ) → Option (List ℕ)) → Design → MethodMap → Option (Graph × (ℕ → ℕ))
unfolding conflict_graphs porder_of
conflict_graph sort d mm = elim (conflict_graphs d mm) [
  | none ↦ none
  | some gs ↦ elim (sort gs.pgr (λ t. length (targets gs.cgr t))) [
    | none ↦ none
    | some psorted ↦ some (gs.cgr, porder_of psorted)
  ]
]
