-- ===== src/Manager/Elaborate/Ready.antt =====
-- What a running transaction has made sure of, and why a deadlock is reported.
use transactron.Prelude.{
  ℕ, Bool, true, ◌&&◌, ◌||◌, some, List, [], ◌∷◌, ◌++◌, ◌==◌, if◌then◌else◌, contains,
  contains-append, any, all, In, ◌≡◌, ◌≢◌, refl, sym, ap, ◌∙◌, arith, inl, inr, Bool-cases,
  Option-cases,
}
use transactron.Graph.{Graph, keys}
use transactron.Graph.Search.{distinct}
use transactron.Scheduler.System.{run-ready, no_conflicting_runs}
use transactron.Manager.{RelationBase, Design}
use transactron.Manager.MethodMap.{MethodMap, ok, targets, ready_for_transaction, method_map}
use transactron.Manager.MethodMap.Contents.{Describes, method_map-ok}
use transactron.Manager.MethodMap.Fuel.{KnownMethods}
use transactron.Manager.Conflicts.{Graphs, conflict_graphs}
use transactron.Manager.Conflicts.Undirected.{conflict_graph-undirected}
use transactron.Manager.Elaborate.{
  Callbacks, Wires, methods_and_transactions, add_dependent, add_ready, add_all_ready,
  ready_dependencies, deadlock, conflicting_dependency, check_dependencies,
  validate_args_for_method, runnable_terms, Wired,
}

-- The body `e` has a relation to `b` with `ready_dependent`.
abbrev pub has_dependent : Design → ℕ → ℕ → Bool
has_dependent d e b = any (λ r. r.ready_dependent && r.end == b) (d.body e).relations

pub targets-add_dependent :
    (g : Graph) (end body b e : ℕ)
    → contains (targets (add_dependent g end body) b) e
      ≡ (contains (targets g b) e || (end == b && body == e))
targets-add_dependent [] end body b e = ground arith
targets-add_dependent ((k, deps) ∷ g) end body b e =
    ground (arith, targets-add_dependent g end body b e, contains-append deps (body ∷ []) e)

targets-add_ready :
    (body : ℕ) (rs : List RelationBase) (g : Graph) (b e : ℕ)
    → contains (targets (add_ready body rs g) b) e
      ≡ (contains (targets g b) e || (body == e && any (λ r. r.ready_dependent && r.end == b) rs))
targets-add_ready body [] g b e = ground arith
targets-add_ready body (r ∷ rs) g b e = ground (
  arith,
  targets-add_ready body rs (if r.ready_dependent then add_dependent g r.end body else g) b e,
  targets-add_dependent g r.end body b e,
)

targets-add_all_ready :
    (d : Design) (bs : List ℕ) (g : Graph) (b e : ℕ)
    → contains (targets (add_all_ready d bs g) b) e
      ≡ (contains (targets g b) e || (contains bs e && has_dependent d e b))
targets-add_all_ready d [] g b e = ground arith
targets-add_all_ready d (x ∷ bs) g b e =
    targets-add_all_ready d bs (add_ready x (d.body x).relations g) b e
    ∙ rw (targets-add_ready x (d.body x).relations g b e) (elim (Bool-cases (x == e)) [
      | inl same ↦
          let eq : x ≡ e = ground arith in
          let adds : has_dependent d x b ≡ has_dependent d e b = ap (λ y. has_dependent d y b) eq in
          ground (arith, adds)
      | inr other ↦ ground arith
    ])

all-contains : (p : ℕ → Bool) (xs : List ℕ) (x : ℕ) → all p xs ≡ true → In x xs → p x ≡ true
all-contains p [] x h m = cc
all-contains p (y ∷ xs) x h m = ground (arith, all-contains p xs x)

reported_dependency :
    (cgr : Graph) (t u dep : ℕ) (deps : List ℕ)
    → conflicting_dependency cgr t deps ≡ some (deadlock u dep)
    → (t ≡ u) × ((contains deps dep ≡ true) × (contains (targets cgr t) dep ≡ true))
reported_dependency cgr t u dep [] h = cc
reported_dependency cgr t u dep (x ∷ deps) h = elim (Bool-cases (contains (targets cgr t) x)) [
  | inl edge ↦
      let both : some (deadlock t x) ≡ some (deadlock u dep) = rw edge at h in
      let first : t ≡ u = cc in
      let same : x ≡ dep = cc in (first, (ground (arith, same), rw same at edge))
  | inr no_edge ↦
      let (same, (m, e)) = reported_dependency cgr t u dep deps (rw no_edge at h) in
      (same, (ground (arith, m), e))
]

reported :
    (cgr rd : Graph) (t dep : ℕ) (ts : List ℕ)
    → check_dependencies cgr rd ts ≡ some (deadlock t dep)
    → In t ts × ((contains (targets rd t) dep ≡ true) × (contains (targets cgr t) dep ≡ true))
unfolding check_dependencies
reported cgr rd t dep [] h = cc
reported cgr rd t dep (u ∷ ts) h =
    elim (Option-cases (conflicting_dependency cgr u (targets rd u))) [
      | inl e ↦
          let (m, rest) = reported cgr rd t dep ts (rw (e, check_dependencies) at h) in
          (ground (arith, m), rest)
      | inr (err, e) ↦
          let same : err ≡ deadlock t dep = cc (rw (e, check_dependencies) at h) in
          let (first, (m, edge)) =
            reported_dependency cgr u t dep (targets rd u) (e ∙ ap some same) in
          (ground (arith, first), (rw first at m, rw first at edge))
    ]

module _ (cb : Callbacks) (d : Design) (mm : MethodMap) (gs : Graphs) (porder : ℕ → ℕ) (w : Wires)
    (known : KnownMethods d) (once : distinct d.transactions ≡ true) (built : method_map d ≡ ok mm)
    (graphs : conflict_graphs d mm ≡ some gs) (wired : Wired cb d mm gs.cgr porder w) where
  described : Describes d mm
  described = (method_map-ok d mm known once built).1

  started :
      (t : ℕ) → In t d.transactions → w.signals.run t ≡ true → runnable_terms cb d mm w t ≡ true
  unfolding Wired
  started t kt run =
      let (undirected, closed, ks) = conflict_graph-undirected d mm described gs graphs in
      let (runnable, (runs, (args, sched))) = wired in
      let (ready, able) =
        run-ready gs.cgr porder w.signals undirected closed sched t (rw ks kt) run in
      sym (runnable t (rw described.transactions kt)) ∙ able

  all_ready :
      (t b e : ℕ)
      → runnable_terms cb d mm w t ≡ true
      → In b (ready_for_transaction mm t)
      → contains (targets (ready_dependencies d mm) b) e ≡ true
      → w.signals.run e ≡ true
  unfolding runnable_terms
  all_ready t b e able kb ke =
      let deps : all (λ body. all w.signals.run (targets (ready_dependencies d mm) body))
            (ready_for_transaction mm t)
          ≡ true =
        ground arith in
      all-contains w.signals.run (targets (ready_dependencies d mm) b) e
        (all-contains (λ body. all w.signals.run (targets (ready_dependencies d mm) body))
          (ready_for_transaction mm t) b deps kb)
        ke

  all_valid :
      (t : ℕ)
      → runnable_terms cb d mm w t ≡ true
      → all (validate_args_for_method cb mm w t) (targets mm.methods_by_transaction t) ≡ true
  unfolding runnable_terms
  all_valid t able = ground arith

  ready_self : (t : ℕ) → In t (ready_for_transaction mm t)
  unfolding ready_for_transaction
  ready_self t = ground arith

  dependencies_lem :
      (b e : ℕ)
      → contains (targets (ready_dependencies d mm) b) e
        ≡ (contains (d.methods ++ d.transactions) e && has_dependent d e b)
  unfolding ready_dependencies
  dependencies_lem b e =
      targets-add_all_ready d (methods_and_transactions mm) [] b e
      ∙ rw (described.methods, described.transactions) refl

  valid-ready : (t m : ℕ) → validate_args_for_method cb mm w t m ≡ true → w.signals.ready m ≡ true
  valid-ready t m h = ground arith

  -- A transaction that runs has every method ready that it calls, directly or through other methods,
  -- and every body running of which it or one of these methods is ready dependent. The design is
  -- elaborated without an error, under the eager scheduler.
  pub running_ready :
      (t : ℕ)
      → In t d.transactions
      → w.signals.run t ≡ true
      → ((m : ℕ) → In m (targets mm.methods_by_transaction t) → w.signals.ready m ≡ true)
        × ((b e : ℕ)
            → In b (ready_for_transaction mm t)
            → In e (d.methods ++ d.transactions)
            → has_dependent d e b ≡ true
            → w.signals.run e ≡ true)
  running_ready t kt run = (
    λ m km. valid-ready t m (
        all-contains (validate_args_for_method cb mm w t) (targets mm.methods_by_transaction t) m
          (all_valid t (started t kt run)) km),
    λ b e kb ke h. all_ready t b e (started t kt run) kb (dependencies_lem b e ∙ ground arith),
  )

  -- When elaborate reports that a transaction is ready dependent on another one in conflict with it,
  -- the transaction would never run: no cycle of the circuit that the eager scheduler gives has it
  -- running.
  pub deadlock_never_runs :
      (t dep : ℕ)
      → t ≢ dep
      → check_dependencies gs.cgr (ready_dependencies d mm) (keys mm.methods_by_transaction)
        ≡ some (deadlock t dep)
      → ¬ (w.signals.run t ≡ true)
  unfolding Wired
  deadlock_never_runs t dep ne h run =
      let (undirected, closed, ks) = conflict_graph-undirected d mm described gs graphs in
      let (runnable, (runs, (args, sched))) = wired in
      let (m, (depends, edge)) =
        reported gs.cgr (ready_dependencies d mm) t dep (keys mm.methods_by_transaction) h in
      let kt : In t d.transactions = rw described.transactions at m in
      no_conflicting_runs gs.cgr porder w.signals undirected closed sched t dep (rw ks kt) ne edge
        (run, all_ready t t dep (started t kt run) (ready_self t) depends)
