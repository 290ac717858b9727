-- ===== src/Manager/Elaborate/Once.antt =====
-- An exclusive method is called at most once in a cycle.
use transactron.Prelude.{
  ℕ, zero, suc, ◌+◌, ◌≤◌, true, false, some, List, [], ◌∷◌, ◌++◌, ◌==◌, ==_refl, contains, In, ◌≡◌,
  ◌≢◌, refl, sym, ap, subst, inl, inr, arith, Bool-cases,
}
use transactron.Ctrl.Exclusive.{Choice}
use transactron.Graph.Search.{distinct}
use transactron.Scheduler.System.{Scheduled}
use transactron.Reduce.Ones.{ones, ones-append}
use transactron.Manager.{Design}
use transactron.Manager.MethodMap.{CallInfo, MethodMap, ok, sights_of, method_map}
use transactron.Manager.MethodMap.Double.{runs_all-RunsAll, taken}
use transactron.Manager.MethodMap.Fuel.{KnownMethods}
use transactron.Manager.MethodMap.Contents.{infos_of}
use transactron.Manager.Conflicts.{Graphs, conflict_graphs, last_common}
use transactron.Manager.Conflicts.Exclusion.{IsCall, shared_method_exclusive}
use transactron.Manager.Elaborate.{
  Callbacks, Wires, methods_and_transactions, method_runs, Wired, CallsEnabled,
}
use transactron.Manager.Elaborate.Started.{RunWires}
use transactron.Manager.Elaborate.Taken.{both_taken}
use transactron.Manager.Elaborate.Sites.{
  tree, Site, runs_of, described, site, once-In-tree, Heads-differ, source_once, some_source,
}

at_most_one : (a b : ℕ) → a ≤ 1 → b ≤ 1 → (1 ≤ a → ¬ (1 ≤ b)) → a + b ≤ 1
at_most_one zero b h h' apart = omega arith
at_most_one (suc a) zero h h' apart = omega arith
at_most_one (suc a) (suc b) h h' apart = absurd (apart (omega arith) (omega arith))

module _ (cb : Callbacks) (d : Design) (mm : MethodMap) (gs : Graphs) (porder : ℕ → ℕ) (w : Wires)
    (ch : ℕ → Choice) (known : KnownMethods d) (once : distinct d.transactions ≡ true)
    (built : method_map d ≡ ok mm) (graphs : conflict_graphs d mm ≡ some gs)
    (wired : Wired cb d mm gs.cgr porder w) (calls : CallsEnabled ch d w) where
  run_wires : RunWires mm w
  unfolding Wired
  run_wires = wired.1.0

  scheduled : Scheduled gs.cgr porder w.signals
  unfolding Wired
  scheduled = wired.1.1.1

  sources_apart :
      (s1 s2 m : ℕ)
      → In m d.methods
      → (d.body m).nonexclusive ≡ false
      → s1 ≢ s2
      → Site d mm w ch known once built run_wires calls s1 m
      → ¬ Site d mm w ch known once built run_wires calls s2 m
  sources_apart s1 s2 m km x ne (t1, i1, a1, k1, run1, in1, path1, top1, heads1)
        (t2, i2, a2, k2, run2, in2, path2, top2, heads2) =
      let (apart, differ) =
        Heads-differ d mm w ch known once built run_wires calls s1 s2 t1 t2 a1 a2 ne heads1
          heads2 in
      elim (Bool-cases (t1 == t2)) [
        | inl same ↦
            let eq : t1 ≡ t2 = ground arith in
            let differ' : i1 ≢ i2 = λ e. differ eq (
              let tops : i1.ancestors ≡ i2.ancestors = ap (λ (i : CallInfo). i.ancestors) e in
              cc) in
            let two : 2
                ≤ taken ch (sights_of (tree d mm w ch known once built run_wires calls t1) m) =
              both_taken ch (tree d mm w ch known once built run_wires calls t1) m i1 i2 in1
                (subst
                  (λ t. IsCall i2 (infos_of (tree d mm w ch known once built run_wires calls t) m))
                  (sym eq) in2)
                differ' path1 path2 in
            absurd (
              omega (arith, two, once-In-tree d mm w ch known once built run_wires calls t1 m k1 x))
        | inr other ↦
            let common : last_common i1.ancestors i2.ancestors ≡ some m =
              rw (top1, top2, ==_refl m, apart, last_common) refl in
            shared_method_exclusive d mm gs porder w.signals ch known once built graphs scheduled t1
              t2 m m i1 i2 k1 k2 km (ground arith)
              (subst (IsCall i1)
                (sym ((described d mm w ch known once built run_wires calls).infos t1 m k1)) in1)
              (subst (IsCall i2)
                (sym ((described d mm w ch known once built run_wires calls).infos t2 m k2)) in2)
              common x
              (
                (run1, runs_all-RunsAll ch i1.call_path path1),
                (run2, runs_all-RunsAll ch i2.call_path path2),
              )
      ]

  sources_once :
      (ss : List ℕ) (m : ℕ)
      → distinct ss ≡ true
      → ((s : ℕ) → In s ss → In s (d.methods ++ d.transactions))
      → In m d.methods
      → (d.body m).nonexclusive ≡ false
      → ones (method_runs d w ss m) ≤ 1
  sources_once [] m ds inside km x = omega arith
  sources_once (s ∷ ss) m ds inside km x =
      rw
        (ones-append (runs_of d mm w ch known once built run_wires calls s m)
          (method_runs d w ss m))
        (at_most_one (ones (runs_of d mm w ch known once built run_wires calls s m))
          (ones (method_runs d w ss m))
          (source_once d mm w ch known once built run_wires calls s m (inside s (ground arith)) x)
          (sources_once ss m (ground arith) (λ s' ks. inside s' (ground (arith, ks))) km x)
          (λ here later.
            let (s', ks, some_run) =
              some_source d mm w ch known once built run_wires calls ss m later in
            let fresh : contains ss s ≡ false = ground arith in
            let differ : s ≢ s' = λ e. let both : In s ss = rw e ks in cc in
            sources_apart s s' m km x differ
              (site d mm w ch known once built run_wires calls s m (inside s (ground arith)) here)
              (site d mm w ch known once built run_wires calls s' m (inside s' (ground (arith, ks)))
                some_run)))

  -- In a cycle of an elaborated design under the eager scheduler, in which a call is enabled only where
  -- the control structures around it take its alternatives, at most one call of a method that is not
  -- nonexclusive is active, of all the calls that transactions and methods make to it.
  pub exclusive_called_once :
      (m : ℕ)
      → distinct (d.methods ++ d.transactions) ≡ true
      → In m d.methods
      → (d.body m).nonexclusive ≡ false
      → ones (method_runs d w (methods_and_transactions mm) m) ≤ 1
  exclusive_called_once m ds km x =
      rw
        (
          (described d mm w ch known once built run_wires calls).methods,
          (described d mm w ch known once built run_wires calls).transactions,
        )
        (sources_once (d.methods ++ d.transactions) m ds (λ s ks. ks) km x)
