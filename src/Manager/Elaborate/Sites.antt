-- ===== src/Manager/Elaborate/Sites.antt =====
-- Where the active calls of a method stand in the call trees of the transactions that run.
use transactron.Prelude.{
  ℕ, ◌≤◌, Bool, true, false, none, List, [], ◌∷◌, ◌++◌, append-nil, ◌==◌, leb, leb→le, contains,
  contains-append, In, ◌≡◌, ◌≢◌, refl, sym, subst, ◌∙◌, ◌⊎◌, inl, inr, arith, Bool-cases,
}
use transactron.Ctrl.Exclusive.{Choice}
use transactron.Graph.Search.{distinct}
use transactron.Reduce.Ones.{ones, ones-append}
use transactron.Manager.{Call, Design}
use transactron.Manager.MethodMap.{
  CallInfo, MethodMap, ok, Visit, calls_of, info_at, root_info, fuel_of, sights_of,
  validate_root_call_tree, method_map,
}
use transactron.Manager.MethodMap.Visits.{visits, visits_in}
use transactron.Manager.MethodMap.Double.{runs_all, taken, called_once}
use transactron.Manager.MethodMap.Fuel.{KnownMethods}
use transactron.Manager.MethodMap.Contents.{Describes, infos_of, validate_all-ok, method_map-ok}
use transactron.Manager.Conflicts.{last_common}
use transactron.Manager.Conflicts.Exclusion.{IsCall}
use transactron.Manager.Elaborate.{Wires, runs_in, method_runs, CallsEnabled}
use transactron.Manager.Elaborate.Nested.{
  Nested, visits-Nested, traverse-unfolded, visits-ancestors, IsCall-after, IsCall-before,
}
use transactron.Manager.Elaborate.Started.{RunWires, caller_of, runs_at, runs_all-append}
use transactron.Manager.Elaborate.Taken.{Active-call, Nested-ones}

module _ (d : Design) (mm : MethodMap) (w : Wires) (ch : ℕ → Choice) (known : KnownMethods d)
    (once : distinct d.transactions ≡ true) (built : method_map d ≡ ok mm) (wires : RunWires mm w)
    (calls : CallsEnabled ch d w) where
  pub described : Describes d mm
  described = (method_map-ok d mm known once built).1

  abbrev pub tree : ℕ → List Visit
  tree t = visits (fuel_of d) d t root_info

  valid_tree :
      (t : ℕ) → In t d.transactions → (out : List Visit) × (validate_root_call_tree d t ≡ ok out)
  valid_tree t kt =
      validate_all-ok d known (d.methods ++ d.transactions) (method_map-ok d mm known once built).0
        t (ground (arith, contains-append d.methods d.transactions t))

  -- Where a running source stands in the tree of a transaction that runs.
  abbrev pub Heads : ℕ → ℕ → List ℕ → Type 0
  Heads s t a = ((s ≡ t) × (a ≡ [])) ⊎ ((rest : List ℕ) × (a ≡ s ∷ rest))

  abbrev Origin : ℕ → Type 0
  Origin s =
      (t : ℕ) × (i : CallInfo) × (In t d.transactions)
      × (w.signals.run t ≡ true)
      × (Nested d (tree t) s i)
      × (runs_all ch i.call_path ≡ true)
      × Heads s t i.ancestors

  origin : (s : ℕ) → In s (d.methods ++ d.transactions) → w.signals.run s ≡ true → Origin s
  unfolding validate_root_call_tree
  origin s ks run = elim (Bool-cases (contains d.methods s)) [
    | inl km ↦
        let (t, i, kt, run_t, k, on) = caller_of d mm w ch known described wires calls s km run in
        let (out, valid) = valid_tree t kt in
        let path = (runs_at d mm w ch known described wires calls t kt run_t s i k on).1 in
        (
          t,
          i,
          kt,
          run_t,
          visits-Nested d (fuel_of d) t root_info [] out valid s i k,
          path,
          inr (visits-ancestors d (fuel_of d) t root_info s i k),
        )
    | inr no_method ↦
        let kt : In s d.transactions = ground (arith, contains-append d.methods d.transactions s) in
        let (out, valid) = valid_tree s kt in
        let (k, e) = traverse-unfolded d (fuel_of d) s root_info [] out valid in
        (
          s,
          root_info,
          kt,
          run,
          ([], visits k d, [], e ∙ sym (append-nil _)),
          refl,
          inl (refl, refl),
        )
  ]

  -- An active call of a method, in the tree of a transaction that runs.
  abbrev pub Site : ℕ → ℕ → Type 0
  Site s m =
      (t : ℕ) × (i : CallInfo) × (a : List ℕ) × (In t d.transactions)
      × (w.signals.run t ≡ true)
      × IsCall i (infos_of (tree t) m)
      × (runs_all ch i.call_path ≡ true)
      × (i.ancestors ≡ m ∷ a)
      × Heads s t a

  abbrev pub runs_of : ℕ → ℕ → List Bool
  runs_of s m = runs_in w m s (calls_of (d.body s).method_calls)

  idle-ones :
      (s m : ℕ) (cs : List (ℕ × Call)) → w.signals.run s ≡ false → ones (runs_in w m s cs) ≡ 0
  idle-ones s m [] h = refl
  idle-ones s m ((n, c) ∷ cs) h = elim (Bool-cases (n == m)) [
    | inl same ↦ rw (same, h, runs_in) (omega (arith, idle-ones s m cs h))
    | inr other ↦ rw (other, runs_in) (idle-ones s m cs h)
  ]

  running : (s m : ℕ) → 1 ≤ ones (runs_of s m) → w.signals.run s ≡ true
  running s m h = elim (Bool-cases (w.signals.run s)) [
    | inl run ↦ run
    | inr idle ↦ absurd (omega (arith, h, idle-ones s m (calls_of (d.body s).method_calls) idle))
  ]

  pub site : (s m : ℕ) → In s (d.methods ++ d.transactions) → 1 ≤ ones (runs_of s m) → Site s m
  site s m ks h =
      let run = running s m h in
      let cs : List (ℕ × Call) = calls_of (d.body s).method_calls in
      let (c, run', alternative, in_tree) = Active-call ch w m s cs (calls s run) h in
      let (t, i, kt, run_t, (pre, below, post, e), path, heads) = origin s ks run in
      (
        t,
        info_at i m c,
        i.ancestors,
        kt,
        run_t,
        subst (λ vs. IsCall (info_at i m c) (infos_of vs m)) (sym e)
            (IsCall-after pre (visits_in below i cs ++ post) m
              (IsCall-before (visits_in below i cs) post m (in_tree below i))),
        runs_all-append ch i.call_path c.ctrl_path ∙ rw (path, alternative) refl,
        refl,
        heads,
      )

  pub once-In-tree :
      (t m : ℕ)
      → In t d.transactions
      → (d.body m).nonexclusive ≡ false
      → taken ch (sights_of (tree t) m) ≤ 1
  once-In-tree t m kt x = let (out, valid) = valid_tree t kt in called_once d t out ch m valid x

  -- Sources that differ stand differently in their trees.
  pub Heads-differ :
      (s1 s2 t1 t2 : ℕ) (a1 a2 : List ℕ)
      → s1 ≢ s2
      → Heads s1 t1 a1
      → Heads s2 t2 a2
      → (last_common a1 a2 ≡ none) × (t1 ≡ t2 → a1 ≢ a2)
  Heads-differ s1 s2 t1 t2 a1 a2 ne (inl (e1, n1)) (inl (e2, n2)) =
      (rw n1 refl, λ same e. ne (e1 ∙ same ∙ sym e2))
  Heads-differ s1 s2 t1 t2 a1 a2 ne (inl (e1, n1)) (inr (r2, n2)) = (rw n1 refl, λ same e. cc)
  Heads-differ s1 s2 t1 t2 a1 a2 ne (inr (r1, n1)) (inl (e2, n2)) = (rw (n1, n2) refl, λ same e. cc)
  Heads-differ s1 s2 t1 t2 a1 a2 ne (inr (r1, n1)) (inr (r2, n2)) =
      let other : (s1 == s2) ≡ false = ground arith in
      (
        rw (n1, n2, other) refl,
        λ same e.
            let heads : s1 ∷ r1 ≡ s2 ∷ r2 = sym n1 ∙ e ∙ n2 in
            let same_source : s1 ≡ s2 = cc in ne same_source,
      )

  pub source_once :
      (s m : ℕ)
      → In s (d.methods ++ d.transactions)
      → (d.body m).nonexclusive ≡ false
      → ones (runs_of s m) ≤ 1
  source_once s m ks x = elim (Bool-cases (w.signals.run s)) [
    | inr idle ↦ omega (arith, idle-ones s m (calls_of (d.body s).method_calls) idle)
    | inl run ↦
        let (t, i, kt, run_t, nested, path, heads) = origin s ks run in
        omega (
          arith,
          Nested-ones ch w m s d (tree t) i (calls s run) nested path,
          once-In-tree t m kt x,
        )
  ]

  pub some_source :
      (ss : List ℕ) (m : ℕ)
      → 1 ≤ ones (method_runs d w ss m)
      → (s : ℕ) × (In s ss) × (1 ≤ ones (runs_of s m))
  some_source [] m h = absurd (omega arith)
  some_source (s ∷ ss) m h = elim (Bool-cases (leb 1 (ones (runs_of s m)))) [
    | inl here ↦ (s, ground arith, leb→le 1 (ones (runs_of s m)) here)
    | inr other ↦
        let later : 1 ≤ ones (method_runs d w ss m) =
          ground (arith, ones-append (runs_of s m) (method_runs d w ss m)) in
        let (s', ks, some_run) = some_source ss m later in (s', ground (arith, ks), some_run)
  ]
