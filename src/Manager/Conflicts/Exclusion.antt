-- ===== src/Manager/Conflicts/Exclusion.antt =====
-- What scheduling by the conflict graph promises of the calls of a method.
use transactron.Prelude.{
  ℕ, Bool, true, false, some, List, [], ◌∷◌, ◌==◌, In, all, arith, ◌≡◌, ◌≢◌, inl, inr, Bool-cases,
}
use transactron.Ctrl.{call_paths_exclusive}
use transactron.Ctrl.Exclusive.{Choice}
use transactron.Ctrl.Calls.{RunsAll, call_paths_exclusive_sound}
use transactron.Graph.{keys}
use transactron.Graph.Search.{distinct}
use transactron.Scheduler.{Signals}
use transactron.Scheduler.System.{Scheduled, no_conflicting_runs}
use transactron.Manager.{Design}
use transactron.Manager.MethodMap.{
  CallInfo, MethodMap, Visit, ok, transactions_for, calls_by, method_map,
}
use transactron.Manager.MethodMap.Contents.{Describes, infos_of, method_map-ok}
use transactron.Manager.MethodMap.Build.{visited}
use transactron.Manager.MethodMap.Fuel.{KnownMethods}
use transactron.Manager.Conflicts.{
  Graphs, last_common, pair_nonexclusive, calls_nonexclusive, conflict_graphs,
}
use transactron.Manager.Conflicts.Undirected.{conflict_graph-undirected, shared_method-Edge}

-- The call is one of the list.
pub data IsCall (i : CallInfo) : List CallInfo → Type 0 where
  first : {is : List CallInfo} → IsCall i (i ∷ is)
  later : {j : CallInfo} {is : List CallInfo} → IsCall i is → IsCall i (j ∷ is)

all-IsCall :
    (p : CallInfo → Bool) {i : CallInfo} {is : List CallInfo}
    → IsCall i is
    → all p is ≡ true
    → p i ≡ true
all-IsCall p first h = ground arith
all-IsCall p (later k) h = all-IsCall p k (ground arith)

pub IsCall-visited :
    (vs : List Visit) (m : ℕ) {i : CallInfo} → IsCall i (infos_of vs m) → visited vs m ≡ true
IsCall-visited [] m k = elim k [ ]
IsCall-visited ((n, j) ∷ vs) m k = elim (Bool-cases (n == m)) [
  | inl same ↦ ground (arith, same)
  | inr other ↦ ground (arith, other, IsCall-visited vs m (rw other at k))
]

module _ (d : Design) (mm : MethodMap) (desc : Describes d mm) where
  calls_exclusive :
      (t1 t2 m n : ℕ) (i j : CallInfo)
      → calls_nonexclusive d mm t1 t2 m ≡ true
      → IsCall i (calls_by mm.info_by_call t1 m)
      → IsCall j (calls_by mm.info_by_call t2 m)
      → last_common i.ancestors j.ancestors ≡ some n
      → (d.body n).nonexclusive ≡ false
      → call_paths_exclusive i.call_path j.call_path ≡ true
  unfolding calls_nonexclusive
  calls_exclusive t1 t2 m n i j h ki kj common x =
      let hi =
        all-IsCall (λ i. all (λ j. pair_nonexclusive d i j) (calls_by mm.info_by_call t2 m)) ki h in
      let hij = all-IsCall (λ j. pair_nonexclusive d i j) kj hi in
      ground (arith, rw (common, pair_nonexclusive) at hij)

  caller_of_call :
      (t m : ℕ) (i : CallInfo)
      → In t d.transactions
      → In m d.methods
      → IsCall i (calls_by mm.info_by_call t m)
      → In t (transactions_for mm m)
  unfolding transactions_for
  caller_of_call t m i kt km k =
      let is_key : In m (keys mm.transactions_by_method) = rw desc.methods km in
      rw is_key (
        ground (
          arith,
          desc.inverse t m,
          desc.calls t m,
          IsCall-visited _ m (rw (desc.infos t m kt) at k),
        ))

-- In a design whose method map and conflict graph are built without an error, take two calls that
-- two different transactions make to one method, directly or through other methods, and let `n` be
-- the first method on the way to the called one that both calls go through. If `n` is not
-- nonexclusive, the two transactions do not run in one cycle with both calls taken, whatever
-- alternatives the control structures take: the eager scheduler starts at most one of them, or the
-- calls stand in different alternatives of one control structure.
pub shared_method_exclusive :
    (d : Design) (mm : MethodMap) (gs : Graphs) (porder : ℕ → ℕ) (s : Signals) (c : ℕ → Choice)
    → KnownMethods d
    → distinct d.transactions ≡ true
    → method_map d ≡ ok mm
    → conflict_graphs d mm ≡ some gs
    → Scheduled gs.cgr porder s
    → (t1 t2 m n : ℕ) (i j : CallInfo) → In t1 d.transactions
    → In t2 d.transactions
    → In m d.methods
    → t1 ≢ t2
    → IsCall i (calls_by mm.info_by_call t1 m)
    → IsCall j (calls_by mm.info_by_call t2 m)
    → last_common i.ancestors j.ancestors ≡ some n
    → (d.body n).nonexclusive ≡ false
    → ¬ (((s.run t1 ≡ true) × RunsAll c i.call_path) × ((s.run t2 ≡ true) × RunsAll c j.call_path))
shared_method_exclusive d mm gs porder s c known once built graphs sched t1 t2 m n i j k1 k2 km ne
      ki kj common x (run1, run2) =
    let desc = (method_map-ok d mm known once built).1 in
    let (undirected, closed, ks) = conflict_graph-undirected d mm desc gs graphs in
    elim (Bool-cases (calls_nonexclusive d mm t1 t2 m)) [
      | inl together ↦
          call_paths_exclusive_sound i.call_path j.call_path
            (calls_exclusive d mm desc t1 t2 m n i j together ki kj common x) c (run1.1, run2.1)
      | inr apart ↦
          no_conflicting_runs gs.cgr porder s undirected closed sched t1 t2 (rw ks k1) ne
            (shared_method-Edge d mm desc gs m t1 t2 graphs (rw desc.methods km)
              (caller_of_call d mm desc t1 m i k1 km ki) (caller_of_call d mm desc t2 m j k2 km kj)
              ne apart)
            (run1.0, run2.0)
    ]
