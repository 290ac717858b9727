-- ===== src/Manager/Elaborate/Started.antt =====
-- Which bodies run in a cycle: the transactions that the scheduler starts, and what they call.
use transactron.Prelude.{
  ℕ, zero, suc, Bool, true, ◌&&◌, List, [], ◌∷◌, ◌++◌, ◌==◌, ==_refl, any, all, In, ◌≡◌, refl, sym,
  subst, ◌∙◌, inl, inr, arith, Bool-cases,
}
use transactron.Ctrl.{CtrlPath}
use transactron.Ctrl.Exclusive.{Choice}
use transactron.Ctrl.Builder.Executed.{runs}
use transactron.Graph.{keys}
use transactron.Manager.{Call, Design}
use transactron.Manager.MethodMap.{
  CallInfo, MethodMap, Visit, targets, calls_of, calls_by, info_at, root_info, fuel_of,
}
use transactron.Manager.MethodMap.Visits.{visits, visits_in}
use transactron.Manager.MethodMap.Double.{runs_all}
use transactron.Manager.MethodMap.Fuel.{KnownMethods}
use transactron.Manager.MethodMap.Contents.{Describes, infos_of, visits_known}
use transactron.Manager.Conflicts.Exclusion.{IsCall, IsCall-visited}
use transactron.Manager.Elaborate.{Wires, method_granted, enabled, Follows, CallsEnabled}
use transactron.Manager.Elaborate.Nested.{
  infos_of-append, IsCall-append, IsCall-cons, IsCall-after, IsCall-before,
}

any-In : (p : ℕ → Bool) (xs : List ℕ) → any p xs ≡ true → (x : ℕ) × (In x xs) × (p x ≡ true)
any-In p [] h = cc
any-In p (x ∷ xs) h = elim (Bool-cases (p x)) [
  | inl here ↦ (x, ground arith, here)
  | inr other ↦ let (y, m, e) = any-In p xs (ground arith) in (y, ground (arith, m), e)
]

In-any : (p : ℕ → Bool) (xs : List ℕ) (x : ℕ) → In x xs → p x ≡ true → any p xs ≡ true
In-any p [] x m h = cc
In-any p (y ∷ xs) x m h = elim (Bool-cases (y == x)) [
  | inl same ↦ let eq : y ≡ x = ground arith in rw eq (rw h refl)
  | inr other ↦ ground (arith, In-any p xs x (ground arith) h)
]

any-IsCall :
    (p : CallInfo → Bool) (is : List CallInfo)
    → any p is ≡ true
    → (i : CallInfo) × IsCall i is × (p i ≡ true)
any-IsCall p [] h = cc
any-IsCall p (j ∷ is) h = elim (Bool-cases (p j)) [
  | inl here ↦ (j, IsCall.first, here)
  | inr other ↦ let (i, k, e) = any-IsCall p is (ground arith) in (i, IsCall.later k, e)
]

IsCall-any :
    (p : CallInfo → Bool) {i : CallInfo} (is : List CallInfo)
    → IsCall i is
    → p i ≡ true
    → any p is ≡ true
IsCall-any p [] k h = elim k [ ]
IsCall-any p (j ∷ is) IsCall.first h = ground arith
IsCall-any p (j ∷ is) (IsCall.later k) h = ground (arith, IsCall-any p is k h)

pub all-append {ℓ} :
    {A : Type ℓ} (p : A → Bool) (xs : List A) (x : A) → all p (xs ++ x ∷ []) ≡ (all p xs && p x)
all-append p [] x = ground arith
all-append p (y ∷ xs) x = ground (arith, all-append p xs x)

pub runs_all-append :
    (ch : ℕ → Choice) (path : List CtrlPath) (c : CtrlPath)
    → runs_all ch (path ++ c ∷ []) ≡ (runs_all ch path && runs (ch c.module_uid) c.path)
runs_all-append ch [] c = ground arith
runs_all-append ch (x ∷ path) c = ground (arith, runs_all-append ch path c)

-- The methods run as `elaborate` wires them.
abbrev pub RunWires : MethodMap → Wires → Type 0
RunWires mm w =
    (m : ℕ) → In m (keys mm.transactions_by_method) → w.signals.run m ≡ method_granted mm w m

module _ (d : Design) (mm : MethodMap) (w : Wires) (ch : ℕ → Choice) (known : KnownMethods d)
    (desc : Describes d mm) (wires : RunWires mm w) (calls : CallsEnabled ch d w) where
  abbrev pub tree : ℕ → List Visit
  tree t = visits (fuel_of d) d t root_info

  pub IsCall-known : (t m : ℕ) (i : CallInfo) → IsCall i (infos_of (tree t) m) → In m d.methods
  IsCall-known t m i k =
      visits_known d known (fuel_of d) t root_info m (IsCall-visited (tree t) m k)

  -- A call that is enabled in a transaction that runs makes its method run.
  run_called :
      (t m : ℕ) (i : CallInfo)
      → In t d.transactions
      → w.signals.run t ≡ true
      → IsCall i (infos_of (tree t) m)
      → enabled w i ≡ true
      → w.signals.run m ≡ true
  unfolding method_granted
  run_called t m i kt run k on =
      let caller : In t (targets mm.transactions_by_method m) =
        ground (arith, desc.inverse t m, desc.calls t m, IsCall-visited (tree t) m k) in
      let some_call : any (enabled w) (calls_by mm.info_by_call t m) ≡ true =
        IsCall-any (enabled w) (calls_by mm.info_by_call t m)
          (subst (IsCall i) (sym (desc.infos t m kt)) k) on in
      wires m (rw desc.methods (IsCall-known t m i k))
      ∙ In-any (λ t. w.signals.run t && any (enabled w) (calls_by mm.info_by_call t m))
          (targets mm.transactions_by_method m) t caller (ground arith)

  -- A method that runs is called by a transaction that runs, through enabled calls.
  pub caller_of :
      (m : ℕ)
      → In m d.methods
      → w.signals.run m ≡ true
      → (t : ℕ) × (i : CallInfo) × (In t d.transactions)
        × (w.signals.run t ≡ true)
        × IsCall i (infos_of (tree t) m)
        × (enabled w i ≡ true)
  unfolding method_granted
  caller_of m km run =
      let is_granted : method_granted mm w m ≡ true = sym (wires m (rw desc.methods km)) ∙ run in
      let (t, caller, both) =
        any-In (λ t. w.signals.run t && any (enabled w) (calls_by mm.info_by_call t m))
          (targets mm.transactions_by_method m) is_granted in
      let kt : In t d.transactions = ground (arith, desc.inverse t m, desc.calls t m) in
      let (i, k, on) = any-IsCall (enabled w) (calls_by mm.info_by_call t m) (ground arith) in
      (t, i, kt, ground arith, subst (IsCall i) (desc.infos t m kt) k, on)

  abbrev RunsAt : ℕ → CallInfo → Type 0
  RunsAt n i = (w.signals.run n ≡ true) × (runs_all ch i.call_path ≡ true)

  abbrev Into : ℕ → List Visit → Type 0
  Into t vs = (n : ℕ) (i : CallInfo) → IsCall i (infos_of vs n) → IsCall i (infos_of (tree t) n)

  module _ (t : ℕ) (kt : In t d.transactions) (run : w.signals.run t ≡ true) where
    abbrev Reached : ℕ → Type 0
    Reached fuel =
        (source : ℕ) (above : CallInfo)
        → Into t (visits fuel d source above)
        → (enabled w above ≡ true → RunsAt source above)
        → (n : ℕ) (i : CallInfo) → IsCall i (infos_of (visits fuel d source above) n)
        → enabled w i ≡ true
        → RunsAt n i

    in-Reached :
        (fuel source : ℕ) (above : CallInfo) (cs : List (ℕ × Call))
        → Reached fuel
        → Into t (visits_in (visits fuel d) above cs)
        → (enabled w above ≡ true → RunsAt source above)
        → (w.signals.run source ≡ true → Follows ch w cs)
        → (n : ℕ) (i : CallInfo) → IsCall i (infos_of (visits_in (visits fuel d) above cs) n)
        → enabled w i ≡ true
        → RunsAt n i
    in-Reached fuel source above [] ih into up follows n i k on = elim k [ ]
    in-Reached fuel source above ((m, c) ∷ cs) ih into up follows n i k on =
        let j = info_at above m c in
        let below : List Visit = visits fuel d m j in
        let rest : List Visit = visits_in (visits fuel d) above cs in
        let head : IsCall j (infos_of ((m, j) ∷ (below ++ rest)) m) =
          rw (==_refl m, infos_of) IsCall.first in
        let head_runs : enabled w j ≡ true → RunsAt m j = λ on_j.
          let both = sym (all-append w.enable above.enable c.enable) ∙ on_j in
          let (run_source, path) = up (ground arith) in
          let alternative = (follows run_source).0 (ground arith) in
          (
            run_called t m j kt run (into m j head) on_j,
            runs_all-append ch above.call_path c.ctrl_path ∙ rw (path, alternative) refl,
          ) in
        let deep : IsCall i (infos_of (below ++ rest) n) → RunsAt n i = λ k'.
          elim (IsCall-append (infos_of below n) (infos_of rest n)
            (subst (IsCall i) (infos_of-append below rest n) k')) [
              | inl b ↦
                  ih m j
                    (λ n' i' k''. into n' i' (
                      IsCall-after ((m, j) ∷ []) (below ++ rest) n'
                        (IsCall-before below rest n' k'')))
                    head_runs n i b on
              | inr r ↦
                  in-Reached fuel source above cs ih
                    (λ n' i' k''. into n' i' (IsCall-after ((m, j) ∷ below) rest n' k'')) up
                    (λ r'. (follows r').1) n i r on
            ] in
        elim (Bool-cases (m == n)) [
          | inl same ↦
              let eq : m ≡ n = ground arith in
              elim (IsCall-cons j (infos_of (below ++ rest) n) (rw (same, infos_of) at k)) [
                | inl here ↦ rw here (subst (λ x. RunsAt x j) eq (head_runs (rw here at on)))
                | inr k' ↦ deep k'
              ]
          | inr other ↦ deep (rw (other, infos_of) at k)
        ]

    visits-Reached : (fuel : ℕ) → Reached fuel
    unfolding visits
    visits-Reached zero source above into up n i k on = elim k [ ]
    visits-Reached (suc fuel) source above into up n i k on =
        in-Reached fuel source above (calls_of (d.body source).method_calls) (visits-Reached fuel)
          into up (calls source) n i k on

    -- In a transaction that runs, the way to an enabled call is taken, and its method runs.
    pub runs_at :
        (n : ℕ) (i : CallInfo)
        → IsCall i (infos_of (tree t) n)
        → enabled w i ≡ true
        → (w.signals.run n ≡ true) × (runs_all ch i.call_path ≡ true)
    runs_at n i k on =
        visits-Reached (fuel_of d) t root_info (λ n' i' k'. k') (λ e. (run, refl)) n i k on
