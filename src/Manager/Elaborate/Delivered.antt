-- ===== src/Manager/Elaborate/Delivered.antt =====
-- The argument that an exclusive method receives.
use transactron.Prelude.{
  ◌==◌, ==_refl, Bool-cases, inl, inr, subst, ℕ, zero, suc, ◌+◌, ◌≤◌, Bool, true, false, none, some,
  List, [], ◌∷◌, ◌++◌, length, length-append, get_or, In, ◌≡◌, refl, sym, ap, ap₂, ◌∙◌, arith,
}
use transactron.Ctrl.Exclusive.{Choice}
use transactron.Graph.Search.{distinct}
use transactron.Reduce.Ones.{ones}
use transactron.Select.Selected.{AllFalse, IsOneHotAt, one_hot_mux-IsSelected}
use transactron.Manager.{Call, Design}
use transactron.Manager.MethodMap.{MethodMap, ok, targets, calls_of, method_map}
use transactron.Manager.MethodMap.Fuel.{KnownMethods}
use transactron.Manager.Conflicts.{Graphs, conflict_graphs}
use transactron.Manager.Elaborate.{
  Callbacks, Wires, methods_and_transactions, args_in, runs_in, method_args, method_runs,
  default_combiner, Wired, CallsEnabled,
}
use transactron.Manager.Elaborate.Once.{exclusive_called_once}

length-runs_in :
    (w : Wires) (m s : ℕ) (cs : List (ℕ × Call))
    → length (runs_in w m s cs) ≡ length (args_in w m cs)
length-runs_in w m s [] = refl
length-runs_in w m s ((n, c) ∷ cs) = ground (arith, length-runs_in w m s cs)

length-method_runs :
    (d : Design) (w : Wires) (ss : List ℕ) (m : ℕ)
    → length (method_runs d w ss m) ≡ length (method_args d w ss m)
length-method_runs d w [] m = refl
length-method_runs d w (s ∷ ss) m =
    let cs : List (ℕ × Call) = calls_of (d.body s).method_calls in
    length-append (runs_in w m s cs) (method_runs d w ss m)
    ∙ ap₂ (λ a b. a + b) (length-runs_in w m s cs) (length-method_runs d w ss m)
    ∙ sym (length-append (args_in w m cs) (method_args d w ss m))

none-AllFalse : (bs : List Bool) → ones bs ≤ 0 → AllFalse bs
none-AllFalse [] h = tt
none-AllFalse (true ∷ bs) h = absurd (omega arith)
none-AllFalse (false ∷ bs) h = (refl, none-AllFalse bs (omega arith))

some_one : (bs : List Bool) (p : ℕ) → get_or bs p false ≡ true → 1 ≤ ones bs
some_one [] p h = absurd (cc)
some_one (b ∷ bs) zero h = ground arith
some_one (b ∷ bs) (suc p) h = omega (arith, some_one bs p h)

ones-IsOneHotAt :
    (bs : List Bool) (p : ℕ) → ones bs ≤ 1 → get_or bs p false ≡ true → IsOneHotAt p bs
ones-IsOneHotAt [] p h r = absurd (cc)
ones-IsOneHotAt (true ∷ bs) zero h r = (refl, none-AllFalse bs (omega arith))
ones-IsOneHotAt (false ∷ bs) zero h r = absurd (cc)
ones-IsOneHotAt (true ∷ bs) (suc p) h r = absurd (omega (arith, some_one bs p r))
ones-IsOneHotAt (false ∷ bs) (suc p) h r = (refl, ones-IsOneHotAt bs p (omega arith) r)

-- The call stands among the calls of a body.
pub data Calls (m : ℕ) (c : Call) : List (ℕ × Call) → Type 0 where
  now : {cs : List (ℕ × Call)} → Calls m c ((m, c) ∷ cs)
  later : {call : ℕ × Call} {cs : List (ℕ × Call)} → Calls m c cs → Calls m c (call ∷ cs)

-- At one position stand the argument and a run signal that is set.
data Delivers (v : ℕ) : List ℕ → List Bool → Type 0 where
  at_first : {xs : List ℕ} {rs : List Bool} → Delivers v (v ∷ xs) (true ∷ rs)
  behind :
      {a : ℕ} {r : Bool} {xs : List ℕ} {rs : List Bool}
      → Delivers v xs rs
      → Delivers v (a ∷ xs) (r ∷ rs)

Delivers-position :
    {v : ℕ} {xs : List ℕ} {rs : List Bool}
    → Delivers v xs rs
    → (p : ℕ) × (get_or rs p false ≡ true) × (get_or xs p 0 ≡ v)
Delivers-position at_first = (0, refl, refl)
Delivers-position (behind k) = let (p, on, is) = Delivers-position k in (suc p, on, is)

Delivers-before :
    {v : ℕ} {xs : List ℕ} {rs : List Bool} (as' : List ℕ) (rs' : List Bool)
    → Delivers v xs rs
    → Delivers v (xs ++ as') (rs ++ rs')
Delivers-before as' rs' at_first = at_first
Delivers-before as' rs' (behind k) = behind (Delivers-before as' rs' k)

-- Behind the arguments of other calls.
Delivers-after :
    (w : Wires) (m s v : ℕ) (cs : List (ℕ × Call)) {xs : List ℕ} {rs : List Bool}
    → Delivers v xs rs
    → Delivers v (args_in w m cs ++ xs) (runs_in w m s cs ++ rs)
Delivers-after w m s v [] k = k
Delivers-after w m s v ((n, c) ∷ cs) k = elim (Bool-cases (n == m)) [
  | inl same ↦ rw same (behind (Delivers-after w m s v cs k))
  | inr other ↦ rw other (Delivers-after w m s v cs k)
]

active-Delivers :
    (w : Wires) (m s : ℕ) (c : Call) {cs : List (ℕ × Call)}
    → Calls m c cs
    → w.signals.run s ≡ true
    → w.enable c.enable ≡ true
    → Delivers (w.arg c.arg) (args_in w m cs) (runs_in w m s cs)
active-Delivers w m s c now run on = rw (==_refl m, run, on) at_first
active-Delivers w m s c (later {call = (n, c')} k) run on = elim (Bool-cases (n == m)) [
  | inl same ↦ rw same (behind (active-Delivers w m s c k run on))
  | inr other ↦ rw other (active-Delivers w m s c k run on)
]

method-Delivers :
    (d : Design) (w : Wires) (ss : List ℕ) (m s : ℕ) (c : Call)
    → In s ss
    → Calls m c (calls_of (d.body s).method_calls)
    → w.signals.run s ≡ true
    → w.enable c.enable ≡ true
    → Delivers (w.arg c.arg) (method_args d w ss m) (method_runs d w ss m)
method-Delivers d w [] m s c ks k run on = absurd (cc)
method-Delivers d w (s' ∷ ss) m s c ks k run on = elim (Bool-cases (s' == s)) [
  | inl same ↦
      let eq : s ≡ s' = ground arith in
      let calls : ℕ → List (ℕ × Call) = λ b. calls_of (d.body b).method_calls in
      subst
        (λ b.
          Delivers (w.arg c.arg) (args_in w m (calls b) ++ method_args d w ss m)
            (runs_in w m b (calls b) ++ method_runs d w ss m))
        eq
        (Delivers-before (method_args d w ss m) (method_runs d w ss m)
          (active-Delivers w m s c k run on))
  | inr other ↦
      Delivers-after w m s' (w.arg c.arg) (calls_of (d.body s').method_calls)
        (method-Delivers d w ss m s c (ground arith) k run on)
]

module _ (cb : Callbacks) (d : Design) (mm : MethodMap) (gs : Graphs) (porder : ℕ → ℕ) (w : Wires)
    (ch : ℕ → Choice) (known : KnownMethods d) (once : distinct d.transactions ≡ true)
    (built : method_map d ≡ ok mm) (graphs : conflict_graphs d mm ≡ some gs)
    (wired : Wired cb d mm gs.cgr porder w) (calls : CallsEnabled ch d w) where
  combined :
      (m t : ℕ)
      → In t (targets mm.transactions_by_method m)
      → w.data_in m
        ≡ cb.combiner m
            (method_args d w (methods_and_transactions mm) m)
            (method_runs d w (methods_and_transactions mm) m)
  unfolding Wired
  combined = wired.1.1.0

  -- By the position of the active call among all calls.
  delivered_at :
      (m t p : ℕ)
      → distinct (d.methods ++ d.transactions) ≡ true
      → In m d.methods
      → (d.body m).nonexclusive ≡ false
      → In t (targets mm.transactions_by_method m)
      → cb.combiner m ≡ default_combiner
      → get_or (method_runs d w (methods_and_transactions mm) m) p false ≡ true
      → w.data_in m ≡ get_or (method_args d w (methods_and_transactions mm) m) p 0
  delivered_at m t p ds km x called default active =
      let sources : List ℕ = methods_and_transactions mm in
      let at_most_one : ones (method_runs d w sources m) ≤ 1 =
        exclusive_called_once cb d mm gs porder w ch known once built graphs wired calls m ds km
          x in
      combined m t called
      ∙ ap
          (λ (f : List ℕ → List Bool → ℕ).
            f (method_args d w sources m) (method_runs d w sources m))
          default
      ∙ one_hot_mux-IsSelected (method_runs d w sources m) (method_args d w sources m) none false p
          (length-method_runs d w sources m)
          (ones-IsOneHotAt (method_runs d w sources m) p at_most_one active)

  -- In a cycle of an elaborated design under the eager scheduler, a method that is not nonexclusive
  -- and has the default combiner receives the argument of its active call: of each call to it that is
  -- enabled and stands in a transaction or method that runs. Calls are enabled only where the control
  -- structures around them take their alternatives, some transaction calls the method, and no body is
  -- listed twice among the methods and transactions.
  pub active_argument_delivered :
      (m t source : ℕ) (c : Call)
      → distinct (d.methods ++ d.transactions) ≡ true
      → In m d.methods
      → (d.body m).nonexclusive ≡ false
      → In t (targets mm.transactions_by_method m)
      → cb.combiner m ≡ default_combiner
      → In source (methods_and_transactions mm)
      → Calls m c (calls_of (d.body source).method_calls)
      → w.signals.run source ≡ true
      → w.enable c.enable ≡ true
      → w.data_in m ≡ w.arg c.arg
  active_argument_delivered m t source c ds km x called default there call run on =
      let (p, active, given) =
        Delivers-position
          (method-Delivers d w (methods_and_transactions mm) m source c there call run on) in
      delivered_at m t p ds km x called default active ∙ given
