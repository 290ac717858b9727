-- ===== src/Manager/Elaborate.antt =====
-- `TransactionManager.elaborate` of transactron/core/manager.py, with `_ready_dependencies` and
-- `_method_calls`: the checks before the wiring, and the equations between the signals of a cycle.
-- A body's callbacks are given by functions; values are numbers.
pub mod Ready
pub mod Nested
pub mod Started
pub mod Taken
pub mod Sites
pub mod Once
pub mod Delivered
mod Tests
use transactron.Prelude.{
  ℕ, ◌+◌, Bool, true, false, not, ◌&&◌, ◌||◌, Option, none, some, List, [], ◌∷◌, ◌++◌, ◌==◌,
  if◌then◌else◌, length, ltb, contains, any, all, map, In, ◌≡◌,
}
use transactron.Ctrl.Exclusive.{Choice}
use transactron.Ctrl.Builder.Executed.{runs}
use transactron.Select.{one_hot_mux}
use transactron.Graph.{Graph, keys}
use transactron.Scheduler.{Signals}
use transactron.Scheduler.System.{Scheduled}
use transactron.Manager.{RelationBase, Call, Body, Design}
use transactron.Manager.MethodMap.{
  CallInfo, MethodMap, targets, calls_of, calls_by, ready_for_transaction,
}

-- `validate_arguments`, if it is given, and `combiner`.
pub record Callbacks : Type 0 where
  pub validate_arguments : ℕ → Option (ℕ → Bool)
  pub combiner : ℕ → List ℕ → List Bool → ℕ

-- The signals of a cycle: of the bodies, and of the calls.
pub record Wires : Type 0 where
  pub signals : Signals
  pub data_in : ℕ → ℕ
  pub arg : ℕ → ℕ
  pub enable : ℕ → Bool

-- `methods_and_transactions`
abbrev pub methods_and_transactions : MethodMap → List ℕ
methods_and_transactions mm = keys mm.transactions_by_method ++ keys mm.methods_by_transaction

-- `ready_dependencies[end].add(body)` on a `defaultdict(set)`.
abbrev pub add_dependent : Graph → ℕ → ℕ → Graph
add_dependent [] end body = (end, body ∷ []) ∷ []
add_dependent ((k, deps) ∷ g) end body =
    let rest = add_dependent g end body in
    if k == end
    then (k, (if contains deps body then deps else deps ++ body ∷ [])) ∷ g
    else (k, deps) ∷ rest

abbrev pub add_ready : ℕ → List RelationBase → Graph → Graph
add_ready body [] g = g
add_ready body (r ∷ rs) g =
    add_ready body rs (if r.ready_dependent then add_dependent g r.end body else g)

abbrev pub add_all_ready : Design → List ℕ → Graph → Graph
add_all_ready d [] g = g
add_all_ready d (b ∷ bs) g = add_all_ready d bs (add_ready b (d.body b).relations g)

unfoldable pub ready_dependencies : Design → MethodMap → Graph
ready_dependencies d mm = add_all_ready d (methods_and_transactions mm) []

-- What is raised: a transaction and what it depends on, or a method.
pub data SetupError : Type 0 where
  deadlock : ℕ → ℕ → SetupError
  called_more_than_once : ℕ → SetupError

-- The first dependency of a transaction that is in conflict with it.
abbrev pub conflicting_dependency : Graph → ℕ → List ℕ → Option SetupError
conflicting_dependency cgr t [] = none
conflicting_dependency cgr t (dep ∷ deps) =
    let rest = conflicting_dependency cgr t deps in
    if contains (targets cgr t) dep then some (deadlock t dep) else rest

unfoldable pub check_dependencies : Graph → Graph → List ℕ → Option SetupError
check_dependencies cgr rd [] = none
check_dependencies cgr rd (t ∷ ts) =
    let rest = check_dependencies cgr rd ts in
    elim (conflicting_dependency cgr t (targets rd t)) [ none ↦ rest | some e ↦ some e ]

-- `_method_calls`: the arguments and the run signals of the calls of a method, by their sources.
abbrev pub args_in : Wires → ℕ → List (ℕ × Call) → List ℕ
args_in w m [] = []
args_in w m ((n, c) ∷ cs) = let rest = args_in w m cs in if n == m then w.arg c.arg ∷ rest else rest

abbrev pub runs_in : Wires → ℕ → ℕ → List (ℕ × Call) → List Bool
runs_in w m source [] = []
runs_in w m source ((n, c) ∷ cs) =
    let rest = runs_in w m source cs in
    if n == m then (w.signals.run source && w.enable c.enable) ∷ rest else rest

abbrev pub method_args : Design → Wires → List ℕ → ℕ → List ℕ
method_args d w [] m = []
method_args d w (source ∷ sources) m =
    args_in w m (calls_of (d.body source).method_calls) ++ method_args d w sources m

abbrev pub method_runs : Design → Wires → List ℕ → ℕ → List Bool
method_runs d w [] m = []
method_runs d w (source ∷ sources) m =
    runs_in w m source (calls_of (d.body source).method_calls) ++ method_runs d w sources m

-- `Body._default_combiner`
abbrev pub default_combiner : List ℕ → List Bool → ℕ
default_combiner args runs = one_hot_mux runs args none false

-- `len(method_args[method])`
abbrev pub calls_to : ℕ → List (ℕ × Call) → ℕ
calls_to m [] = 0
calls_to m ((n, c) ∷ cs) = let rest = calls_to m cs in if n == m then rest + 1 else rest

abbrev pub callers : Design → List ℕ → ℕ → ℕ
callers d [] m = 0
callers d (b ∷ bs) m = calls_to m (calls_of (d.body b).method_calls) + callers d bs m

unfoldable pub check_single_callers : Design → MethodMap → Graph → Option SetupError
check_single_callers d mm [] = none
check_single_callers d mm ((m, []) ∷ by_method) = check_single_callers d mm by_method
check_single_callers d mm ((m, t ∷ ts) ∷ by_method) =
    let rest = check_single_callers d mm by_method in
    if (d.body m).single_caller && ltb 1 (callers d (methods_and_transactions mm) m)
    then some (called_more_than_once m)
    else rest

-- `call.enable`, the conjunction of the signals on the way to the call.
abbrev pub enabled : Wires → CallInfo → Bool
enabled w i = all w.enable i.enable

-- `enable_sig.eq(1)` of `Method.__call__`, under the control structures around the call: in a body
-- that runs, a call is enabled only if they take its alternatives.
abbrev pub Follows : (ℕ → Choice) → Wires → List (ℕ × Call) → Type 0
Follows ch w [] = Unit
Follows ch w ((n, c) ∷ cs) =
    (w.enable c.enable ≡ true → runs (ch c.ctrl_path.module_uid) c.ctrl_path.path ≡ true)
    × Follows ch w cs

abbrev pub CallsEnabled : (ℕ → Choice) → Design → Wires → Type 0
CallsEnabled ch d w =
    (source : ℕ)
    → w.signals.run source ≡ true
    → Follows ch w (calls_of (d.body source).method_calls)

-- `Body._validate_arguments`
abbrev pub arguments_valid : Callbacks → Wires → ℕ → Bool → ℕ → Bool
arguments_valid cb w m en arg = elim (cb.validate_arguments m) [
  | none ↦ w.signals.ready m
  | some valid ↦ w.signals.ready m && (not en || valid arg)
]

-- `validate_args_for_method`
abbrev pub validate_args_for_method : Callbacks → MethodMap → Wires → ℕ → ℕ → Bool
validate_args_for_method cb mm w t m =
    let calls = calls_by mm.info_by_call t m in
    arguments_valid cb w m (any (enabled w) calls)
      (one_hot_mux (map (enabled w) calls) (map (λ i. w.arg i.arg) calls) none false)

-- The conjunction of `runnable_terms`.
unfoldable pub runnable_terms : Callbacks → Design → MethodMap → Wires → ℕ → Bool
unfolding ready_dependencies
runnable_terms cb d mm w t =
    all (validate_args_for_method cb mm w t) (targets mm.methods_by_transaction t)
    && all (λ body. all w.signals.run (targets (ready_dependencies d mm) body))
        (ready_for_transaction mm t)

-- `granted.any()` of a method.
unfoldable pub method_granted : MethodMap → Wires → ℕ → Bool
method_granted mm w m =
    any (λ t. w.signals.run t && any (enabled w) (calls_by mm.info_by_call t m))
      (targets mm.transactions_by_method m)

-- What `elaborate` assigns, with the schedulers of the components.
unfoldable pub Wired : Callbacks → Design → MethodMap → Graph → (ℕ → ℕ) → Wires → Type 0
unfolding runnable_terms method_granted
Wired cb d mm cgr porder w =
    ((t : ℕ)
      → In t (keys mm.methods_by_transaction)
      → w.signals.runnable t ≡ runnable_terms cb d mm w t)
    × (((m : ℕ) → In m (keys mm.transactions_by_method) → w.signals.run m ≡ method_granted mm w m)
        × (((m t : ℕ)
              → In t (targets mm.transactions_by_method m)
              → w.data_in m
                ≡ cb.combiner m (method_args d w (methods_and_transactions mm) m)
                    (method_runs d w (methods_and_transactions mm) m))
            × Scheduled cgr porder w.signals))
