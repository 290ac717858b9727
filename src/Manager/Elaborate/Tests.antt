-- ===== src/Manager/Elaborate/Tests.antt =====
-- A cycle of the design of Manager.Tests in which the transaction 10 runs, and the methods 1 and 0.
use transactron.Prelude.{
  ℕ, ◌+◌, ◌≤◌, true, false, not, ◌||◌, none, some, [], ◌∷◌, In, ◌≡◌, refl, subst, arith, ◌==◌, inl,
  inr, Bool-cases, if◌then◌else◌,
}
use transactron.Graph.{graph_ccs}
use transactron.Scheduler.{Eager, sort, grant}
use transactron.Reduce.Ones.{ones}
use transactron.Reduce.{binary_tree_reduce, layers}
use transactron.Select.{one_hot_mux}
use transactron.Manager.{Priority, Call, Design}
use transactron.Manager.MethodMap.{ok, targets, ready_for_transaction, transactions_for, method_map}
use transactron.Manager.MethodMap.Fuel.{KnownMethods}
use transactron.Ctrl.{exclusive_with, call_paths_exclusive}
use transactron.Manager.Conflicts.{conflict_graphs}
use transactron.Manager.Tests.{
  body_path, design, built, graphs, order, design_map, design_known, design-graphs,
  first_alternatives,
}
use transactron.Manager.Elaborate.{
  Callbacks, Wires, deadlock, check_dependencies, methods_and_transactions, method_args,
  method_runs, default_combiner, Wired, CallsEnabled, runnable_terms, method_granted,
  ready_dependencies,
}
use transactron.Manager.Elaborate.Ready.{has_dependent, running_ready}
use transactron.Manager.Elaborate.Once.{exclusive_called_once}
use transactron.Manager.Elaborate.Delivered.{now, active_argument_delivered}

abbrev callbacks : Callbacks
callbacks = record { validate_arguments = λ m. none; combiner = λ m. default_combiner }

abbrev wires : Wires
wires = record {
  signals = record {
    ready = λ t. true;
    runnable = λ t. true;
    run = λ t. t == 10 || (t == 1 || t == 0);
  };
  data_in = λ m. if m == 0 then 6 else 15;
  arg = λ a. a + 5;
  enable = λ e. true;
}

-- What holds of two numbers holds of every element of their list.
among : (P : ℕ → Type 0) (a b : ℕ) → P a → P b → (t : ℕ) → In t (a ∷ b ∷ []) → P t
among P a b pa pb t k = elim (Bool-cases (a == t)) [
  | inl same ↦ let eq : a ≡ t = ground arith in subst P eq pa
  | inr other ↦ let eq : b ≡ t = ground arith in subst P eq pb
]

-- Both cycles give the two methods what the calls deliver.
delivered :
    (d : Design) (w : Wires)
    → w.data_in 0
      ≡ default_combiner
          (method_args d w (methods_and_transactions built) 0)
          (method_runs d w (methods_and_transactions built) 0)
    → w.data_in 1
      ≡ default_combiner
          (method_args d w (methods_and_transactions built) 1)
          (method_runs d w (methods_and_transactions built) 1)
    → (m t : ℕ) → In t (targets built.transactions_by_method m)
    → w.data_in m
      ≡ default_combiner
          (method_args d w (methods_and_transactions built) m)
          (method_runs d w (methods_and_transactions built) m)
delivered d w zero_gets one_gets m t called = elim (Bool-cases (m == 0)) [
  | inl e ↦ let eq : m ≡ 0 = ground arith in rw eq zero_gets
  | inr n ↦ elim (Bool-cases (m == 1)) [
    | inl e ↦ let eq : m ≡ 1 = ground arith in rw eq one_gets
    | inr n' ↦ absurd (ground arith)
  ]
]

wires-Wired : Wired callbacks design built graphs.cgr order wires
unfolding Wired runnable_terms method_granted ready_dependencies ready_for_transaction graph_ccs
    Eager sort grant one_hot_mux binary_tree_reduce layers
wires-Wired = (
  among (λ t. wires.signals.runnable t ≡ runnable_terms callbacks design built wires t) 10 11 refl
      refl,
  (
    among (λ m. wires.signals.run m ≡ method_granted built wires m) 0 1 refl refl,
    (delivered design wires refl refl, ((11 ∷ 10 ∷ []) ∷ [], refl, ((refl, (refl, tt)), tt))),
  ),
)

calls_enabled : CallsEnabled first_alternatives design wires
calls_enabled s run = elim (Bool-cases (s == 10)) [
  | inl e ↦ rw e (λ on. refl, tt)
  | inr n ↦ elim (Bool-cases (s == 11)) [
    | inl e ↦ rw (n, e) (λ on. refl, tt)
    | inr n' ↦ elim (Bool-cases (s == 1)) [
      | inl e ↦ rw (n, n', e) (λ on. refl, tt)
      | inr n'' ↦ rw (n, n', n'') tt
    ]
  ]
]

exclusive_called_once_example :
    ones (method_runs design wires (methods_and_transactions built) 0) ≤ 1
exclusive_called_once_example =
    exclusive_called_once callbacks design built graphs order wires first_alternatives design_known
      refl design_map design-graphs wires-Wired calls_enabled 0 refl refl refl

-- The call that the method 1 makes.
abbrev inner : Call
inner = record { ctrl_path = body_path 1; arg = 1; enable = 1 }

active_argument_delivered_example : wires.data_in 0 ≡ 1 + 5
active_argument_delivered_example =
    active_argument_delivered callbacks design built graphs order wires first_alternatives
      design_known refl design_map design-graphs wires-Wired calls_enabled 0 10 1 inner refl refl
      refl refl refl refl now refl refl

running_ready_example :
    ((m : ℕ) → In m (targets built.methods_by_transaction 10) → wires.signals.ready m ≡ true)
    × ((b e : ℕ)
        → In b (ready_for_transaction built 10)
        → In e (0 ∷ 1 ∷ 10 ∷ 11 ∷ [])
        → has_dependent design e b ≡ true
        → wires.signals.run e ≡ true)
running_ready_example =
    running_ready callbacks design built graphs order wires design_known refl design_map
      design-graphs wires-Wired 10 refl refl

-- The transaction 10 is ready dependent on 11, with which it is in conflict: it waits.
abbrev waiting : Design
waiting = record design {
  body = λ b.
      if b == 11
      then record (design.body 11) {
        relations =
            record {
              end = 10;
              priority = Priority.undefined;
              conflict = false;
              ready_dependent = true;
              silence_warning = true;
            }
            ∷ [];
      }
      else design.body b;
}

waiting_map : method_map waiting ≡ ok built
unfolding method_map
waiting_map = refl

waiting-graphs : conflict_graphs waiting built ≡ some graphs
unfolding conflict_graphs transactions_for call_paths_exclusive exclusive_with
waiting-graphs = refl

abbrev idle : Wires
idle = record {
  signals = record {
    ready = λ t. not (t == 10);
    runnable = λ t. true;
    run = λ t. t == 11 || t == 0;
  };
  data_in = λ m. if m == 0 then 16 else 15;
  arg = λ a. a + 5;
  enable = λ e. true;
}

waiting_known : KnownMethods waiting
waiting_known b = elim (Bool-cases (b == 11)) [
  | inl e ↦ rw e (refl, tt)
  | inr n ↦ rw n (rw n at (design_known b))
]

reported_deadlock :
    check_dependencies graphs.cgr (ready_dependencies waiting built) (10 ∷ 11 ∷ [])
    ≡ some (deadlock 10 11)
unfolding check_dependencies ready_dependencies
reported_deadlock = refl

idle-Wired : Wired callbacks waiting built graphs.cgr order idle
unfolding Wired runnable_terms method_granted ready_dependencies ready_for_transaction graph_ccs
    Eager sort grant one_hot_mux binary_tree_reduce layers
idle-Wired = (
  among (λ t. idle.signals.runnable t ≡ runnable_terms callbacks waiting built idle t) 10 11 refl
      refl,
  (
    among (λ m. idle.signals.run m ≡ method_granted built idle m) 0 1 refl refl,
    (delivered waiting idle refl refl, ((11 ∷ 10 ∷ []) ∷ [], refl, ((refl, (refl, tt)), tt))),
  ),
)
