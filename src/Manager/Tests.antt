-- ===== src/Manager/Tests.antt =====
-- A design of two transactions, 10 and 11, that call method 0; 10 does so through method 1.
use transactron.Prelude.{
  ℕ, ◌≤◌, true, false, some, List, [], ◌∷◌, ◌≡◌, ◌≢◌, refl, arith, ◌==◌, inl, inr, Bool-cases,
  if◌then◌else◌,
}
use transactron.Ctrl.{CtrlPath, exclusive_with, call_paths_exclusive}
use transactron.Ctrl.Exclusive.{Choice}
use transactron.Ctrl.Calls.{RunsAll}
use transactron.Graph.{keys, graph_ccs}
use transactron.Graph.Components.{Symmetric, HasKeys}
use transactron.Scheduler.{Signals, Eager, sort, grant}
use transactron.Scheduler.System.{Scheduled}
use transactron.Manager.{Body, Call, Design}
use transactron.Manager.MethodMap.{
  CallInfo, MethodMap, ok, err, out_of_fuel, method_map, validate_all, validate_root_call_tree,
  fuel_of, root_info, sights_of, transactions_for,
}
use transactron.Manager.MethodMap.Visits.{visits}
use transactron.Manager.MethodMap.Fuel.{KnownMethods, validate_ends}
use transactron.Manager.MethodMap.Double.{taken, called_once}
use transactron.Manager.MethodMap.Contents.{Describes, method_map-Describes, method_map-ok}
use transactron.Manager.Conflicts.{Graphs, conflict_graphs}
use transactron.Manager.Conflicts.Undirected.{conflict_graph-undirected}
use transactron.Manager.Conflicts.Exclusion.{IsCall, shared_method_exclusive}

abbrev pub body_path : ℕ → CtrlPath
body_path m = record { module_uid = m; path = record { alt = 0; par = 0 } ∷ [] }

abbrev pub body_calling : ℕ → List (ℕ × List Call) → Body
body_calling b calls = record {
  def_order = b;
  owner = 0;
  ctrl_path = record { module_uid = b; path = [] };
  method_calls = calls;
  nonexclusive = false;
  single_caller = false;
  relations = [];
  simultaneous_list = [];
  independent_list = [];
}

abbrev pub call_in : ℕ → List Call
call_in b = record { ctrl_path = body_path b; arg = b; enable = b } ∷ []

abbrev bodies : ℕ → Body
bodies b =
    if b == 10
    then body_calling 10 ((1, call_in 10) ∷ [])
    else (if b == 11
        then body_calling 11 ((0, call_in 11) ∷ [])
        else (if b == 1 then body_calling 1 ((0, call_in 1) ∷ []) else body_calling b []))

abbrev pub design : Design
design = record { body = bodies; transactions = 10 ∷ 11 ∷ []; methods = 0 ∷ 1 ∷ [] }

abbrev info_through : CallInfo
info_through = record {
  ancestors = 0 ∷ 1 ∷ [];
  call_path = body_path 10 ∷ body_path 1 ∷ [];
  arg = 1;
  enable = 10 ∷ 1 ∷ [];
}

abbrev info_direct : CallInfo
info_direct = record {
  ancestors = 0 ∷ [];
  call_path = body_path 11 ∷ [];
  arg = 11;
  enable = 11 ∷ [];
}

abbrev pub built : MethodMap
built = record {
  methods_by_transaction = (10, 1 ∷ 0 ∷ []) ∷ (11, 0 ∷ []) ∷ [];
  transactions_by_method = (0, 10 ∷ 11 ∷ []) ∷ (1, 10 ∷ []) ∷ [];
  info_by_call =
      (
        10,
        (
          1,
          record { ancestors = 1 ∷ []; call_path = body_path 10 ∷ []; arg = 10; enable = 10 ∷ [] },
        ),
      )
      ∷ (10, (0, info_through))
      ∷ (11, (0, info_direct))
      ∷ [];
  method_parents = (0, 1) ∷ (1, 10) ∷ (0, 11) ∷ [];
}

pub design_map : method_map design ≡ ok built
unfolding method_map
design_map = refl

design_valid : validate_all design (0 ∷ 1 ∷ 10 ∷ 11 ∷ []) ≡ ok tt
unfolding validate_all
design_valid = refl

pub design_known : KnownMethods design
design_known b = elim (Bool-cases (b == 10)) [
  | inl e ↦ rw e (refl, tt)
  | inr n ↦ elim (Bool-cases (b == 11)) [
    | inl e ↦ rw (n, e) (refl, tt)
    | inr n' ↦ elim (Bool-cases (b == 1)) [
      | inl e ↦ rw (n, n', e) (refl, tt)
      | inr n'' ↦ rw (n, n', n'') tt
    ]
  ]
]

abbrev pub graphs : Graphs
graphs = record { cgr = (10, 11 ∷ []) ∷ (11, 10 ∷ []) ∷ []; pgr = (10, []) ∷ (11, []) ∷ [] }

pub design-graphs : conflict_graphs design built ≡ some graphs
unfolding conflict_graphs transactions_for call_paths_exclusive exclusive_with
design-graphs = refl

abbrev cycle : Signals
cycle = record { ready = λ t. true; runnable = λ t. true; run = λ t. t == 10 }

abbrev pub order : ℕ → ℕ
order t = t

design-Scheduled : Scheduled graphs.cgr order cycle
unfolding graph_ccs Eager sort grant
design-Scheduled = ((11 ∷ 10 ∷ []) ∷ [], refl, ((refl, (refl, tt)), tt))

abbrev pub first_alternatives : ℕ → Choice
first_alternatives m pre par = some 0

shared_method_exclusive_example : ¬ (
    ((cycle.run 10 ≡ true) × RunsAll first_alternatives info_through.call_path)
    × ((cycle.run 11 ≡ true) × RunsAll first_alternatives info_direct.call_path))
shared_method_exclusive_example =
    shared_method_exclusive design built graphs order cycle first_alternatives design_known refl
      design_map design-graphs design-Scheduled 10 11 0 0 info_through info_direct refl refl refl
      (omega arith) IsCall.first IsCall.first refl refl

tree_of_10 :
    validate_root_call_tree design 10
    ≡ ok (
        (
          1,
          record { ancestors = 1 ∷ []; call_path = body_path 10 ∷ []; arg = 10; enable = 10 ∷ [] },
        )
        ∷ (0, info_through)
        ∷ [])
unfolding validate_root_call_tree
tree_of_10 = refl

called_once_example :
    taken first_alternatives (sights_of (visits (fuel_of design) design 10 root_info) 0) ≤ 1
called_once_example = called_once design 10 _ first_alternatives 0 tree_of_10 refl

validate_ends_example : validate_root_call_tree design 10 ≢ err out_of_fuel
validate_ends_example = validate_ends design design_known 10

method_map-Describes_example : (mm : MethodMap) × (method_map design ≡ ok mm) × Describes design mm
method_map-Describes_example = method_map-Describes design design_known refl design_valid

design_described : Describes design built
design_described = (method_map-ok design built design_known refl design_map).1

conflict_graph-undirected_example :
    Symmetric graphs.cgr × HasKeys graphs.cgr × (keys graphs.cgr ≡ design.transactions)
conflict_graph-undirected_example =
    conflict_graph-undirected design built design_described graphs design-graphs
