-- ===== src/Manager/MethodMap.antt =====
-- `MethodMap` of transactron/core/manager.py: the calls that each transaction makes, also through
-- the methods that it calls, and the checks on them. The recursions go down the call tree on fuel.
pub mod Visits
pub mod Double
pub mod Fuel
pub mod Build
pub mod Contents
use transactron.Prelude.{
  ℕ, zero, suc, ◌+◌, Bool, true, false, not, ◌&&◌, ◌||◌, Option, none, some, List, [], ◌∷◌, ◌++◌,
  ◌==◌, if◌then◌else◌, contains, length, any,
}
use transactron.Ctrl.{CtrlPath, call_paths_exclusive}
use transactron.Graph.{Graph, neighbours, keys}
use transactron.Graph.Search.{found_or_nil}
use transactron.Manager.{Call, Body, Design}

-- `ancestors` has the called method first; `enable` is the conjunction of its signals.
pub record CallInfo : Type 0 where
  pub ancestors : List ℕ
  pub call_path : List CtrlPath
  pub arg : ℕ
  pub enable : List ℕ

-- What the constructor raises; `out_of_fuel` is the model's own.
pub data Error : Type 0 where
  cycle double_call unknown_method : ℕ → Error
  out_of_fuel : Error

pub data Result {ℓ} (A : Type ℓ) : Type ℓ where
  ok : A → Result A
  err : Error → Result A

abbrev pub bind {ℓ κ} : {A : Type ℓ} {B : Type κ} → Result A → (A → Result B) → Result B
bind (ok a) f = f a
bind (err e) f = err e

-- The pairs of the two nested loops over `source.method_calls`.
abbrev pub each_call : ℕ → List Call → List (ℕ × Call)
each_call m [] = []
each_call m (c ∷ cs) = (m, c) ∷ each_call m cs

abbrev pub calls_of : List (ℕ × List Call) → List (ℕ × Call)
calls_of [] = []
calls_of ((m, cs) ∷ rest) = each_call m cs ++ calls_of rest

-- A call that the recursion meets: the method, its `CallInfo`.
abbrev pub Visit : Type 0
Visit = ℕ × CallInfo

-- The arguments of the recursion below a source: `new_ancestors` and so on at a call.
abbrev pub info_at : CallInfo → ℕ → Call → CallInfo
info_at above m c = record {
  ancestors = m ∷ above.ancestors;
  call_path = above.call_path ++ c.ctrl_path ∷ [];
  arg = c.arg;
  enable = above.enable ++ c.enable ∷ [];
}

-- At a root: no ancestors, and `C(1)` for the enable.
abbrev pub root_info : CallInfo
root_info = record { ancestors = []; call_path = []; arg = 0; enable = [] }

-- `report_double_call` is reached for one of the call sights of the method.
abbrev pub sights_of : List Visit → ℕ → List (List CtrlPath)
sights_of [] m = []
sights_of ((n, i) ∷ sights) m =
    let rest = sights_of sights m in if n == m then i.call_path ∷ rest else rest

unfoldable pub called_twice : Design → List Visit → ℕ → List CtrlPath → Bool
called_twice d sights m path =
    any (λ old. not ((d.body m).nonexclusive) && not (call_paths_exclusive old path))
      (sights_of sights m)

-- The two nested loops of `rec_root` and of `rec`: at each call a step, then the recursion below it.
abbrev pub loop {ℓ} :
    {S : Type ℓ}
    → (CallInfo → ℕ → Call → S → Result S)
    → (ℕ → CallInfo → S → Result S)
    → CallInfo
    → List (ℕ × Call)
    → S
    → Result S
loop step down above [] s = ok s
loop step down above ((m, c) ∷ cs) s =
    bind (step above m c s) (λ s1. bind (down m (info_at above m c) s1) (loop step down above cs))

-- The recursion, on fuel.
unfoldable pub traverse {ℓ} :
    {S : Type ℓ} → (CallInfo → ℕ → Call → S → Result S) → ℕ → Design → ℕ → CallInfo → S → Result S
traverse step zero d source above s = err out_of_fuel
traverse step (suc fuel) d source above s =
    loop step (traverse step fuel d) above (calls_of (d.body source).method_calls) s

-- The step of `rec_root`. The state is `call_sights`, in the order of the appends.
unfoldable pub check_call : Design → CallInfo → ℕ → Call → List Visit → Result (List Visit)
unfolding called_twice
check_call d above m c sights =
    let i = info_at above m c in
    if contains above.ancestors m
    then err (cycle m)
    else (if called_twice d sights m i.call_path
        then err (double_call m)
        else ok (sights ++ (m, i) ∷ []))

-- More than the depth of a call chain without a cycle.
abbrev pub fuel_of : Design → ℕ
fuel_of d = length d.methods + 1

-- `validate_root_call_tree`, with the call sights that it has at its end.
unfoldable pub validate_root_call_tree : Design → ℕ → Result (List Visit)
unfolding traverse check_call
validate_root_call_tree d root = traverse (check_call d) (fuel_of d) d root root_info []

unfoldable pub validate_all : Design → List ℕ → Result (Unit {0})
unfolding validate_root_call_tree
validate_all d [] = ok tt
validate_all d (root ∷ roots) =
    bind (validate_root_call_tree d root) (λ sights. validate_all d roots)

-- Dictionaries are association lists; `info_by_call` and `method_parents` list their appends with
-- the key in front.
pub record MethodMap : Type 0 where
  pub methods_by_transaction : Graph
  pub transactions_by_method : Graph
  pub info_by_call : List (ℕ × Visit)
  pub method_parents : List (ℕ × ℕ)

abbrev pub targets : Graph → ℕ → List ℕ
targets g k = found_or_nil (neighbours g k)

-- `g[k].append(v)`, for a key.
abbrev pub append_at : Graph → ℕ → ℕ → Graph
append_at [] k v = []
append_at ((j, ns) ∷ g) k v =
    let rest = append_at g k v in if j == k then (j, ns ++ v ∷ []) ∷ g else (j, ns) ∷ rest

-- What `rec` does at a call of `t`'s tree; a method that is no key of `transactions_by_method` is a
-- KeyError.
unfoldable pub record_visit : ℕ → Visit → MethodMap → Result MethodMap
record_visit t (m, i) mm =
    let infos = mm.info_by_call ++ (t, (m, i)) ∷ [] in
    if contains (targets mm.methods_by_transaction t) m
    then ok (record mm { info_by_call = infos })
    else (if contains (keys mm.transactions_by_method) m
        then ok (record mm {
          methods_by_transaction = append_at mm.methods_by_transaction t m;
          transactions_by_method = append_at mm.transactions_by_method m t;
          info_by_call = infos;
        })
        else err (unknown_method m))

abbrev pub record_call : ℕ → CallInfo → ℕ → Call → MethodMap → Result MethodMap
record_call t above m c = record_visit t (m, info_at above m c)

-- The loop over the transactions.
unfoldable pub record_transactions : Design → List ℕ → MethodMap → Result MethodMap
unfolding traverse record_visit
record_transactions d [] mm = ok mm
record_transactions d (t ∷ ts) mm =
    bind
      (traverse (record_call t) (fuel_of d) d t root_info
        (record mm { methods_by_transaction = mm.methods_by_transaction ++ (t, []) ∷ [] }))
      (record_transactions d ts)

abbrev pub no_callers : List ℕ → Graph
no_callers [] = []
no_callers (m ∷ ms) = (m, []) ∷ no_callers ms

abbrev pub parents_in : ℕ → List (ℕ × List Call) → List (ℕ × ℕ)
parents_in b [] = []
parents_in b ((m, cs) ∷ rest) = (m, b) ∷ parents_in b rest

abbrev pub parents : Design → List ℕ → List (ℕ × ℕ)
parents d [] = []
parents d (b ∷ bs) = parents_in b (d.body b).method_calls ++ parents d bs

-- The constructor.
unfoldable pub method_map : Design → Result MethodMap
unfolding validate_all record_transactions
method_map d = bind (validate_all d (d.methods ++ d.transactions)) (λ valid.
    bind
      (record_transactions d d.transactions (record {
        methods_by_transaction = [];
        transactions_by_method = no_callers d.methods;
        info_by_call = [];
        method_parents = [];
      }))
      (λ mm. ok (record mm { method_parents = parents d (d.methods ++ d.transactions) })))

-- `transactions_for`: the transactions that call a method, or the transaction itself. The assertion
-- that anything else is a transaction of the design is left out.
unfoldable pub transactions_for : MethodMap → ℕ → List ℕ
transactions_for mm elem =
    if contains (keys mm.transactions_by_method) elem
    then targets mm.transactions_by_method elem
    else elem ∷ []

unfoldable pub ready_for_transaction : MethodMap → ℕ → List ℕ
ready_for_transaction mm t = t ∷ targets mm.methods_by_transaction t

-- `info_by_call[(t, m)]`
abbrev pub calls_by : List (ℕ × Visit) → ℕ → ℕ → List CallInfo
calls_by [] t m = []
calls_by ((u, (n, i)) ∷ infos) t m =
    let rest = calls_by infos t m in if u == t && n == m then i ∷ rest else rest
