-- ===== src/Manager/Simultaneous.antt =====
-- `TransactionManager._simultaneous` of transactron/core/manager.py: the transactions that must run
-- in one cycle are merged into new ones. A set of transactions is a list in the order of the
-- additions, and two such lists are compared as sets; a set that Python goes through in an order of
-- its own is gone through in this one.
pub mod Sets
pub mod Counting
pub mod Closure
pub mod Maximal
pub mod Independent
pub mod Pairs
pub mod Conditional
pub mod Merge
pub mod Merged
pub mod Outcome
pub mod Removed
mod Tests
use transactron.Prelude.{
  ℕ, zero, suc, ◌+◌, ◌*◌, ◌^◌, Bool, true, false, not, ◌&&◌, ◌||◌, Option, none, some, List, [],
  ◌∷◌, ◌++◌, ◌==◌, if◌then◌else◌, length, contains, any, ◌⊎◌, inl, inr,
}
use transactron.Graph.{Graph, keys}
use transactron.Manager.{Priority, RelationBase, Body, Design}
use transactron.Manager.MethodMap.{MethodMap, targets, transactions_for}
use transactron.Manager.Elaborate.{methods_and_transactions, add_dependent}

abbrev pub Group : Type 0
Group = List ℕ

-- `group.issubset(group2)`, `group == group2`, `group | group2`, and whether `group & group2` has an
-- element.
abbrev pub subset : Group → Group → Bool
subset [] h = true
subset (x ∷ g) h = contains h x && subset g h

abbrev pub same : Group → Group → Bool
same g h = subset g h && subset h g

abbrev pub union : Group → Group → Group
union g [] = g
union g (x ∷ h) = union (if contains g x then g else g ++ x ∷ []) h

abbrev pub meets : Group → Group → Bool
meets g h = any (contains h) g

-- `group in groups`, and `groups.add(group)`.
abbrev pub has_group : List Group → Group → Bool
has_group gs g = any (λ h. same h g) gs

abbrev pub add_group : List Group → Group → List Group
add_group gs g = if has_group gs g then gs else gs ++ g ∷ []

-- What is raised: the two elements, or a method; `out_of_fuel` is the model's own.
pub data SimultaneityError : Type 0 where
  unsatisfiable : ℕ → ℕ → SimultaneityError
  unsupported : ℕ → SimultaneityError
  no_fuel : SimultaneityError

-- The transactions of some elements.
abbrev pub transactions_of : MethodMap → List ℕ → Group
transactions_of mm [] = []
transactions_of mm (e ∷ es) = union (transactions_of mm es) (transactions_for mm e)

-- Step 1: `independents[transaction1].add(transaction2)` for the pairs of a product.
abbrev pub add_row : Graph → ℕ → Group → Graph
add_row ind t1 [] = ind
add_row ind t1 (t2 ∷ ts) = add_row (add_dependent ind t1 t2) t1 ts

abbrev pub add_product : Graph → Group → Group → Graph
add_product ind [] ts = ind
add_product ind (t1 ∷ t1s) ts = add_product (add_row ind t1 ts) t1s ts

abbrev pub independents_of : Design → MethodMap → List ℕ → Graph → Graph
independents_of d mm [] ind = ind
independents_of d mm (e ∷ es) ind =
    let indeps = transactions_of mm (e ∷ (d.body e).independent_list) in
    independents_of d mm es (add_product ind indeps indeps)

unfoldable pub independents : Design → MethodMap → Graph
unfolding transactions_for
independents d mm = independents_of d mm (methods_and_transactions mm) []

-- The innermost loop, over the pairs of `tr1` and the transactions `tr2` of `sim_elem`.
abbrev pub add_pairs_of : Graph → ℕ → ℕ → ℕ → List ℕ → List Group → SimultaneityError ⊎ List Group
add_pairs_of ind e s t1 [] sims = inr sims
add_pairs_of ind e s t1 (t2 ∷ t2s) sims =
    let rest = add_pairs_of ind e s t1 t2s (add_group sims (union (t1 ∷ []) (t2 ∷ []))) in
    if contains (targets ind t2) t1 then inl (unsatisfiable e s) else rest

abbrev pub and_then {ℓ} :
    {A B : Type ℓ} → SimultaneityError ⊎ A → (A → SimultaneityError ⊎ B) → SimultaneityError ⊎ B
and_then (inl e) f = inl e
and_then (inr a) f = f a

abbrev pub add_product_pairs :
    Graph → ℕ → ℕ → List ℕ → List ℕ → List Group → SimultaneityError ⊎ List Group
add_product_pairs ind e s [] t2s sims = inr sims
add_product_pairs ind e s (t1 ∷ t1s) t2s sims =
    and_then (add_pairs_of ind e s t1 t2s sims) (add_product_pairs ind e s t1s t2s)

abbrev pub add_constraints :
    Graph → MethodMap → ℕ → List ℕ → List Group → SimultaneityError ⊎ List Group
add_constraints ind mm e [] sims = inr sims
add_constraints ind mm e (s ∷ ss) sims =
    and_then (add_product_pairs ind e s (transactions_for mm e) (transactions_for mm s) sims)
      (add_constraints ind mm e ss)

abbrev pub constraints_of :
    Design → MethodMap → Graph → List ℕ → List Group → SimultaneityError ⊎ List Group
constraints_of d mm ind [] sims = inr sims
constraints_of d mm ind (e ∷ es) sims =
    and_then (add_constraints ind mm e (d.body e).simultaneous_list sims)
      (constraints_of d mm ind es)

-- `simultaneous`
unfoldable pub simultaneous_pairs : Design → MethodMap → SimultaneityError ⊎ List Group
unfolding independents transactions_for
simultaneous_pairs d mm = constraints_of d mm (independents d mm) (methods_and_transactions mm) []

-- Step 2: the transitive groups.
unfoldable pub conflicting : Graph → Group → Bool
conflicting ind group =
    any (λ t1. any (λ t2. not (t1 == t2) && contains (targets ind t2) t1) group) group

abbrev pub extensions : Group → List Group → List Group
extensions g [] = []
extensions g (o ∷ sims) =
    let rest = extensions g sims in if meets g o then union g o ∷ rest else rest

-- The `while` loop on fuel, at the queue and `tr_simultaneous`.
unfoldable pub closure : ℕ → Graph → List Group → List Group → List Group → Option (List Group)
closure fuel ind sims [] tr = some tr
closure zero ind sims (g ∷ q) tr = none
closure (suc fuel) ind sims (g ∷ q) tr = elim (has_group tr g || conflicting ind g) [
  | true ↦ closure fuel ind sims q tr
  | false ↦ closure fuel ind sims (q ++ extensions g sims) (g ∷ tr)
]

-- Every group is a set of these.
abbrev pub members : List Group → Group
members [] = []
members (g ∷ gs) = union g (members gs)

-- Each of the sets of members is added once at most, and then puts one group for each pair into the
-- queue at most.
abbrev pub closure_fuel : List Group → ℕ
closure_fuel sims = length sims + (length sims + 1) * 2 ^ length (members sims)

unfoldable pub tr_simultaneous : Graph → List Group → Option (List Group)
unfolding closure conflicting
tr_simultaneous ind sims = closure (closure_fuel sims) ind sims sims []

-- Step 3: `maximal`, and `final_simultaneous`.
abbrev pub maximal : List Group → Group → Bool
maximal tr group = not (any (λ group2. subset group group2 && not (same group group2)) tr)

abbrev pub maximal_in : List Group → List Group → List Group
maximal_in tr [] = []
maximal_in tr (g ∷ gs) = let rest = maximal_in tr gs in if maximal tr g then g ∷ rest else rest

unfoldable pub final_simultaneous : Graph → List Group → Option (List Group)
unfolding tr_simultaneous
final_simultaneous ind sims = elim (tr_simultaneous ind sims) [
  | none ↦ none
  | some tr ↦ some (maximal_in tr tr)
]
