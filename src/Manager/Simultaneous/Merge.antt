-- ===== src/Manager/Simultaneous/Merge.antt =====
-- The whole of `_simultaneous` of transactron/core/manager.py: the transactions that stay, the ones
-- that become methods, and the merged transactions that call these.
use transactron.Prelude.{
  ℕ, Bool, true, false, not, ◌&&◌, Option, none, some, List, [], ◌∷◌, ◌++◌, if◌then◌else◌, contains,
  ◌⊎◌, inl, inr,
}
use transactron.Manager.{Priority, RelationBase, Body, Design}
use transactron.Manager.MethodMap.{MethodMap, targets, transactions_for}
use transactron.Manager.Elaborate.{methods_and_transactions, ready_dependencies}
use transactron.Manager.Simultaneous.{
  Group, union, SimultaneityError, no_fuel, simultaneous_pairs, independents, final_simultaneous,
}
use transactron.Manager.Simultaneous.Conditional.{conditionally_called}

-- The orderings between simultaneous elements are removed.
abbrev pub is_ordering : List ℕ → RelationBase → Bool
is_ordering all_sims r =
    not r.conflict
    && (elim r.priority [
      | Priority.undefined ↦ false
      | Priority.left ↦ true
      | Priority.right ↦ true
    ]
        && contains all_sims r.end)

abbrev pub without_orderings : List ℕ → List RelationBase → List RelationBase
without_orderings all_sims [] = []
without_orderings all_sims (r ∷ rs) =
    let rest = without_orderings all_sims rs in if is_ordering all_sims r then rest else r ∷ rest

unfoldable pub unordered : Design → MethodMap → ℕ → Body
unordered d mm b =
    let self = d.body b in
    if contains (methods_and_transactions mm) b
    then record self { relations = without_orderings self.simultaneous_list self.relations }
    else self

-- `all_simultaneous`: the transactions that some element is simultaneous with.
abbrev pub sims_of : MethodMap → List ℕ → Group → Group
sims_of mm [] all = all
sims_of mm (s ∷ ss) all = sims_of mm ss (union all (transactions_for mm s))

abbrev pub all_sims_of : Design → MethodMap → List ℕ → Group → Group
all_sims_of d mm [] all = all
all_sims_of d mm (e ∷ es) all = all_sims_of d mm es (sims_of mm (d.body e).simultaneous_list all)

unfoldable pub all_simultaneous : Design → MethodMap → Group
unfolding transactions_for
all_simultaneous d mm = all_sims_of d mm (methods_and_transactions mm) []

abbrev pub without : Group → List ℕ → List ℕ
without all [] = []
without all (t ∷ ts) = let rest = without all ts in if contains all t then rest else t ∷ rest

abbrev pub joined_transactions : List Group → Group
joined_transactions [] = []
joined_transactions (g ∷ gs) = union (joined_transactions gs) g

-- `ready_dependencies[transaction] & conditionally_called`
abbrev pub common : List ℕ → Group → List ℕ
common [] h = []
common (x ∷ g) h = let rest = common g h in if contains h x then x ∷ rest else rest

-- A merged transaction calls each member as a method. The call of a member is enabled if each of
-- `nontrivial_deps` runs.
pub record Merging : Type 0 where
  pub body : ℕ → Body
  pub transactions : List ℕ
  pub methods : List ℕ
  pub groups : List Group
  pub nontrivial_deps : ℕ → List ℕ

abbrev pub merging : Design → MethodMap → Group → List Group → Merging
merging d mm conditional groups = record {
  body = unordered d mm;
  transactions = without (all_simultaneous d mm) d.transactions;
  methods = d.methods ++ joined_transactions groups;
  groups = groups;
  nontrivial_deps = λ t. common (targets (ready_dependencies d mm) t) conditional;
}

abbrev pub with_groups :
    Design → MethodMap → Group → Option (List Group) → SimultaneityError ⊎ Merging
with_groups d mm conditional none = inl no_fuel
with_groups d mm conditional (some groups) = inr (merging d mm conditional groups)

abbrev pub with_pairs :
    Design → MethodMap → Group → SimultaneityError ⊎ List Group → SimultaneityError ⊎ Merging
with_pairs d mm conditional (inl e) = inl e
with_pairs d mm conditional (inr sims) =
    with_groups d mm conditional (final_simultaneous (independents d mm) sims)

abbrev pub with_conditional :
    Design → MethodMap → SimultaneityError ⊎ Group → SimultaneityError ⊎ Merging
with_conditional d mm (inl e) = inl e
with_conditional d mm (inr conditional) = with_pairs d mm conditional (simultaneous_pairs d mm)

unfoldable pub simultaneous : Design → MethodMap → SimultaneityError ⊎ Merging
unfolding conditionally_called simultaneous_pairs final_simultaneous
simultaneous d mm = with_conditional d mm (conditionally_called d mm)
