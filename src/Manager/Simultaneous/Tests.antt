-- ===== src/Manager/Simultaneous/Tests.antt =====
-- A transaction 10 that is simultaneous with 11 and 12, which both call method 0, and a transaction
-- 13 on its own: 10 is merged with each of the two.
use transactron.Prelude.{
  ℕ, true, false, Option, some, List, [], ◌∷◌, ◌==◌, if◌then◌else◌, contains, ◌≡◌, ◌≢◌, refl, arith,
  inl, inr, ◌||◌,
}
use mathlib.Core.Option
use transactron.Manager.{Body, Design, simultaneous_with, simultaneous_alternatives}
use transactron.Manager.MethodMap.{MethodMap, ok, method_map}
use transactron.Manager.Tests.{body_path, body_calling, call_in}
use transactron.Manager.Simultaneous.{
  Group, independents, simultaneous_pairs, final_simultaneous, unsatisfiable, no_fuel,
}
use transactron.Manager.Simultaneous.Independent.{both_reach}
use transactron.Manager.Simultaneous.Pairs.{demanded}
use transactron.Manager.Simultaneous.Maximal.{IsFinal, final_simultaneous-IsFinal}
use transactron.Manager.Simultaneous.Merge.{Merging, merging, simultaneous}
use transactron.Manager.Simultaneous.Merged.{Merges}
use transactron.Manager.Simultaneous.Outcome.{
  simultaneous-Merges, simultaneous-ends, simultaneous_unsatisfiable,
}
use transactron.Manager.Simultaneous.Removed.{
  Mutual, Declared, contains-simultaneous_with, simultaneous_with-Mutual,
  merged_transaction_removed,
}

abbrev alone : ℕ → Body
alone b = if b == 11 || b == 12 then body_calling b ((0, call_in b) ∷ []) else body_calling b []

abbrev merged_design : Design
merged_design = record {
  body = simultaneous_with alone 10 (11 ∷ 12 ∷ []);
  transactions = 10 ∷ 11 ∷ 12 ∷ 13 ∷ [];
  methods = 0 ∷ [];
}

abbrev calls_map : MethodMap
calls_map = record {
  methods_by_transaction = (10, []) ∷ (11, 0 ∷ []) ∷ (12, 0 ∷ []) ∷ (13, []) ∷ [];
  transactions_by_method = (0, 11 ∷ 12 ∷ []) ∷ [];
  info_by_call =
      (
        11,
        (
          0,
          record { ancestors = 0 ∷ []; call_path = body_path 11 ∷ []; arg = 11; enable = 11 ∷ [] },
        ),
      )
      ∷ (
        12,
        (
          0,
          record { ancestors = 0 ∷ []; call_path = body_path 12 ∷ []; arg = 12; enable = 12 ∷ [] },
        ),
      )
      ∷ [];
  method_parents = (0, 11) ∷ (0, 12) ∷ [];
}

calls_map_built : method_map merged_design ≡ ok calls_map
unfolding method_map simultaneous_with
calls_map_built = refl

abbrev pairs : List Group
pairs = (10 ∷ 11 ∷ []) ∷ (10 ∷ 12 ∷ []) ∷ []

pairs_lem : simultaneous_pairs merged_design calls_map ≡ inr pairs
unfolding simultaneous_pairs simultaneous_with
pairs_lem = refl

groups_lem :
    final_simultaneous (independents merged_design calls_map) pairs
    ≡ some ((10 ∷ 12 ∷ []) ∷ (10 ∷ 11 ∷ []) ∷ [])
unfolding final_simultaneous independents simultaneous_with
groups_lem = refl

abbrev result : Merging
result = merging merged_design calls_map [] ((10 ∷ 12 ∷ []) ∷ (10 ∷ 11 ∷ []) ∷ [])

merged_lem : simultaneous merged_design calls_map ≡ inr result
unfolding simultaneous simultaneous_with
merged_lem = refl

simultaneous-Merges_example : Merges merged_design calls_map result.groups
simultaneous-Merges_example = simultaneous-Merges merged_design calls_map result merged_lem

simultaneous-ends_example : simultaneous merged_design calls_map ≢ inl no_fuel
simultaneous-ends_example = simultaneous-ends merged_design calls_map

final_simultaneous-IsFinal_example :
    (groups : List Group) × (final_simultaneous (independents merged_design calls_map) pairs
      ≡ some groups)
    × IsFinal (independents merged_design calls_map) pairs groups
final_simultaneous-IsFinal_example =
    final_simultaneous-IsFinal (independents merged_design calls_map) pairs

alone-Mutual : Mutual alone
alone-Mutual e s m = ground arith

merged_design-Declared : Declared merged_design calls_map
merged_design-Declared e s me ms =
    ground (arith, contains-simultaneous_with alone 10 (11 ∷ 12 ∷ []) e s)

merged_transaction_removed_example : contains result.transactions 11 ≡ false
merged_transaction_removed_example =
    merged_transaction_removed merged_design calls_map result (10 ∷ 11 ∷ []) 11
      (simultaneous_with-Mutual alone 10 (11 ∷ 12 ∷ []) alone-Mutual) merged_design-Declared
      merged_lem refl refl

-- With 11 and 12 simultaneous there is no way to run them.
abbrev refused_design : Design
refused_design = record merged_design { body = simultaneous_with alone 11 (12 ∷ []) }

refused_lem : simultaneous refused_design calls_map ≡ inl (unsatisfiable 11 12)
unfolding simultaneous simultaneous_with
refused_lem = refl

simultaneous_unsatisfiable_example :
    (a : ℕ) × (b : ℕ) × (demanded refused_design calls_map a b ≡ true)
    × (both_reach refused_design calls_map a b ≡ true)
simultaneous_unsatisfiable_example =
    (simultaneous_unsatisfiable refused_design calls_map).0 11 12 refused_lem

-- Without a common method, `simultaneous_alternatives` makes the alternatives independent.
alternatives : Option (ℕ → Body)
alternatives = simultaneous_alternatives (λ b. body_calling b []) 10 (11 ∷ 12 ∷ [])

alternatives_lem :
    Option.map (λ body. body 11) alternatives
    ≡ some (record (body_calling 11 []) { simultaneous_list = 10 ∷ []; independent_list = 12 ∷ [] })
unfolding alternatives simultaneous_alternatives
alternatives_lem = refl
