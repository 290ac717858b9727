-- ===== src/Manager/Simultaneous/Outcome.antt =====
-- What `_simultaneous` of transactron/core/manager.py comes to: its result, its exceptions, and that
-- it ends.
use transactron.Prelude.{ℕ, true, List, [], ◌≡◌, ◌≢◌, refl, sym, ap, ◌∙◌, subst, ◌⊎◌, inl, inr}
use transactron.Manager.{Design}
use transactron.Manager.MethodMap.{MethodMap}
use transactron.Manager.Simultaneous.{
  Group, SimultaneityError, unsatisfiable, no_fuel, simultaneous_pairs, independents,
}
use transactron.Manager.Simultaneous.Maximal.{final_simultaneous-IsFinal}
use transactron.Manager.Simultaneous.Independent.{both_reach}
use transactron.Manager.Simultaneous.Pairs.{
  demanded, Demands, Refuses, Collects, simultaneous_pairs-Collects,
}
use transactron.Manager.Simultaneous.Conditional.{
  conditionally_called, conditionally_called-ends, conditionally_called-error,
}
use transactron.Manager.Simultaneous.Merge.{Merging, merging, simultaneous}
use transactron.Manager.Simultaneous.Merged.{Merges, independent-both, groups-Merges}

sum-cases {ℓ} : {A B : Type ℓ} (m : A ⊎ B) → ((a : A) × (m ≡ inl a)) ⊎ ((b : B) × (m ≡ inr b))
sum-cases (inl a) = inl (a, refl)
sum-cases (inr b) = inr (b, refl)

-- How a call of `_simultaneous` goes: an error of `_conditionally_called`, a pair that cannot be met,
-- or a merge.
pub data Course (d : Design) (mm : MethodMap) : SimultaneityError ⊎ Merging → Type 0 where
  unsupported_call :
      {e : SimultaneityError} → conditionally_called d mm ≡ inl e → Course d mm (inl e)
  refused :
      {e : SimultaneityError}
      → simultaneous_pairs d mm ≡ inl e
      → Refuses (demanded d mm) (independents d mm) e
      → Course d mm (inl e)
  merged :
      (conditional : Group) (sims groups : List Group)
      → Demands (demanded d mm) (independents d mm) [] sims
      → Merges d mm groups
      → Course d mm (inr (merging d mm conditional groups))

Collects-at :
    (d : Design) (mm : MethodMap) (r : SimultaneityError ⊎ List Group)
    → simultaneous_pairs d mm ≡ r
    → Collects (demanded d mm) (independents d mm) [] r
Collects-at d mm r e =
    subst (Collects (demanded d mm) (independents d mm) []) e (simultaneous_pairs-Collects d mm)

pub simultaneous-Course : (d : Design) (mm : MethodMap) → Course d mm (simultaneous d mm)
unfolding simultaneous
simultaneous-Course d mm = elim (sum-cases (conditionally_called d mm)) [
  | inl (e, bad) ↦ rw bad (unsupported_call bad)
  | inr (conditional, good) ↦ elim (sum-cases (simultaneous_pairs d mm)) [
    | inl (e, bad) ↦ rw (good, bad) (refused bad (Collects-at d mm (inl e) bad))
    | inr (sims, found) ↦
        let pairs = Collects-at d mm (inr sims) found in
        let (groups, ends, final) = final_simultaneous-IsFinal (independents d mm) sims in
        rw (good, found, ends)
          (merged conditional sims groups pairs (groups-Merges d mm sims pairs groups final))
  ]
]

-- When `_simultaneous` succeeds, no merged transaction has two transactions that call one method or
-- that were declared independent, every demanded pair of transactions is in some merged transaction,
-- and each member of a merged transaction has a different one in it that some constraint pairs with
-- it.
pub simultaneous-Merges :
    (d : Design) (mm : MethodMap) (out : Merging)
    → simultaneous d mm ≡ inr out
    → Merges d mm out.groups
simultaneous-Merges d mm out e = go (simultaneous d mm) (simultaneous-Course d mm) e
  where
    go : (r : SimultaneityError ⊎ Merging) → Course d mm r → r ≡ inr out → Merges d mm out.groups
    go (inl err) c h = cc
    go (inr m) (merged conditional sims groups pairs good) h =
        let same : merging d mm conditional groups ≡ out = cc in
        let eq : groups ≡ out.groups = ap (λ o. o.groups) same in subst (Merges d mm) eq good

-- `_simultaneous` ends: the infection and the transitive closure need no more steps than their fuel.
pub simultaneous-ends : (d : Design) (mm : MethodMap) → simultaneous d mm ≢ inl no_fuel
simultaneous-ends d mm = go (simultaneous d mm) (simultaneous-Course d mm)
  where
    go : (r : SimultaneityError ⊎ Merging) → Course d mm r → r ≢ inl no_fuel
    go (inl e) (unsupported_call bad) h =
        let same : e ≡ no_fuel = cc in conditionally_called-ends d mm (bad ∙ ap inl same)
    go (inl e) (refused bad r) h = cc (r.raised)
    go (inr m) c h = cc

-- The RuntimeError of unsatisfiable constraints means that some demanded pair of transactions calls
-- one method or was declared independent; and on such a design `_simultaneous` does not succeed.
pub simultaneous_unsatisfiable :
    (d : Design) (mm : MethodMap)
    → ((elem sim_elem : ℕ)
        → simultaneous d mm ≡ inl (unsatisfiable elem sim_elem)
        → (a : ℕ) × (b : ℕ) × (demanded d mm a b ≡ true) × (both_reach d mm a b ≡ true))
      × ((a b : ℕ) (out : Merging)
          → demanded d mm a b ≡ true
          → both_reach d mm a b ≡ true
          → simultaneous d mm ≢ inr out)
simultaneous_unsatisfiable d mm = (
  (λ elem sim_elem h. raised elem sim_elem (simultaneous d mm) (simultaneous-Course d mm) h),
  (λ a b out w r h. fails a b out w r (simultaneous d mm) (simultaneous-Course d mm) h),
)
  where
    raised :
        (elem sim_elem : ℕ) (r : SimultaneityError ⊎ Merging)
        → Course d mm r
        → r ≡ inl (unsatisfiable elem sim_elem)
        → (a : ℕ) × (b : ℕ) × (demanded d mm a b ≡ true) × (both_reach d mm a b ≡ true)
    raised elem sim_elem (inl e) (unsupported_call bad) h =
        elim (conditionally_called-error d mm e bad) [ inl is ↦ cc | inr (m, is) ↦ cc ]
    raised elem sim_elem (inl e) (refused bad r) h = (
      r.first,
      r.second,
      r.demanded,
      sym (independent-both d mm r.first r.second) ∙ r.independent,
    )
    raised elem sim_elem (inr m) c h = cc

    fails :
        (a b : ℕ) (out : Merging)
        → demanded d mm a b ≡ true
        → both_reach d mm a b ≡ true
        → (r : SimultaneityError ⊎ Merging) → Course d mm r
        → r ≢ inr out
    fails a b out w reach (inl e) c h = cc
    fails a b out w reach (inr m) (merged conditional sims groups pairs good) h =
        cc (pairs.allowed a b w, independent-both d mm a b)
