-- ===== src/Manager/Simultaneous/Conditional.antt =====
-- `_conditionally_called` of transactron/core/manager.py: the methods that are called under some
-- condition, and what they infect through simultaneity. The loop is on fuel.
use transactron.Prelude.{
  ℕ, zero, suc, ◌+◌, ◌≤◌, Bool, true, false, ◌||◌, ◌&&◌, List, [], ◌∷◌, ◌++◌, ◌==◌, ==_iff, ==_refl,
  if◌then◌else◌, length, contains, contains-append, any, In, ◌≡◌, ◌≢◌, refl, sym, ◌∙◌, subst, arith,
  Bool-cases, ◌⊎◌, inl, inr,
}
use transactron.Graph.{Graph, keys}
use transactron.Manager.{RelationBase, Design, conditional_calls}
use transactron.Manager.MethodMap.{Visit, MethodMap, targets}
use transactron.Manager.Simultaneous.{SimultaneityError, unsupported, no_fuel, Group}

-- Some caller in the chain of a call, whose first is `callee` and whose last calls from `t`, makes its
-- call under a condition.
abbrev pub chain_conditional : Design → ℕ → List ℕ → Bool
chain_conditional d t [] = false
chain_conditional d t (callee ∷ []) = contains (conditional_calls (d.body t)) callee
chain_conditional d t (callee ∷ (caller ∷ rest)) =
    contains (conditional_calls (d.body caller)) callee || chain_conditional d t (caller ∷ rest)

abbrev pub add : Group → ℕ → Group
add g v = if contains g v then g else g ++ v ∷ []

-- The first loop, over `info_by_call`.
abbrev pub conditional_methods : Design → List (ℕ × Visit) → Group → Group
conditional_methods d [] ret = ret
conditional_methods d ((t, (m, i)) ∷ infos) ret =
    conditional_methods d infos (if chain_conditional d t i.ancestors then add ret m else ret)

-- The second loop, at the stack `conditional_to_infect` (its top first) and `ret`.
abbrev pub infect_called : List ℕ → List ℕ → Group → List ℕ × Group
infect_called [] stack ret = (stack, ret)
infect_called (c ∷ called) stack ret =
    infect_called called (if contains ret c then stack else c ∷ stack) (add ret c)

-- `{relation.end for relation in method.relations if relation.ready_dependent}` has `dep`.
abbrev pub is_ready_dependent : List RelationBase → ℕ → Bool
is_ready_dependent rs dep = any (λ r. r.ready_dependent && r.end == dep) rs

abbrev pub infect_deps :
    Design → MethodMap → ℕ → List ℕ → List ℕ → Group → SimultaneityError ⊎ (List ℕ × Group)
infect_deps d mm m [] stack ret = inr (stack, ret)
infect_deps d mm m (dep ∷ deps) stack ret =
    let infected = infect_called (targets mm.methods_by_transaction dep) stack ret in
    let rest = infect_deps d mm m deps infected.0 (add infected.1 dep) in
    if is_ready_dependent (d.body m).relations dep && contains (keys mm.methods_by_transaction) dep
    then rest
    else inl (unsupported m)

abbrev pub with_state :
    SimultaneityError ⊎ (List ℕ × Group)
    → (List ℕ → Group → SimultaneityError ⊎ Group)
    → SimultaneityError ⊎ Group
with_state (inl e) f = inl e
with_state (inr (stack, ret)) f = f stack ret

unfoldable pub infect : ℕ → Design → MethodMap → List ℕ → Group → SimultaneityError ⊎ Group
infect fuel d mm [] ret = inr ret
infect zero d mm (m ∷ stack) ret = inl no_fuel
infect (suc fuel) d mm (m ∷ stack) ret =
    with_state (infect_deps d mm m (d.body m).simultaneous_list stack ret) (infect fuel d mm)

-- Every method that some transaction calls; each is put on the stack once at most.
abbrev pub all_called : Graph → List ℕ
all_called [] = []
all_called ((t, ms) ∷ g) = ms ++ all_called g

unfoldable pub conditionally_called : Design → MethodMap → SimultaneityError ⊎ Group
unfolding infect conditional_calls
conditionally_called d mm =
    let ret = conditional_methods d mm.info_by_call [] in
    infect (length ret + length (all_called mm.methods_by_transaction)) d mm ret ret

-- How many of the methods are not in `ret`.
abbrev left : Group → List ℕ → ℕ
left ret [] = 0
left ret (v ∷ vs) = (if contains ret v then 0 else 1) + left ret vs

contains-add : (g : Group) (x v : ℕ) → contains (add g x) v ≡ (contains g v || x == v)
contains-add g x v = elim (Bool-cases (contains g x)) [
  | inl e ↦ elim (Bool-cases (x == v)) [
    | inl s ↦
        let eq : x ≡ v = (==_iff x v).0 s in
        rw e (rw s (subst (λ k. contains g k ≡ true) eq e ∙ ground arith))
    | inr n ↦ rw (e, n) (ground arith)
  ]
  | inr e ↦ rw (e, contains-append g (x ∷ []) v) (ground arith)
]

left_mono : (ret : Group) (x : ℕ) (vs : List ℕ) → left (add ret x) vs ≤ left ret vs
left_mono ret x [] = omega arith
left_mono ret x (v ∷ vs) = ground (arith, contains-add ret x v, left_mono ret x vs)

left_drops :
    (ret : Group) (x : ℕ) (vs : List ℕ)
    → In x vs
    → contains ret x ≡ false
    → left (add ret x) vs + 1 ≤ left ret vs
left_drops ret x [] m new = cc
left_drops ret x (v ∷ vs) m new = elim (Bool-cases (v == x)) [
  | inl e ↦
      let eq : x ≡ v = sym ((==_iff v x).0 e) in
      let fresh : contains ret v ≡ false = subst (λ k. contains ret k ≡ false) eq new in
      let now : contains (add ret x) v ≡ true = ground (arith, contains-add ret x v) in
      rw (fresh, now) (omega (arith, left_mono ret x vs))
  | inr e ↦ ground (arith, contains-add ret x v, left_drops ret x vs (ground arith) new)
]

left-le : (ret : Group) (vs : List ℕ) → left ret vs ≤ length vs
left-le ret [] = omega arith
left-le ret (v ∷ vs) = ground (arith, left-le ret vs)

one-bound :
    (c : ℕ) (stack : List ℕ) (ret : Group) (vs : List ℕ)
    → In c vs
    → length (if contains ret c then stack else c ∷ stack) + left (add ret c) vs
      ≤ length stack + left ret vs
one-bound c stack ret vs m = elim (Bool-cases (contains ret c)) [
  | inl e ↦ rw e (omega arith)
  | inr e ↦ let drop = rw e at (left_drops ret c vs m e) in rw e (omega arith)
]

infect_called-bound :
    (called stack : List ℕ) (ret : Group) (vs : List ℕ)
    → ((v : ℕ) → In v called → In v vs)
    → length (infect_called called stack ret).0 + left (infect_called called stack ret).1 vs
      ≤ length stack + left ret vs
infect_called-bound [] stack ret vs f = omega arith
infect_called-bound (c ∷ called) stack ret vs f =
    let stack' = if contains ret c then stack else c ∷ stack in
    omega (
      arith,
      infect_called-bound called stack' (add ret c) vs (λ v m. f v (ground arith)),
      one-bound c stack ret vs (f c (ground (arith, ==_refl c))),
    )

targets-all_called : (g : Graph) (t v : ℕ) → In v (targets g t) → In v (all_called g)
targets-all_called [] t v m = cc
targets-all_called ((k, ms) ∷ g) t v m =
    ground (arith, targets-all_called g t v, contains-append ms (all_called g) v)

module _ (d : Design) (mm : MethodMap) where
  abbrev called_methods : List ℕ
  called_methods = all_called mm.methods_by_transaction

  infect_deps-bound :
      (m : ℕ) (deps stack : List ℕ) (ret : Group) (stack' : List ℕ) (ret' : Group)
      → infect_deps d mm m deps stack ret ≡ inr (stack', ret')
      → length stack' + left ret' called_methods ≤ length stack + left ret called_methods
  infect_deps-bound m [] stack ret stack' ret' e = ground arith
  infect_deps-bound m (dep ∷ deps) stack ret stack' ret' e =
      let infected = infect_called (targets mm.methods_by_transaction dep) stack ret in
      ground (
        arith,
        infect_deps-bound m deps infected.0 (add infected.1 dep) stack' ret',
        left_mono infected.1 dep called_methods,
        infect_called-bound (targets mm.methods_by_transaction dep) stack ret called_methods
            (λ v k. targets-all_called mm.methods_by_transaction dep v k),
      )

  with_state-cases :
      (r : SimultaneityError ⊎ (List ℕ × Group))
      → ((e : SimultaneityError) × (r ≡ inl e))
        ⊎ ((s : List ℕ) × (ret : Group) × (r ≡ inr (s, ret)))
  with_state-cases (inl e) = inl (e, refl)
  with_state-cases (inr (s, ret)) = inr (s, ret, refl)

  infect_deps-error :
      (m : ℕ) (deps stack : List ℕ) (ret : Group) (e : SimultaneityError)
      → infect_deps d mm m deps stack ret ≡ inl e
      → e ≡ unsupported m
  infect_deps-error m [] stack ret e h = cc
  infect_deps-error m (dep ∷ deps) stack ret e h =
      let infected = infect_called (targets mm.methods_by_transaction dep) stack ret in
      ground (arith, infect_deps-error m deps infected.0 (add infected.1 dep) e)

  infect-ends :
      (fuel : ℕ) (stack : List ℕ) (ret : Group)
      → length stack + left ret called_methods ≤ fuel
      → infect fuel d mm stack ret ≢ inl no_fuel
  unfolding infect
  infect-ends zero [] ret bound h = cc
  infect-ends (suc fuel) [] ret bound h = cc
  infect-ends zero (m ∷ stack) ret bound h = absurd (omega arith)
  infect-ends (suc fuel) (m ∷ stack) ret bound h =
      elim (with_state-cases (infect_deps d mm m (d.body m).simultaneous_list stack ret)) [
        | inl (e, eq) ↦
            let bad = infect_deps-error m (d.body m).simultaneous_list stack ret e eq in
            let h' = rw (eq, infect) at h in cc
        | inr (s, r, eq) ↦
            infect-ends fuel s r
              (omega (arith, infect_deps-bound m (d.body m).simultaneous_list stack ret s r eq))
              (rw (eq, infect) at h)
      ]

  infect-error :
      (fuel : ℕ) (stack : List ℕ) (ret : Group) (e : SimultaneityError)
      → infect fuel d mm stack ret ≡ inl e
      → (e ≡ no_fuel) ⊎ ((m : ℕ) × (e ≡ unsupported m))
  unfolding infect
  infect-error zero [] ret e h = cc
  infect-error (suc fuel) [] ret e h = cc
  infect-error zero (m ∷ stack) ret e h = inl (cc h)
  infect-error (suc fuel) (m ∷ stack) ret e h =
      elim (with_state-cases (infect_deps d mm m (d.body m).simultaneous_list stack ret)) [
        | inl (e', eq) ↦
            let bad = infect_deps-error m (d.body m).simultaneous_list stack ret e' eq in
            let h' = rw (eq, infect) at h in inr (m, cc)
        | inr (s, r, eq) ↦ infect-error fuel s r e (rw (eq, infect) at h)
      ]

-- The only exception of `_conditionally_called` is that of an unsupported constraint.
pub conditionally_called-error :
    (d : Design) (mm : MethodMap) (e : SimultaneityError)
    → conditionally_called d mm ≡ inl e
    → (e ≡ no_fuel) ⊎ ((m : ℕ) × (e ≡ unsupported m))
unfolding conditionally_called
conditionally_called-error d mm e h =
    let ret = conditional_methods d mm.info_by_call [] in
    infect-error d mm (length ret + length (all_called mm.methods_by_transaction)) ret ret e h

-- `_conditionally_called` ends.
pub conditionally_called-ends :
    (d : Design) (mm : MethodMap) → conditionally_called d mm ≢ inl no_fuel
unfolding conditionally_called
conditionally_called-ends d mm h =
    let ret = conditional_methods d mm.info_by_call [] in
    infect-ends d mm (length ret + length (all_called mm.methods_by_transaction)) ret ret
      (omega (arith, left-le ret (all_called mm.methods_by_transaction))) h
