-- ===== src/Manager/Simultaneous/Pairs.antt =====
-- Step 1, the simultaneous pairs: what is demanded, and when it cannot be met.
use transactron.Prelude.{
  ℕ, Bool, true, false, ◌||◌, ◌&&◌, List, [], ◌∷◌, ◌==◌, contains, ◌≡◌, refl, ◌∙◌, subst, arith,
  Bool-cases, ◌⊎◌, inl, inr,
}
use transactron.Graph.{Graph}
use transactron.Manager.{Design}
use transactron.Manager.MethodMap.{MethodMap, targets, transactions_for}
use transactron.Manager.Elaborate.{methods_and_transactions}
use transactron.Manager.Simultaneous.{
  Group, same, union, has_group, add_group, SimultaneityError, unsatisfiable, and_then,
  add_pairs_of, add_product_pairs, add_constraints, constraints_of, simultaneous_pairs,
  independents,
}
use transactron.Manager.Simultaneous.Sets.{
  Same, Has, Has-Same, has_group-append, same-Same, Same-same,
}

abbrev pub pair_of : ℕ → ℕ → Group
pair_of t1 t2 = union (t1 ∷ []) (t2 ∷ [])

has_group-add :
    (gs : List Group) (g h : Group) → has_group (add_group gs g) h ≡ (has_group gs h || same g h)
has_group-add gs g h = elim (Bool-cases (has_group gs g)) [
  | inl old ↦ rw old (elim (Bool-cases (same g h)) [
    | inl s ↦ rw (s, Has-Same gs g h old (same-Same g h s))
    | inr s ↦ ground arith
  ])
  | inr new ↦ rw (new, has_group-append gs (g ∷ []) h) (ground arith)
]

-- The result of a loop that goes through the pairs `wanted` and starts with the sets `sims`: either
-- every pair is there, is not independent, and nothing else came in, or some pair is independent.
pub record Demands (wanted : ℕ → ℕ → Bool) (ind : Graph) (sims out : List Group) : Type 0 where
  pub kept : (g : Group) → Has sims g → Has out g
  pub there : (a b : ℕ) → wanted a b ≡ true → Has out (pair_of a b)
  pub allowed : (a b : ℕ) → wanted a b ≡ true → contains (targets ind b) a ≡ false
  pub only :
      (g : Group)
      → Has out g
      → Has sims g ⊎ ((a : ℕ) × (b : ℕ) × (wanted a b ≡ true) × Same (pair_of a b) g)

-- The exception, at a pair that is independent.
pub record Refuses (wanted : ℕ → ℕ → Bool) (ind : Graph) (e : SimultaneityError) : Type 0 where
  pub elem : ℕ
  pub sim_elem : ℕ
  pub raised : e ≡ unsatisfiable elem sim_elem
  pub first : ℕ
  pub second : ℕ
  pub demanded : wanted first second ≡ true
  pub independent : contains (targets ind second) first ≡ true

abbrev pub Collects : (ℕ → ℕ → Bool) → Graph → List Group → SimultaneityError ⊎ List Group → Type 0
Collects wanted ind sims (inl e) = Refuses wanted ind e
Collects wanted ind sims (inr out) = Demands wanted ind sims out

-- A transaction of `e` and one of an element that `e` is simultaneous with.
abbrev pub wanted_by : MethodMap → ℕ → List ℕ → ℕ → ℕ → Bool
wanted_by mm e [] a b = false
wanted_by mm e (s ∷ ss) a b =
    (contains (transactions_for mm e) a && contains (transactions_for mm s) b)
    || wanted_by mm e ss a b

-- The pairs that the simultaneity constraints of some elements demand.
abbrev pub demanded_by : Design → MethodMap → List ℕ → ℕ → ℕ → Bool
demanded_by d mm [] a b = false
demanded_by d mm (e ∷ es) a b =
    wanted_by mm e (d.body e).simultaneous_list a b || demanded_by d mm es a b

abbrev pub demanded : Design → MethodMap → ℕ → ℕ → Bool
demanded d mm = demanded_by d mm (methods_and_transactions mm)

module _ (ind : Graph) where
  nothing :
      (wanted : ℕ → ℕ → Bool) (sims : List Group)
      → ((a b : ℕ) → wanted a b ≡ false)
      → Demands wanted ind sims sims
  nothing wanted sims none_wanted = record {
    kept = λ g m. m;
    there = λ a b w. cc (none_wanted a b);
    allowed = λ a b w. cc (none_wanted a b);
    only = λ g m. inl m;
  }

  -- One loop after another.
  in_turn :
      (v w both : ℕ → ℕ → Bool) (sims : List Group) (m : SimultaneityError ⊎ List Group)
      (f : List Group → SimultaneityError ⊎ List Group)
      → ((a b : ℕ) → both a b ≡ (v a b || w a b))
      → Collects v ind sims m
      → ((mid : List Group) → Collects w ind mid (f mid))
      → Collects both ind sims (and_then m f)
  in_turn v w both sims (inl e) f eq c k = record {
    elem = c.elem;
    sim_elem = c.sim_elem;
    raised = c.raised;
    first = c.first;
    second = c.second;
    demanded = rw (eq c.first c.second, c.demanded);
    independent = c.independent;
  }
  in_turn v w both sims (inr mid) f eq c k = go (f mid) (k mid)
    where
      go : (r : SimultaneityError ⊎ List Group) → Collects w ind mid r → Collects both ind sims r
      go (inl e) r = record {
        elem = r.elem;
        sim_elem = r.sim_elem;
        raised = r.raised;
        first = r.first;
        second = r.second;
        demanded = ground (arith, eq r.first r.second, r.demanded);
        independent = r.independent;
      }
      go (inr out) r = record {
        kept = λ g m. r.kept g (c.kept g m);
        there = λ a b h. elim (Bool-cases (v a b)) [
          | inl e ↦ r.kept (pair_of a b) (c.there a b e)
          | inr e ↦ r.there a b (ground (arith, eq a b))
        ];
        allowed = λ a b h. elim (Bool-cases (v a b)) [
          | inl e ↦ c.allowed a b e
          | inr e ↦ r.allowed a b (ground (arith, eq a b))
        ];
        only = λ g m. elim (r.only g m) [
          | inl old ↦ elim (c.only g old) [
            | inl first ↦ inl first
            | inr (a, b, e, s) ↦ inr (a, b, rw (eq a b, e), s)
          ]
          | inr (a, b, e, s) ↦ inr (a, b, ground (arith, eq a b, e), s)
        ];
      }

  -- One pair.
  adds :
      (sims : List Group) (a b : ℕ)
      → contains (targets ind b) a ≡ false
      → Demands (λ x y. a == x && b == y) ind sims (add_group sims (pair_of a b))
  adds sims a b free = record {
    kept = λ g m. ground (arith, has_group-add sims (pair_of a b) g);
    there = λ x y h.
        let ex : a ≡ x = ground arith in
        let ey : b ≡ y = ground arith in
        let self = Same-same (pair_of a b) (pair_of a b) (λ v. refl) in
        subst (λ k. Has (add_group sims (pair_of a b)) (pair_of k y)) ex
          (subst (λ k. Has (add_group sims (pair_of a b)) (pair_of a k)) ey
            (has_group-add sims (pair_of a b) (pair_of a b) ∙ rw self (ground arith)));
    allowed = λ x y h.
        let ex : a ≡ x = ground arith in
        let ey : b ≡ y = ground arith in
        subst (λ k. contains (targets ind y) k ≡ false) ex
          (subst (λ k. contains (targets ind k) a ≡ false) ey free);
    only = λ g m. elim (Bool-cases (has_group sims g)) [
      | inl old ↦ inl old
      | inr new ↦
          let s : same (pair_of a b) g ≡ true =
            ground (arith, has_group-add sims (pair_of a b) g) in
          inr (a, b, ground arith, same-Same (pair_of a b) g s)
    ];
  }

  pairs_of :
      (e s t : ℕ) (us : List ℕ) (sims : List Group)
      → Collects (λ a b. t == a && contains us b) ind sims (add_pairs_of ind e s t us sims)
  pairs_of e s t [] sims = nothing (λ a b. t == a && contains [] b) sims (λ a b. ground arith)
  pairs_of e s t (u ∷ us) sims = elim (Bool-cases (contains (targets ind u) t)) [
    | inl bad ↦ rw bad (record {
      elem = e;
      sim_elem = s;
      raised = refl;
      first = t;
      second = u;
      demanded = ground arith;
      independent = bad;
    })
    | inr free ↦ rw free (
        in_turn (λ a b. t == a && u == b) (λ a b. t == a && contains us b)
          (λ a b. t == a && contains (u ∷ us) b) sims (inr (add_group sims (pair_of t u)))
          (add_pairs_of ind e s t us) (λ a b. ground arith) (adds sims t u free)
          (pairs_of e s t us))
  ]

  product_pairs :
      (e s : ℕ) (ts us : List ℕ) (sims : List Group)
      → Collects
          (λ a b. contains ts a && contains us b)
          ind
          sims
          (add_product_pairs ind e s ts us sims)
  product_pairs e s [] us sims = nothing (λ a b. contains [] a && contains us b) sims (λ a b. refl)
  product_pairs e s (t ∷ ts) us sims =
      in_turn (λ a b. t == a && contains us b) (λ a b. contains ts a && contains us b)
        (λ a b. contains (t ∷ ts) a && contains us b) sims (add_pairs_of ind e s t us sims)
        (add_product_pairs ind e s ts us) (λ a b. ground arith) (pairs_of e s t us sims)
        (product_pairs e s ts us)

  constraints :
      (mm : MethodMap) (e : ℕ) (ss : List ℕ) (sims : List Group)
      → Collects (wanted_by mm e ss) ind sims (add_constraints ind mm e ss sims)
  constraints mm e [] sims = nothing (wanted_by mm e []) sims (λ a b. refl)
  constraints mm e (s ∷ ss) sims =
      in_turn (λ a b. contains (transactions_for mm e) a && contains (transactions_for mm s) b)
        (wanted_by mm e ss) (wanted_by mm e (s ∷ ss)) sims
        (add_product_pairs ind e s (transactions_for mm e) (transactions_for mm s) sims)
        (add_constraints ind mm e ss) (λ a b. refl)
        (product_pairs e s (transactions_for mm e) (transactions_for mm s) sims)
        (constraints mm e ss)

  all_constraints :
      (d : Design) (mm : MethodMap) (es : List ℕ) (sims : List Group)
      → Collects (demanded_by d mm es) ind sims (constraints_of d mm ind es sims)
  all_constraints d mm [] sims = nothing (demanded_by d mm []) sims (λ a b. refl)
  all_constraints d mm (e ∷ es) sims =
      in_turn (wanted_by mm e (d.body e).simultaneous_list) (demanded_by d mm es)
        (demanded_by d mm (e ∷ es)) sims
        (add_constraints ind mm e (d.body e).simultaneous_list sims) (constraints_of d mm ind es)
        (λ a b. refl) (constraints mm e (d.body e).simultaneous_list sims) (all_constraints d mm es)

pub simultaneous_pairs-Collects :
    (d : Design) (mm : MethodMap)
    → Collects (demanded d mm) (independents d mm) [] (simultaneous_pairs d mm)
unfolding simultaneous_pairs
simultaneous_pairs-Collects d mm =
    all_constraints (independents d mm) d mm (methods_and_transactions mm) []
