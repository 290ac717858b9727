-- ===== src/Manager/Simultaneous/Maximal.antt =====
-- Step 3: the maximal groups. Every group that can be joined lies in one of them.
use transactron.Prelude.{
  ℕ, zero, suc, ◌+◌, ◌≤◌, Bool, true, false, not, ◌&&◌, some, List, [], ◌∷◌, ◌==◌, ==_iff,
  if◌then◌else◌, contains, any, In, ◌≡◌, refl, sym, ◌∙◌, subst, arith, Bool-cases, ◌⊎◌, inl, inr,
}
use transactron.Graph.{Graph}
use transactron.Manager.Simultaneous.{
  Group, subset, same, members, maximal, maximal_in, final_simultaneous,
}
use transactron.Manager.Simultaneous.Sets.{
  Same, Has, AllGroups, AllGroups-find, AllGroups-map, subset-In, subset_of, same-Same, Same-same,
}
use transactron.Manager.Simultaneous.Closure.{
  Joined, Joined-Same, Joined-members, tr_simultaneous-Joined,
}

-- How many of the transactions `u` a group does not have.
abbrev missing : Group → Group → ℕ
missing g [] = 0
missing g (x ∷ u) = (if contains g x then 0 else 1) + missing g u

missing_mono : (g h u : Group) → ((v : ℕ) → In v g → In v h) → missing h u ≤ missing g u
missing_mono g h [] f = omega arith
missing_mono g h (x ∷ u) f = elim (Bool-cases (contains g x)) [
  | inl e ↦ rw (e, f x e) (omega (arith, missing_mono g h u f))
  | inr e ↦ ground (arith, missing_mono g h u f)
]

missing_drops :
    (g h u : Group) (v : ℕ)
    → ((v : ℕ) → In v g → In v h)
    → In v u
    → contains g v ≡ false
    → In v h
    → missing h u + 1 ≤ missing g u
missing_drops g h [] v f m a b = cc
missing_drops g h (x ∷ u) v f m a b = elim (Bool-cases (x == v)) [
  | inl e ↦
      let eq : v ≡ x = sym ((==_iff x v).0 e) in
      let a' : contains g x ≡ false = subst (λ k. contains g k ≡ false) eq a in
      let b' : contains h x ≡ true = subst (λ k. contains h k ≡ true) eq b in
      rw (a', b') (omega (arith, missing_mono g h u f))
  | inr e ↦
      let rest = missing_drops g h u v f (ground arith) a b in
      elim (Bool-cases (contains g x)) [
        | inl c ↦ rw (c, f x c) (omega arith)
        | inr c ↦ ground arith
      ]
]

-- A set that is not inside another one.
outside : (h g : Group) → subset h g ≡ false → (v : ℕ) × In v h × (contains g v ≡ false)
outside [] g e = cc
outside (x ∷ h) g e = elim (Bool-cases (contains g x)) [
  | inl a ↦ let (v, m, n) = outside h g (ground arith) in (v, ground arith, n)
  | inr a ↦ (x, ground arith, a)
]

any_find :
    (p : Group → Bool) (gs : List Group) → any p gs ≡ true → (h : Group) × Has gs h × (p h ≡ true)
any_find p [] e = cc
any_find p (g ∷ gs) e = elim (Bool-cases (p g)) [
  | inl a ↦ (g, ground (arith, Same-same g g (λ v. refl)), a)
  | inr a ↦ let (h, m, b) = any_find p gs (ground arith) in (h, ground arith, b)
]

none_of : (p : Group → Bool) (gs : List Group) → any p gs ≡ false → AllGroups (λ g. p g ≡ false) gs
none_of p [] e = tt
none_of p (g ∷ gs) e = (ground arith, none_of p gs (ground arith))

-- The group that is maximal has every bigger one.
maximal-same :
    (tr : List Group) (g h : Group)
    → maximal tr g ≡ true
    → Has tr h
    → ((v : ℕ) → In v g → In v h)
    → Same g h
maximal-same tr g h max m f =
    let (k, none_bigger, s) =
      AllGroups-find (λ k. (subset g k && not (same g k)) ≡ false) tr h
        (none_of (λ k. subset g k && not (same g k)) tr (ground arith)) m in
    let inside : subset g k ≡ true = subset_of g k (λ v a. s v ∙ f v a) in
    let eq : same g k ≡ true = ground arith in (λ v. same-Same g k eq v ∙ s v)

maximal_kept :
    (tr gs : List Group) → AllGroups (λ g. maximal tr g ≡ true → Has (maximal_in tr gs) g) gs
maximal_kept tr [] = tt
maximal_kept tr (g ∷ gs) = (
  (λ e. rw e (ground (arith, Same-same g g (λ v. refl)))),
  AllGroups-map (λ h. maximal tr h ≡ true → Has (maximal_in tr gs) h)
      (λ h. maximal tr h ≡ true → Has (maximal_in tr (g ∷ gs)) h) gs
      (λ h f e. let m = f e in ground arith) (maximal_kept tr gs),
)

module _ (ind : Graph) (sims : List Group) where
  -- Only maximal groups are kept, and all of them.
  kept :
      (tr gs : List Group)
      → AllGroups (Joined ind sims) gs
      → AllGroups (λ g. Joined ind sims g × (maximal tr g ≡ true)) (maximal_in tr gs)
  kept tr [] all = tt
  kept tr (g ∷ gs) all = elim (Bool-cases (maximal tr g)) [
    | inl e ↦ rw e ((all.0, e), kept tr gs all.1)
    | inr e ↦ rw e (kept tr gs all.1)
  ]

  -- Inside a maximal group.
  abbrev Below : List Group → Group → Type 0
  Below tr g = (h : Group) × Has (maximal_in tr tr) h × ((v : ℕ) → In v g → In v h)

  -- Inside a bigger group that can be joined too.
  abbrev Grows : Group → Type 0
  Grows g =
      (h : Group) × Joined ind sims h
      × ((v : ℕ) → In v g → In v h)
      × (missing h (members sims) + 1 ≤ missing g (members sims))

  module _ (tr : List Group) (sound : AllGroups (Joined ind sims) tr)
      (all : (g : Group) → Joined ind sims g → Has tr g) where
    higher : (g : Group) → Joined ind sims g → Below tr g ⊎ Grows g
    higher g j =
        let (g', keeps, s) =
          AllGroups-find (λ h. maximal tr h ≡ true → Has (maximal_in tr tr) h) tr g
            (maximal_kept tr tr) (all g j) in
        elim (Bool-cases (maximal tr g')) [
          | inl max ↦ inl (g', keeps max, λ v m. s v ∙ m)
          | inr bigger ↦
              let (h, m, p) = any_find (λ h. subset g' h && not (same g' h)) tr (ground arith) in
              let below : subset g' h ≡ true = ground arith in
              let above : subset h g' ≡ false = ground arith in
              let (v, a, b) = outside h g' above in
              let (h', j', s') = AllGroups-find (Joined ind sims) tr h sound m in
              let joined = Joined-Same ind sims j' s' in
              let f : (v : ℕ) → In v g → In v h = (λ v n. subset-In g' h v below (s v ∙ n)) in
              inr (
                h,
                joined,
                f,
                missing_drops g h (members sims) v f (Joined-members ind sims joined v a)
                    (sym (s v) ∙ b) a,
              )
        ]

    climbs : (k : ℕ) (g : Group) → missing g (members sims) ≤ k → Joined ind sims g → Below tr g
    climbs zero g bound j = elim (higher g j) [
      | inl found ↦ found
      | inr (h, jh, f, less) ↦ absurd (omega arith)
    ]
    climbs (suc k) g bound j = elim (higher g j) [
      | inl found ↦ found
      | inr (h, jh, f, less) ↦
          let (top, m, f') = climbs k h (omega arith) jh in (top, m, λ v n. f' v (f v n))
    ]

  -- What the maximal groups are.
  pub record IsFinal (groups : List Group) : Type 0 where
    pub joined : AllGroups (Joined ind sims) groups
    pub covers :
        (g : Group) → Joined ind sims g → (h : Group) × Has groups h × ((v : ℕ) → In v g → In v h)
    pub largest :
        (g h : Group) → Has groups g → Joined ind sims h → ((v : ℕ) → In v g → In v h) → Same g h

  -- Steps 2 and 3 end, and give exactly the largest of the groups that can be joined from the
  -- simultaneous pairs without two independent transactions: each group given is one, each one lies
  -- inside a group given, and none is bigger than a group given.
  pub final_simultaneous-IsFinal :
      (groups : List Group) × (final_simultaneous ind sims ≡ some groups) × IsFinal groups
  unfolding final_simultaneous
  final_simultaneous-IsFinal =
      let (tr, e, sound, all) = tr_simultaneous-Joined ind sims in
      let kept_groups = kept tr tr sound in
      (
        maximal_in tr tr,
        rw (e, final_simultaneous),
        record {
          joined =
              AllGroups-map (λ g. Joined ind sims g × (maximal tr g ≡ true)) (Joined ind sims)
                (maximal_in tr tr) (λ g p. p.0) kept_groups;
          covers = λ g j. climbs tr sound all (missing g (members sims)) g (omega arith) j;
          largest = λ g h m j f.
              let (k, p, s) =
                AllGroups-find (λ k. Joined ind sims k × (maximal tr k ≡ true)) (maximal_in tr tr) g
                  kept_groups m in
              λ v. sym (s v) ∙ maximal-same tr k h p.1 (all h j) (λ u n. f u (sym (s u) ∙ n)) v;
        },
      )
