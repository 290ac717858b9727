-- ===== src/Manager/Simultaneous/Closure.antt =====
-- The loop of step 2: it ends, and `tr_simultaneous` has exactly the groups that can be joined from
-- the simultaneous pairs without two independent transactions.
use transactron.Prelude.{
  ℕ, zero, suc, ◌+◌, ◌*◌, ◌≤◌, true, false, ◌||◌, some, List, [], ◌∷◌, ◌++◌, length, length-append,
  contains, In, ◌≡◌, refl, ap, ◌∙◌, arith, Bool-cases, inl, inr,
}
use transactron.Graph.{Graph}
use transactron.Manager.Simultaneous.{
  Group, same, union, meets, has_group, conflicting, extensions, closure, members, closure_fuel,
  tr_simultaneous,
}
use transactron.Manager.Simultaneous.Sets.{
  Same, Has, AllGroups, AllGroups-append, Compatible, conflicting-Compatible,
  Compatible-conflicting, Compatible-Same, contains-union, same-Same, Same-same, Has-Same,
  has_group-append, union-Same, meets-Same, Same_sym,
}
use transactron.Manager.Simultaneous.Counting.{
  subsets, length-subsets, Has-subsets, unseen, unseen-le, unseen_drops, length-extensions,
  Has-extensions,
}

pub members-In : (gs : List Group) (o : Group) → Has gs o → (v : ℕ) → In v o → In v (members gs)
members-In [] o m v k = cc
members-In (g ∷ gs) o m v k = elim (Bool-cases (same g o)) [
  | inl e ↦ ground (arith, same-Same g o e v, contains-union g (members gs) v)
  | inr e ↦ ground (arith, members-In gs o (ground arith) v k, contains-union g (members gs) v)
]

module _ (ind : Graph) (sims : List Group) where
  -- The groups that can be joined: a pair, or a group and a pair with a common transaction.
  pub data Joined : Group → Type 0 where
    pair : {g : Group} → Has sims g → Compatible ind g → Joined g
    grow :
        {g h : Group} (o : Group)
        → Joined g
        → Has sims o
        → meets g o ≡ true
        → Same (union g o) h
        → Compatible ind h
        → Joined h

  pub Joined-Same : {g h : Group} → Joined g → Same g h → Joined h
  Joined-Same {h = h} (pair {g} m c) s = pair (Has-Same sims g h m s) (Compatible-Same ind g h c s)
  Joined-Same {h = k} (grow {g} {h} o j m t e c) s =
      grow o j m t (λ v. e v ∙ s v) (Compatible-Same ind h k c s)

  pub Joined-Compatible : {g : Group} → Joined g → Compatible ind g
  Joined-Compatible (pair m c) = c
  Joined-Compatible (grow o j m t e c) = c

  pub Joined-members : {g : Group} → Joined g → (v : ℕ) → In v g → In v (members sims)
  Joined-members (pair {g} m c) v k = members-In sims g m v k
  Joined-members (grow {g} {h} o j m t e c) v k = elim (Bool-cases (contains g v)) [
    | inl a ↦ Joined-members j v a
    | inr b ↦ members-In sims o m v (ground (arith, contains-union g o v, e v))
  ]

  -- What a group in the queue is: joined, if it has no two independent transactions.
  abbrev Candidate : Group → Type 0
  Candidate g = (Compatible ind g → Joined g) × ((v : ℕ) → In v g → In v (members sims))

  candidates :
      (g : Group) (os : List Group)
      → Joined g
      → ((v : ℕ) → In v g → In v (members sims))
      → ((o : Group) → Has os o → Has sims o × ((v : ℕ) → In v o → In v (members sims)))
      → AllGroups Candidate (extensions g os)
  candidates g [] j f h = tt
  candidates g (o ∷ os) j f h =
      let (m, inside) = h o (ground (arith, Same-same o o (λ v. refl))) in
      let rest = candidates g os j f (λ p k. h p (ground arith)) in
      elim (Bool-cases (meets g o)) [
        | inl t ↦ rw t (
          (
            λ c. grow o j m t (λ v. refl) c,
            λ v k. elim (Bool-cases (contains g v)) [
              | inl a ↦ f v a
              | inr b ↦ inside v (ground (arith, contains-union g o v))
            ],
          ),
          rest,
        )
        | inr t ↦ rw t rest
      ]

  -- The invariant of the loop.
  record Closing (q tr : List Group) : Type 0 where
    queued : AllGroups Candidate q
    sound : AllGroups Joined tr
    pairs : (p : Group) → Has sims p → Compatible ind p → (has_group tr p || has_group q p) ≡ true
    grown :
        (g o : Group)
        → Has tr g
        → Has sims o
        → meets g o ≡ true
        → Compatible ind (union g o)
        → (has_group tr (union g o) || has_group q (union g o)) ≡ true

  -- A group that is left out: it is there already, or it has two independent transactions.
  left_out :
      (g k : Group) (q tr : List Group)
      → (has_group tr g || conflicting ind g) ≡ true
      → Compatible ind k
      → (has_group tr k || has_group (g ∷ q) k) ≡ true
      → (has_group tr k || has_group q k) ≡ true
  left_out g k q tr skip c m = elim (Bool-cases (same g k)) [
    | inl e ↦
        let s = same-Same g k e in
        elim (Bool-cases (has_group tr g)) [
          | inl old ↦ rw (Has-Same tr g k old s)
          | inr new ↦
              let free =
                Compatible-conflicting ind g (Compatible-Same ind k g c (Same_sym g k s)) in
              cc (ap (λ b. has_group tr g || b) free ∙ ap (λ b. b || false) new)
        ]
    | inr e ↦ ground arith
  ]

  skips :
      (g : Group) (q tr : List Group)
      → (has_group tr g || conflicting ind g) ≡ true
      → Closing (g ∷ q) tr
      → Closing q tr
  skips g q tr skip inv = record {
    queued = inv.queued.1;
    sound = inv.sound;
    pairs = λ p m c. left_out g p q tr skip c (inv.pairs p m c);
    grown = λ k o m s t c. left_out g (union k o) q tr skip c (inv.grown k o m s t c);
  }

  -- A group that moves from the queue to the result stays in sight.
  moved :
      (g k : Group) (q ext tr : List Group)
      → (has_group tr k || has_group (g ∷ q) k) ≡ true
      → (has_group (g ∷ tr) k || has_group (q ++ ext) k) ≡ true
  moved g k q ext tr m = ground (arith, has_group-append q ext k)

  adds :
      (g : Group) (q tr : List Group)
      → conflicting ind g ≡ false
      → Closing (g ∷ q) tr
      → Closing (q ++ extensions g sims) (g ∷ tr)
  adds g q tr free inv =
      let j = inv.queued.0.0 (conflicting-Compatible ind g free) in
      record {
        queued =
            AllGroups-append Candidate q (extensions g sims) inv.queued.1
              (candidates g sims j inv.queued.0.1 (λ o m. (m, members-In sims o m)));
        sound = (j, inv.sound);
        pairs = λ p m c. moved g p q (extensions g sims) tr (inv.pairs p m c);
        grown = λ k o m s t c. elim (Bool-cases (same g k)) [
          | inl e ↦
              let same_g = same-Same g k e in
              let t' = meets-Same k g o o (Same_sym g k same_g) (λ v. refl) t in
              let there =
                Has-Same (extensions g sims) (union g o) (union k o) (Has-extensions g o sims s t')
                  (union-Same g k o o same_g (λ v. refl)) in
              ground (arith, has_group-append q (extensions g sims) (union k o))
          | inr e ↦
              moved g (union k o) q (extensions g sims) tr (inv.grown k o (ground arith) s t c)
        ];
      }

  -- The loop ends with the invariant at an empty queue.
  closure-ends :
      (fuel : ℕ) (q tr : List Group)
      → length q + (length sims + 1) * unseen tr (subsets (members sims)) ≤ fuel
      → Closing q tr
      → (out : List Group) × (closure fuel ind sims q tr ≡ some out) × Closing [] out
  unfolding closure
  closure-ends zero [] tr bound inv = (tr, refl, inv)
  closure-ends (suc fuel) [] tr bound inv = (tr, refl, inv)
  closure-ends zero (g ∷ q) tr bound inv = absurd (omega arith)
  closure-ends (suc fuel) (g ∷ q) tr bound inv =
      elim (Bool-cases (has_group tr g || conflicting ind g)) [
        | inl skip ↦
            let (out, e, inv') = closure-ends fuel q tr (omega arith) (skips g q tr skip inv) in
            (out, rw (skip, closure) e, inv')
        | inr add ↦
            let new : has_group tr g ≡ false = ground arith in
            let free : conflicting ind g ≡ false = ground arith in
            let drop =
              unseen_drops tr (subsets (members sims)) g
                (Has-subsets g (members sims) inv.queued.0.1) new in
            let (out, e, inv') =
              closure-ends fuel (q ++ extensions g sims) (g ∷ tr)
                (grind (arith, length-append q (extensions g sims), length-extensions g sims))
                (adds g q tr free inv) in
            (out, rw (add, closure) e, inv')
      ]

  candidates_of : (gs : List Group) → ((g : Group) → Has gs g → Has sims g) → AllGroups Candidate gs
  candidates_of [] h = tt
  candidates_of (g ∷ gs) h =
      let m = h g (ground (arith, Same-same g g (λ v. refl))) in
      ((λ c. pair m c, members-In sims g m), candidates_of gs (λ k l. h k (ground arith)))

  closure-fuel :
      length sims + (length sims + 1) * unseen [] (subsets (members sims)) ≤ closure_fuel sims
  closure-fuel =
      let some_sets = unseen-le (subsets (members sims)) in
      rw (← length-subsets (members sims)) (grind arith)

  complete : (out : List Group) → Closing [] out → {g : Group} → Joined g → Has out g
  complete out inv (pair {g} m c) = ground (arith, inv.pairs g m c)
  complete out inv (grow {g} {h} o j m t e c) =
      let found = complete out inv j in
      let free = Compatible-Same ind h (union g o) c (Same_sym (union g o) h e) in
      Has-Same out (union g o) h (ground (arith, inv.grown g o found m t free)) e

  -- The loop ends, and `tr_simultaneous` has exactly the groups that can be joined.
  pub tr_simultaneous-Joined :
      (tr : List Group) × (tr_simultaneous ind sims ≡ some tr)
      × AllGroups Joined tr
      × ((g : Group) → Joined g → Has tr g)
  unfolding tr_simultaneous
  tr_simultaneous-Joined =
      let start : Closing sims [] = record {
        queued = candidates_of sims (λ g m. m);
        sound = tt;
        pairs = λ p m c. m;
        grown = λ g o m s t c. cc m;
      } in
      let (out, e, inv) = closure-ends (closure_fuel sims) sims [] closure-fuel start in
      (out, e, inv.sound, λ g j. complete out inv j)
