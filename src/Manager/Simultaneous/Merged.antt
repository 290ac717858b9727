-- ===== src/Manager/Simultaneous/Merged.antt =====
-- What the merged transactions promise: independent transactions stay apart, simultaneous ones come
-- together, and every member of a group has a partner in it.
use transactron.Prelude.{
  ℕ, true, false, ◌||◌, List, [], ◌∷◌, ◌==◌, ==_iff, ==_refl, contains, In, ◌≡◌, refl, sym, ◌∙◌,
  subst, arith, Bool-cases, ◌⊎◌, inl, inr,
}
use transactron.Manager.{Design}
use transactron.Manager.MethodMap.{MethodMap, targets, transactions_for}
use transactron.Manager.Elaborate.{methods_and_transactions}
use transactron.Manager.Simultaneous.{Group, independents}
use transactron.Manager.Simultaneous.Sets.{Has, AllGroups-find, Compatible, contains-union}
use transactron.Manager.Simultaneous.Closure.{Joined, pair, grow, Joined-Compatible}
use transactron.Manager.Simultaneous.Maximal.{IsFinal}
use transactron.Manager.Simultaneous.Independent.{
  both_reach, targets-independents, both_reach_comm, both_reach_lem,
}
use transactron.Manager.Simultaneous.Pairs.{pair_of, wanted_by, demanded_by, demanded, Demands}

sum-cases {ℓ} : {A B : Type ℓ} (m : A ⊎ B) → ((a : A) × (m ≡ inl a)) ⊎ ((b : B) × (m ≡ inr b))
sum-cases (inl a) = inl (a, refl)
sum-cases (inr b) = inr (b, refl)

pair-cases : (a b x : ℕ) → In x (pair_of a b) → (a ≡ x) ⊎ (b ≡ x)
pair-cases a b x m = elim (Bool-cases (a == x)) [
  | inl e ↦ inl ((==_iff a x).0 e)
  | inr e ↦ inr ((==_iff b x).0 (ground (arith, contains-union (a ∷ []) (b ∷ []) x)))
]

-- Two members of a pair, if they differ.
pair_members :
    (a b x y : ℕ)
    → In x (pair_of a b)
    → In y (pair_of a b)
    → (x == y) ≡ false
    → ((a ≡ x) × (b ≡ y)) ⊎ ((b ≡ x) × (a ≡ y))
pair_members a b x y mx my ne = elim (pair-cases a b x mx) [
  | inl ax ↦ elim (pair-cases a b y my) [
    | inl ay ↦ let e : x ≡ y = sym ax ∙ ay in cc (ne, (==_iff x y).1 e)
    | inr by ↦ inl (ax, by)
  ]
  | inr bx ↦ elim (pair-cases a b y my) [
    | inl ay ↦ inr (bx, ay)
    | inr by ↦ let e : x ≡ y = sym bx ∙ by in cc (ne, (==_iff x y).1 e)
  ]
]

any_pair_In :
    (d : Design) (mm : MethodMap) (e : ℕ) (ss : List ℕ) (a b : ℕ)
    → wanted_by mm e ss a b ≡ true
    → In a (transactions_for mm e)
any_pair_In d mm e [] a b w = cc
any_pair_In d mm e (s ∷ ss) a b w = ground (arith, any_pair_In d mm e ss a b)

-- A demanded pair comes from some element.
demanded-element :
    (d : Design) (mm : MethodMap) (es : List ℕ) (a b : ℕ)
    → demanded_by d mm es a b ≡ true
    → (e : ℕ) × In e es × In a (transactions_for mm e)
demanded-element d mm [] a b w = cc
demanded-element d mm (e ∷ es) a b w =
    elim (Bool-cases (wanted_by mm e (d.body e).simultaneous_list a b)) [
      | inl h ↦
          (e, ground (arith, ==_refl e), any_pair_In d mm e (d.body e).simultaneous_list a b h)
      | inr h ↦ let (f, m, t) = demanded-element d mm es a b (ground arith) in (f, ground arith, t)
    ]

module _ (d : Design) (mm : MethodMap) where
  -- The groups of a merge. `both_reach` holds of the transactions of one element, and of those of
  -- elements that are declared independent; `demanded` of a transaction of an element and one of an
  -- element that it is simultaneous with.
  pub record Merges (groups : List Group) : Type 0 where
    pub apart :
        (g : Group) (a b : ℕ)
        → Has groups g
        → In a g
        → In b g
        → (a == b) ≡ false
        → both_reach d mm a b ≡ false
    pub together :
        (a b : ℕ) → demanded d mm a b ≡ true → (g : Group) × Has groups g × In a g × In b g
    pub linked :
        (g : Group) (a : ℕ)
        → Has groups g
        → In a g
        → (b : ℕ) × In b g × ((a == b) ≡ false) × ((demanded d mm a b || demanded d mm b a) ≡ true)

  pub independent-both :
      (a b : ℕ) → contains (targets (independents d mm) b) a ≡ both_reach d mm a b
  independent-both a b = targets-independents d mm b a ∙ both_reach_comm d mm b a

  module _ (sims : List Group) (pairs : Demands (demanded d mm) (independents d mm) [] sims) where
    distinct_pair : (a b : ℕ) → demanded d mm a b ≡ true → (a == b) ≡ false
    distinct_pair a b w = elim (Bool-cases (a == b)) [
      | inr ne ↦ ne
      | inl e ↦
          let eq : a ≡ b = (==_iff a b).0 e in
          let (f, m, t) = demanded-element d mm (methods_and_transactions mm) a b w in
          let reach = both_reach_lem d mm f a a m t t in
          let reach' : both_reach d mm a b ≡ true =
            subst (λ k. both_reach d mm a k ≡ true) eq reach in
          cc (independent-both a b, pairs.allowed a b w)
    ]

    pair-Compatible :
        (a b : ℕ) → demanded d mm a b ≡ true → Compatible (independents d mm) (pair_of a b)
    pair-Compatible a b w x y mx my ne =
        let free : both_reach d mm a b ≡ false = sym (independent-both a b) ∙ pairs.allowed a b w in
        let free' : both_reach d mm b a ≡ false = both_reach_comm d mm b a ∙ free in
        elim (pair_members a b x y mx my ne) [
          | inl (ex, ey) ↦
              independent-both x y
              ∙ subst (λ k. both_reach d mm k y ≡ false) ex
                  (subst (λ k. both_reach d mm a k ≡ false) ey free)
          | inr (ex, ey) ↦
              independent-both x y
              ∙ subst (λ k. both_reach d mm k y ≡ false) ex
                  (subst (λ k. both_reach d mm b k ≡ false) ey free')
        ]

    -- A partner of each member of a pair, and so of each member of a group that can be joined.
    Partner : Group → ℕ → Type 0
    Partner g a =
        (b : ℕ) × In b g × ((a == b) ≡ false) × ((demanded d mm a b || demanded d mm b a) ≡ true)

    Partner-subset : (g h : Group) (a : ℕ) → ((v : ℕ) → In v g → In v h) → Partner g a → Partner h a
    unfolding Partner
    Partner-subset g h a f (b, m, ne, w) = (b, f b m, ne, w)

    pair-Partner : (g : Group) (a : ℕ) → Has sims g → In a g → Partner g a
    unfolding Partner
    pair-Partner g a m k = elim (pairs.only g m) [
      | inl no_set ↦ cc
      | inr (x, y, w, s) ↦
          let ne = distinct_pair x y w in
          let in_x : In x g =
            sym (s x) ∙ (contains-union (x ∷ []) (y ∷ []) x ∙ ground (arith, ==_refl x)) in
          let in_y : In y g =
            sym (s y) ∙ (contains-union (x ∷ []) (y ∷ []) y ∙ ground (arith, ==_refl y)) in
          elim (pair-cases x y a (s a ∙ k)) [
            | inl eq ↦ (
              y,
              in_y,
              subst (λ k. (k == y) ≡ false) eq ne,
              subst (λ k. (demanded d mm k y || demanded d mm y k) ≡ true) eq (rw w),
            )
            | inr eq ↦ (
              x,
              in_x,
              subst (λ k. (k == x) ≡ false) eq (ground (arith, ne)),
              subst (λ k. (demanded d mm k x || demanded d mm x k) ≡ true) eq (ground (arith, w)),
            )
          ]
    ]

    Joined-Partner :
        {g : Group} → Joined (independents d mm) sims g → (a : ℕ) → In a g → Partner g a
    Joined-Partner (pair {g} m c) a k = pair-Partner g a m k
    Joined-Partner (grow {g} {h} o j m t e c) a k = elim (Bool-cases (contains g a)) [
      | inl in_g ↦
          Partner-subset g h a (λ v n. sym (e v) ∙ (contains-union g o v ∙ rw n))
            (Joined-Partner j a in_g)
      | inr out_g ↦
          Partner-subset o h a (λ v n. sym (e v) ∙ (contains-union g o v ∙ ground arith))
            (pair-Partner o a m (ground (arith, e a, contains-union g o a)))
    ]

    pub groups-Merges :
        (groups : List Group) → IsFinal (independents d mm) sims groups → Merges groups
    unfolding Partner
    groups-Merges groups final = record {
      apart = λ g a b m ma mb ne.
          let (h, j, s) =
            AllGroups-find (Joined (independents d mm) sims) groups g final.joined m in
          sym (independent-both a b)
          ∙ Joined-Compatible (independents d mm) sims j a b (s a ∙ ma) (s b ∙ mb) ne;
      together = λ a b w.
          let (g, m, f) =
            final.covers (pair_of a b) (pair (pairs.there a b w) (pair-Compatible a b w)) in
          (
            g,
            m,
            f a (contains-union (a ∷ []) (b ∷ []) a ∙ ground (arith, ==_refl a)),
            f b (contains-union (a ∷ []) (b ∷ []) b ∙ ground (arith, ==_refl b)),
          );
      linked = λ g a m k.
          let (h, j, s) =
            AllGroups-find (Joined (independents d mm) sims) groups g final.joined m in
          let (b, mb, ne, w) = Joined-Partner j a (s a ∙ k) in (b, sym (s b) ∙ mb, ne, w);
    }
