-- ===== src/Manager/Simultaneous/Counting.antt =====
-- The sets of some members, and how many of them a set of sets does not have.
use transactron.Prelude.{
  ℕ, ◌+◌, ◌^◌, ◌≤◌, true, false, ◌||◌, ◌&&◌, List, [], ◌∷◌, ◌++◌, ◌==◌, ==_iff, if◌then◌else◌,
  length, length-append, contains, In, ◌≡◌, refl, sym, ◌∙◌, subst, arith, Bool-cases, inl, inr,
}
use native.Mathlib.Nat.{pow-suc}
use transactron.Manager.Simultaneous.{Group, same, union, meets, has_group, extensions}
use transactron.Manager.Simultaneous.Sets.{
  Has, has_group-append, Has-Same, same-Same, Same-same, union-Same, meets-Same,
}

abbrev with_each : ℕ → List Group → List Group
with_each x [] = []
with_each x (g ∷ gs) = (x ∷ g) ∷ with_each x gs

abbrev pub subsets : Group → List Group
subsets [] = [] ∷ []
subsets (x ∷ u) = subsets u ++ with_each x (subsets u)

length-with_each : (x : ℕ) (gs : List Group) → length (with_each x gs) ≡ length gs
length-with_each x [] = refl
length-with_each x (g ∷ gs) = omega (arith, length-with_each x gs)

pub length-subsets : (u : Group) → length (subsets u) ≡ 2 ^ length u
length-subsets [] = refl
length-subsets (x ∷ u) = omega (
  arith,
  length-append (subsets u) (with_each x (subsets u)),
  length-with_each x (subsets u),
  length-subsets u,
  pow-suc 2 (length u),
)

abbrev restrict : Group → Group → Group
restrict g [] = []
restrict g (x ∷ u) = let rest = restrict g u in if contains g x then x ∷ rest else rest

contains-restrict :
    (g u : Group) (v : ℕ) → contains (restrict g u) v ≡ (contains g v && contains u v)
contains-restrict g [] v = ground arith
contains-restrict g (x ∷ u) v = elim (Bool-cases (x == v)) [
  | inl e ↦
      let eq : x ≡ v = (==_iff x v).0 e in
      subst
        (λ k.
          contains (if contains g k then k ∷ restrict g u else restrict g u) v
          ≡ (contains g v && (k == v || contains u v)))
        (sym eq) (ground (arith, contains-restrict g u v))
  | inr e ↦ ground (arith, contains-restrict g u v)
]

Has-with_each : (x : ℕ) (gs : List Group) (g : Group) → Has gs g → Has (with_each x gs) (x ∷ g)
Has-with_each x [] g m = cc
Has-with_each x (k ∷ gs) g m = elim (Bool-cases (same k g)) [
  | inl e ↦
      let s = same-Same k g e in
      let t = Same-same (x ∷ k) (x ∷ g) (λ v. ground (arith, s v)) in rw t
  | inr e ↦ ground (arith, Has-with_each x gs g (ground arith))
]

Has-subsets_restrict : (g u : Group) → Has (subsets u) (restrict g u)
Has-subsets_restrict g [] = refl
Has-subsets_restrict g (x ∷ u) = elim (Bool-cases (contains g x)) [
  | inl e ↦
      rw (e, has_group-append (subsets u) (with_each x (subsets u)) (x ∷ restrict g u))
        (ground (arith, Has-with_each x (subsets u) (restrict g u) (Has-subsets_restrict g u)))
  | inr e ↦
      rw (e, has_group-append (subsets u) (with_each x (subsets u)) (restrict g u))
        (ground (arith, Has-subsets_restrict g u))
]

pub Has-subsets : (g u : Group) → ((v : ℕ) → In v g → In v u) → Has (subsets u) g
Has-subsets g u f = Has-Same (subsets u) (restrict g u) g (Has-subsets_restrict g u) (λ v.
    contains-restrict g u v
    ∙ elim (Bool-cases (contains g v)) [ inl e ↦ rw (e, f v e) | inr e ↦ rw e ])

-- How many of some sets are not among others.
abbrev pub unseen : List Group → List Group → ℕ
unseen tr [] = 0
unseen tr (s ∷ ss) = (if has_group tr s then 0 else 1) + unseen tr ss

pub unseen-le : (ss : List Group) → unseen [] ss ≤ length ss
unseen-le [] = omega arith
unseen-le (s ∷ ss) = omega (arith, unseen-le ss)

unseen_mono : (tr ss : List Group) (g : Group) → unseen (g ∷ tr) ss ≤ unseen tr ss
unseen_mono tr [] g = omega arith
unseen_mono tr (s ∷ ss) g = ground (arith, unseen_mono tr ss g)

pub unseen_drops :
    (tr ss : List Group) (g : Group)
    → Has ss g
    → has_group tr g ≡ false
    → unseen (g ∷ tr) ss + 1 ≤ unseen tr ss
unseen_drops tr [] g m new = cc
unseen_drops tr (s ∷ ss) g m new = elim (Bool-cases (same s g)) [
  | inl e ↦
      let s' = same-Same s g e in
      let listed : same g s ≡ true = Same-same g s (λ v. sym (s' v)) in
      elim (Bool-cases (has_group tr s)) [
        | inl old ↦ cc (Has-Same tr s g old s')
        | inr fresh ↦ rw (listed, fresh) (omega (arith, unseen_mono tr ss g))
      ]
  | inr e ↦ ground (arith, unseen_drops tr ss g (ground arith) new)
]

pub length-extensions : (g : Group) (sims : List Group) → length (extensions g sims) ≤ length sims
length-extensions g [] = omega arith
length-extensions g (o ∷ sims) = ground (arith, length-extensions g sims)

-- The extensions by all pairs that meet a group.
pub Has-extensions :
    (g o : Group) (sims : List Group)
    → Has sims o
    → meets g o ≡ true
    → Has (extensions g sims) (union g o)
Has-extensions g o [] m t = cc
Has-extensions g o (p ∷ sims) m t = elim (Bool-cases (same p o)) [
  | inl e ↦
      let s = same-Same p o e in
      let t' = meets-Same g g o p (λ v. refl) (λ v. sym (s v)) t in
      let joined = Same-same (union g p) (union g o) (union-Same g g p o (λ v. refl) s) in
      rw (t', joined)
  | inr e ↦ ground (arith, Has-extensions g o sims (ground arith) t)
]
