-- ===== src/Ctrl/Exclusive.antt =====
-- What `exclusive_with` and `call_paths_exclusive` decide: under no choice of alternatives of the
-- control structures do both paths run.
use transactron.Prelude.{
  ℕ, Bool, true, false, not, ◌&&◌, Option, none, some, List, [], ◌∷◌, ◌==◌, ==_refl, if◌then◌else◌,
  length, arith, ◌≡◌, ◌↔◌, refl, Bool-cases, inl, inr,
}
use transactron.Ctrl.{PathEdge, edge_eq, CtrlPath, common_prefix, exclusive_with}

-- Which alternative each control structure of a module takes, if any: a structure is named by the
-- path to it and its number among the parallel structures there.
abbrev pub Choice : Type 0
Choice = List PathEdge → ℕ → Option ℕ

-- The choices of the structures inside one alternative.
abbrev pub inside : Choice → PathEdge → Choice
inside c e pre par = c (e ∷ pre) par

-- The path's code runs: every structure on it takes the path's alternative.
abbrev pub Runs : Choice → List PathEdge → Type 0
Runs c [] = Unit
Runs c (e ∷ p) = (c [] e.par ≡ some e.alt) × Runs (inside c e) p

abbrev pub RunsIn : (ℕ → Choice) → CtrlPath → Type 0
RunsIn c p = Runs (c p.module_uid) p.path

abbrev diverge : List PathEdge → List PathEdge → Bool
diverge [] q = false
diverge (a ∷ p) [] = false
diverge (a ∷ p) (b ∷ q) = let rest = diverge p q in if edge_eq a b then rest else a.par == b.par

edge_eq→eq : (a b : PathEdge) → edge_eq a b ≡ true → a ≡ b
edge_eq→eq a b h = ground arith

edge_eq_refl : (a : PathEdge) → edge_eq a a ≡ true
edge_eq_refl a = ground arith

-- The code's test, for paths of one module.
abbrev test : Option (List PathEdge) → List PathEdge → List PathEdge → Bool
test o p q = elim o [
  | none ↦ false
  | some c ↦ not (length c == length p) && not (length c == length q)
]

common_prefix-diverge : (p q : List PathEdge) → test (common_prefix p q) p q ≡ diverge p q
unfolding common_prefix
common_prefix-diverge [] q = refl
common_prefix-diverge (a ∷ p) [] = ground arith
common_prefix-diverge (a ∷ p) (b ∷ q) = ground (arith, common_prefix-diverge p q)

exclusive_with-diverge :
    (p q : CtrlPath) → exclusive_with p q ≡ (p.module_uid == q.module_uid && diverge p.path q.path)
unfolding exclusive_with
exclusive_with-diverge p q = ground (arith, common_prefix-diverge p.path q.path)

diverge_sound : (c : Choice) (p q : List PathEdge) → diverge p q ≡ true → Runs c p → Runs c q → ⊥
diverge_sound c [] q h x y = cc
diverge_sound c (a ∷ p) [] h x y = cc
diverge_sound c (a ∷ p) (b ∷ q) h x y = elim (Bool-cases (edge_eq a b)) [
  | inl same ↦
      let e : b ≡ a = edge_eq→eq b a (ground arith) in
      diverge_sound (inside c a) p q (rw same at h) x.1 (rw e at y.1)
  | inr other ↦ ground arith
]

-- The choices that a path asks for, and none besides.
abbrev follow : List PathEdge → Choice
follow [] pre par = none
follow (e ∷ p) [] par = if e.par == par then some e.alt else none
follow (e ∷ p) (x ∷ pre) par = let rest = follow p pre par in if edge_eq e x then rest else none

abbrev first : Option ℕ → Option ℕ → Option ℕ
first (some a) y = some a
first none y = y

-- The first path's choices, and where it asks for none the second's.
abbrev both : List PathEdge → List PathEdge → Choice
both p q pre par = first (follow p pre par) (follow q pre par)

Runs-ext :
    (c d : Choice) (p : List PathEdge)
    → ((pre : List PathEdge) (par : ℕ) → c pre par ≡ d pre par)
    → Runs c p
    → Runs d p
Runs-ext c d [] h r = tt
Runs-ext c d (e ∷ p) h r = (
  ground (arith, h [] e.par),
  Runs-ext (inside c e) (inside d e) p (λ pre par. h (e ∷ pre) par) r.1,
)

both_left : (p q : List PathEdge) → Runs (both p q) p
both_left [] q = tt
both_left (e ∷ p) [] = (
  ground arith,
  Runs-ext (both p []) (inside (both (e ∷ p) []) e) p (λ pre par. ground arith) (both_left p []),
)
both_left (e ∷ p) (b ∷ q) = elim (Bool-cases (edge_eq b e)) [
  | inl same ↦ (
    ground arith,
    Runs-ext (both p q) (inside (both (e ∷ p) (b ∷ q)) e) p (λ pre par. ground arith)
        (both_left p q),
  )
  | inr other ↦ (
    ground arith,
    Runs-ext (both p []) (inside (both (e ∷ p) (b ∷ q)) e) p (λ pre par. ground arith)
        (both_left p []),
  )
]

follow-Runs : (p : List PathEdge) → Runs (follow p) p
follow-Runs p =
    Runs-ext (both p []) (follow p) p
      (λ pre par. elim (follow p pre par) as (λ o. first o none ≡ o) [
        | none ↦ refl
        | some a ↦ refl
      ])
      (both_left p [])

both_right : (p q : List PathEdge) → diverge p q ≡ false → Runs (both p q) q
both_right [] q h = follow-Runs q
both_right (a ∷ p) [] h = tt
both_right (a ∷ p) (b ∷ q) h = elim (Bool-cases (edge_eq a b)) [
  | inl same ↦ (
    ground arith,
    Runs-ext (both p q) (inside (both (a ∷ p) (b ∷ q)) b) q (λ pre par. ground arith)
        (both_right p q (ground arith)),
  )
  | inr other ↦ (
    ground arith,
    Runs-ext (follow q) (inside (both (a ∷ p) (b ∷ q)) b) q (λ pre par. ground arith)
        (follow-Runs q),
  )
]

abbrev split : ℕ → Choice → Choice → ℕ → Choice
split m c d k = if k == m then c else d

meet : (p q : CtrlPath) → exclusive_with p q ≡ false → (c : ℕ → Choice) × RunsIn c p × RunsIn c q
meet p q h = elim (Bool-cases (p.module_uid == q.module_uid)) [
  | inl same ↦ (
    (λ k. both p.path q.path),
    both_left p.path q.path,
    both_right p.path q.path (ground (arith, exclusive_with-diverge p q)),
  )
  | inr other ↦
      let c = split p.module_uid (follow p.path) (follow q.path) in
      let l : c p.module_uid ≡ follow p.path = rw (==_refl p.module_uid) refl in
      let n : (q.module_uid == p.module_uid) ≡ false = ground arith in
      let r : c q.module_uid ≡ follow q.path = rw n refl in
      (c, rw l (follow-Runs p.path), rw r (follow-Runs q.path))
]

-- `exclusive_with` says true of two paths exactly when no choice of alternatives, of all the
-- control structures of all modules, runs the code at both.
pub exclusive_with_iff :
    (p q : CtrlPath)
    → (exclusive_with p q ≡ true) ↔ ((c : ℕ → Choice) → RunsIn c p → RunsIn c q → ⊥)
exclusive_with_iff p q = (
  λ h c x y.
      let (same, far) = exclusive_true p q h in
      diverge_sound (c p.module_uid) p.path q.path far x (rw (← same) at y),
  λ none_runs. elim (Bool-cases (exclusive_with p q)) [
    | inl h ↦ h
    | inr h ↦ let (c, x, y) = meet p q h in absurd (none_runs c x y)
  ],
)
  where
    exclusive_true :
        (p q : CtrlPath)
        → exclusive_with p q ≡ true
        → (p.module_uid ≡ q.module_uid) × (diverge p.path q.path ≡ true)
    exclusive_true p q h = ground (arith, exclusive_with-diverge p q)
