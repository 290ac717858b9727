-- ===== src/Ctrl/Calls.antt =====
-- Call paths, `call_paths_exclusive` of transactron/core/manager.py.
use transactron.Prelude.{
  ℕ, suc, Bool, true, false, List, [], ◌∷◌, if◌then◌else◌, length, arith, ◌≡◌, refl, Bool-cases,
  inl, inr,
}
use transactron.Ctrl.{
  CtrlPath, path_eq, ctrl_path_eq, exclusive_with, longest_common_prefix, exclusive_from,
  call_paths_exclusive,
}
use transactron.Ctrl.Exclusive.{Choice, RunsIn, exclusive_with_iff}

-- Every call on the path is made.
abbrev pub RunsAll : (ℕ → Choice) → List CtrlPath → Type 0
RunsAll c [] = Unit
RunsAll c (a ∷ p) = RunsIn c a × RunsAll c p

abbrev calls_diverge : List CtrlPath → List CtrlPath → Bool
calls_diverge [] q = false
calls_diverge (a ∷ p) [] = false
calls_diverge (a ∷ p) (b ∷ q) =
    let rest = calls_diverge p q in if ctrl_path_eq a b then rest else exclusive_with a b

exclusive_from-cons :
    (n : ℕ) (a b : CtrlPath) (p q : List CtrlPath)
    → exclusive_from (suc n) (a ∷ p) (b ∷ q) ≡ exclusive_from n p q
exclusive_from-cons n a b p q = ground arith

call_paths_exclusive_lem : (p q : List CtrlPath) → call_paths_exclusive p q ≡ calls_diverge p q
unfolding call_paths_exclusive
call_paths_exclusive_lem [] q = refl
call_paths_exclusive_lem (a ∷ p) [] = ground arith
call_paths_exclusive_lem (a ∷ p) (b ∷ q) = elim (Bool-cases (ctrl_path_eq a b)) [
  | inl same ↦
      rw (same, exclusive_from-cons (length (longest_common_prefix p q)) a b p q)
        (call_paths_exclusive_lem p q)
  | inr other ↦ rw other (ground arith)
]

calls_diverge_sound :
    (p q : List CtrlPath)
    → calls_diverge p q ≡ true
    → (c : ℕ → Choice) → RunsAll c p
    → RunsAll c q
    → ⊥
calls_diverge_sound [] q h c x y = cc
calls_diverge_sound (a ∷ p) [] h c x y = cc
calls_diverge_sound (a ∷ p) (b ∷ q) h c x y = elim (Bool-cases (ctrl_path_eq a b)) [
  | inl same ↦ calls_diverge_sound p q (ground arith) c x.1 y.1
  | inr other ↦ (exclusive_with_iff a b).0 (ground arith) c x.0 y.0
]

-- Two call paths that `call_paths_exclusive` accepts are never both taken, whatever alternatives
-- the control structures on them choose.
pub call_paths_exclusive_sound :
    (p q : List CtrlPath)
    → call_paths_exclusive p q ≡ true
    → (c : ℕ → Choice) → ¬ (RunsAll c p × RunsAll c q)
call_paths_exclusive_sound p q h c (x, y) =
    calls_diverge_sound p q (ground (arith, call_paths_exclusive_lem p q)) c x y

exclusive_with_symm : (p q : CtrlPath) → exclusive_with p q ≡ true → exclusive_with q p ≡ true
exclusive_with_symm p q h = (exclusive_with_iff q p).1 (λ c x y. (exclusive_with_iff p q).0 h c y x)

exclusive_with_comm : (p q : CtrlPath) → exclusive_with p q ≡ exclusive_with q p
exclusive_with_comm p q = ground (arith, exclusive_with_symm p q, exclusive_with_symm q p)

path_eq_comm : (p q : List _) → path_eq p q ≡ path_eq q p
path_eq_comm [] [] = refl
path_eq_comm [] (b ∷ q) = refl
path_eq_comm (a ∷ p) [] = refl
path_eq_comm (a ∷ p) (b ∷ q) = ground (arith, path_eq_comm p q)

ctrl_path_eq_comm : (p q : CtrlPath) → ctrl_path_eq p q ≡ ctrl_path_eq q p
ctrl_path_eq_comm p q = ground (arith, path_eq_comm p.path q.path)

calls_diverge_comm : (p q : List CtrlPath) → calls_diverge p q ≡ calls_diverge q p
calls_diverge_comm [] [] = refl
calls_diverge_comm [] (b ∷ q) = refl
calls_diverge_comm (a ∷ p) [] = refl
calls_diverge_comm (a ∷ p) (b ∷ q) =
    rw (ctrl_path_eq_comm a b, exclusive_with_comm a b, calls_diverge_comm p q)

pub call_paths_exclusive_comm :
    (p q : List CtrlPath) → call_paths_exclusive p q ≡ call_paths_exclusive q p
call_paths_exclusive_comm p q =
    rw (call_paths_exclusive_lem p q, call_paths_exclusive_lem q p, calls_diverge_comm p q)
