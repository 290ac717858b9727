-- ===== src/Manager/MethodMap/Double.antt =====
-- What the checks of `validate_root_call_tree` rule out: two calls of an exclusive method under
-- one root that can both be made in a cycle.
use transactron.Prelude.{
  ℕ, zero, suc, bit, ◌+◌, ◌≤◌, Bool, true, false, ◌&&◌, List, [], ◌∷◌, ◌++◌, ◌==◌, if◌then◌else◌,
  arith, ◌≡◌, refl, subst, inl, inr, Bool-cases,
}
use transactron.Ctrl.{CtrlPath, call_paths_exclusive}
use transactron.Ctrl.Exclusive.{Choice}
use transactron.Ctrl.Calls.{RunsAll, call_paths_exclusive_sound}
use transactron.Ctrl.Builder.Executed.{runs, runs_iff}
use transactron.Manager.{Call, Design}
use transactron.Manager.MethodMap.{
  CallInfo, Result, ok, Visit, calls_of, info_at, loop, traverse, sights_of, called_twice,
  check_call, root_info, fuel_of, validate_root_call_tree,
}
use transactron.Manager.MethodMap.Visits.{bind-eq-ok, check_call-ok, visits, sights-eq-visits}

-- A property of the state that each step keeps holds of the result.
module _ {ℓ κ} {S : Type ℓ} (P : S → Type κ) (step : CallInfo → ℕ → Call → S → Result S)
    (keeps : (above : CallInfo) (m : ℕ) (c : Call) (s s' : S)
      → P s
      → step above m c s ≡ ok s'
      → P s')
    (d : Design) where
  loop_keeps :
      (fuel : ℕ) (above : CallInfo) (cs : List (ℕ × Call)) (s out : S)
      → ((source : ℕ) (above : CallInfo) (s out : S)
          → P s
          → traverse step fuel d source above s ≡ ok out
          → P out)
      → P s
      → loop step (traverse step fuel d) above cs s ≡ ok out
      → P out
  loop_keeps fuel above [] s out ih p h = let e : s ≡ out = cc in subst P e p
  loop_keeps fuel above ((m, c) ∷ cs) s out ih p h =
      let i = info_at above m c in
      let (s1, e1, h1) = bind-eq-ok (step above m c s) _ h in
      let (s2, e2, h2) = bind-eq-ok (traverse step fuel d m i s1) _ h1 in
      loop_keeps fuel above cs s2 out ih (ih m i s1 s2 (keeps above m c s s1 p e1) e2) h2

  traverse_keeps :
      (fuel source : ℕ) (above : CallInfo) (s out : S)
      → P s
      → traverse step fuel d source above s ≡ ok out
      → P out
  unfolding traverse
  traverse_keeps zero source above s out p h = cc
  traverse_keeps (suc fuel) source above s out p h =
      loop_keeps fuel above (calls_of (d.body source).method_calls) s out (traverse_keeps fuel) p h

abbrev ExclusiveTo : List CtrlPath → List (List CtrlPath) → Type 0
ExclusiveTo p [] = Unit
ExclusiveTo p (q ∷ qs) = (call_paths_exclusive p q ≡ true) × ExclusiveTo p qs

-- Each call of an exclusive method is exclusive with all later calls of it.
abbrev Apart : Design → List Visit → Type 0
Apart d [] = Unit
Apart d ((m, i) ∷ vs) =
    ((d.body m).nonexclusive ≡ false → ExclusiveTo i.call_path (sights_of vs m)) × Apart d vs

pub sights_of-append :
    (vs : List Visit) (n m : ℕ) (i : CallInfo)
    → sights_of (vs ++ (m, i) ∷ []) n
      ≡ (if m == n then sights_of vs n ++ i.call_path ∷ [] else sights_of vs n)
sights_of-append [] n m i = ground arith
sights_of-append ((k, j) ∷ vs) n m i = ground (arith, sights_of-append vs n m i)

ExclusiveTo-append :
    (p q : List CtrlPath) (qs : List (List CtrlPath))
    → ExclusiveTo p qs
    → call_paths_exclusive p q ≡ true
    → ExclusiveTo p (qs ++ q ∷ [])
ExclusiveTo-append p q [] h e = (e, tt)
ExclusiveTo-append p q (x ∷ qs) h e = (h.0, ExclusiveTo-append p q qs h.1 e)

-- `vs` ends in a call that `called_twice` has let pass.
Apart-append :
    (d : Design) (vs : List Visit) (m : ℕ) (i : CallInfo)
    → Apart d vs
    → called_twice d vs m i.call_path ≡ false
    → Apart d (vs ++ (m, i) ∷ [])
unfolding called_twice
Apart-append d [] m i a h = ((λ x. tt), tt)
Apart-append d ((n, j) ∷ vs) m i a h = elim (Bool-cases (n == m)) [
  | inl same ↦
      let eq : n ≡ m = ground arith in
      let same' : (m == n) ≡ true = ground arith in
      (
        λ x.
            rw (sights_of-append vs n m i, same')
              (ExclusiveTo-append j.call_path i.call_path (sights_of vs n) (a.0 x)
                (let x' : (d.body m).nonexclusive ≡ false = rw eq at x in ground arith)),
        Apart-append d vs m i a.1 (ground arith),
      )
  | inr other ↦
      let other' : (m == n) ≡ false = ground arith in
      (
        λ x. rw (sights_of-append vs n m i, other') (a.0 x),
        Apart-append d vs m i a.1 (ground arith),
      )
]

check_call-Apart :
    (d : Design) (above : CallInfo) (m : ℕ) (c : Call) (sights out : List Visit)
    → Apart d sights
    → check_call d above m c sights ≡ ok out
    → Apart d out
check_call-Apart d above m c sights out a h =
    let (e, fresh, once) = check_call-ok d above m c sights h in
    rw e (Apart-append d sights m (info_at above m c) a once)

-- The call is made: all the control structures on its path take its alternatives.
abbrev pub runs_all : (ℕ → Choice) → List CtrlPath → Bool
runs_all c [] = true
runs_all c (p ∷ path) = runs (c p.module_uid) p.path && runs_all c path

pub runs_all-RunsAll :
    (c : ℕ → Choice) (path : List CtrlPath) → runs_all c path ≡ true → RunsAll c path
runs_all-RunsAll c [] h = tt
runs_all-RunsAll c (p ∷ path) h =
    ((runs_iff (c p.module_uid) p.path).0 (ground arith), runs_all-RunsAll c path (ground arith))

-- How many of the paths are taken.
abbrev pub taken : (ℕ → Choice) → List (List CtrlPath) → ℕ
taken c [] = 0
taken c (p ∷ ps) = bit (runs_all c p) + taken c ps

taken_none :
    (c : ℕ → Choice) (p : List CtrlPath) (ps : List (List CtrlPath))
    → ExclusiveTo p ps
    → runs_all c p ≡ true
    → taken c ps ≡ 0
taken_none c p [] h r = refl
taken_none c p (q ∷ ps) h r = elim (Bool-cases (runs_all c q)) [
  | inl both ↦
      absurd
        (call_paths_exclusive_sound p q h.0 c (runs_all-RunsAll c p r, runs_all-RunsAll c q both))
  | inr not_q ↦ rw not_q (omega (arith, taken_none c p ps h.1 r))
]

Apart-taken :
    (d : Design) (c : ℕ → Choice) (vs : List Visit) (m : ℕ)
    → Apart d vs
    → (d.body m).nonexclusive ≡ false
    → taken c (sights_of vs m) ≤ 1
Apart-taken d c [] m a x = omega arith
Apart-taken d c ((n, j) ∷ vs) m a x = elim (Bool-cases (n == m)) [
  | inl same ↦
      let eq : m ≡ n = ground arith in
      elim (Bool-cases (runs_all c j.call_path)) [
        | inl run_j ↦
            rw (same, run_j)
              (omega
                (arith, taken_none c j.call_path (sights_of vs m) (rw eq (a.0 (rw eq at x))) run_j))
        | inr not_j ↦ rw (same, not_j) (omega (arith, Apart-taken d c vs m a.1 x))
      ]
  | inr other ↦ rw other (Apart-taken d c vs m a.1 x)
]

-- When the check of a root's call tree passes, of all the calls that the tree makes to a method
-- which is not nonexclusive, directly or through other methods, at most one is taken in a cycle,
-- whatever alternatives the control structures take.
pub called_once :
    (d : Design) (root : ℕ) (out : List Visit) (c : ℕ → Choice) (m : ℕ)
    → validate_root_call_tree d root ≡ ok out
    → (d.body m).nonexclusive ≡ false
    → taken c (sights_of (visits (fuel_of d) d root root_info) m) ≤ 1
unfolding validate_root_call_tree
called_once d root out c m h x =
    let all = sights-eq-visits d (fuel_of d) root root_info out h in
    let a =
      traverse_keeps (Apart d) (check_call d) (check_call-Apart d) d (fuel_of d) root root_info []
        out tt h in
    Apart-taken d c (visits (fuel_of d) d root root_info) m (rw all at a) x
