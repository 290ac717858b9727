-- ===== src/Manager/Elaborate/Taken.antt =====
-- The calls of a call tree that a cycle takes, counted against the calls of one source in it.
use transactron.Prelude.{
  ℕ, ◌+◌, ◌≤◌, bit, true, ◌&&◌, List, [], ◌∷◌, ◌++◌, ◌==◌, ◌≡◌, ◌≢◌, refl, sym, subst, ◌∙◌, inl,
  inr, arith, Bool-cases,
}
use transactron.Ctrl.Exclusive.{Choice}
use transactron.Ctrl.Builder.Executed.{runs}
use transactron.Reduce.Ones.{ones}
use transactron.Manager.{Call, Design}
use transactron.Manager.MethodMap.{CallInfo, Visit, calls_of, info_at, sights_of}
use transactron.Manager.MethodMap.Visits.{visits_in}
use transactron.Manager.MethodMap.Double.{runs_all, taken}
use transactron.Manager.MethodMap.Contents.{infos_of}
use transactron.Manager.Conflicts.Exclusion.{IsCall}
use transactron.Manager.Elaborate.{Wires, runs_in, Follows}
use transactron.Manager.Elaborate.Nested.{Nested, IsCall-cons, IsCall-after}
use transactron.Manager.Elaborate.Started.{runs_all-append}

module _ (ch : ℕ → Choice) where
  taken-skip :
      (pre vs : List Visit) (m : ℕ) → taken ch (sights_of vs m) ≤ taken ch (sights_of (pre ++ vs) m)
  taken-skip [] vs m = omega arith
  taken-skip ((n, i) ∷ pre) vs m = elim (Bool-cases (n == m)) [
    | inl same ↦ rw (same, sights_of) (omega (arith, taken-skip pre vs m))
    | inr other ↦ rw (other, sights_of) (taken-skip pre vs m)
  ]

  taken-front :
      (vs post : List Visit) (m : ℕ)
      → taken ch (sights_of vs m) ≤ taken ch (sights_of (vs ++ post) m)
  taken-front [] post m = omega arith
  taken-front ((n, i) ∷ vs) post m = elim (Bool-cases (n == m)) [
    | inl same ↦ rw (same, sights_of) (omega (arith, taken-front vs post m))
    | inr other ↦ rw (other, sights_of) (taken-front vs post m)
  ]

  -- How many of the calls are taken.
  taken_calls : List CallInfo → ℕ
  taken_calls [] = 0
  taken_calls (i ∷ is) = bit (runs_all ch i.call_path) + taken_calls is

  taken-sights_of :
      (vs : List Visit) (m : ℕ) → taken ch (sights_of vs m) ≡ taken_calls (infos_of vs m)
  unfolding taken_calls
  taken-sights_of [] m = refl
  taken-sights_of ((n, i) ∷ vs) m = elim (Bool-cases (n == m)) [
    | inl same ↦ rw (same, sights_of, infos_of) (omega (arith, taken-sights_of vs m))
    | inr other ↦ rw (other, sights_of, infos_of) (taken-sights_of vs m)
  ]

  one_taken :
      (is : List CallInfo) (i : CallInfo)
      → IsCall i is
      → runs_all ch i.call_path ≡ true
      → 1 ≤ taken_calls is
  unfolding taken_calls
  one_taken [] i k r = elim k [ ]
  one_taken (j ∷ is) i IsCall.first r = rw r (omega arith)
  one_taken (j ∷ is) i (IsCall.later k) r = omega (arith, one_taken is i k r)

  two_taken :
      (is : List CallInfo) (i j : CallInfo)
      → IsCall i is
      → IsCall j is
      → i ≢ j
      → runs_all ch i.call_path ≡ true
      → runs_all ch j.call_path ≡ true
      → 2 ≤ taken_calls is
  unfolding taken_calls
  two_taken [] i j k l ne r s = elim k [ ]
  two_taken (x ∷ is) i j k l ne r s = elim (IsCall-cons x is k) [
    | inl here ↦ elim (IsCall-cons x is l) [
      | inl here' ↦ absurd (ne (here ∙ sym here'))
      | inr l' ↦ rw (sym here, r) (omega (arith, one_taken is j l' s))
    ]
    | inr k' ↦ elim (IsCall-cons x is l) [
      | inl here' ↦ rw (sym here', s) (omega (arith, one_taken is i k' r))
      | inr l' ↦ omega (arith, two_taken is i j k' l' ne r s)
    ]
  ]

  pub both_taken :
      (vs : List Visit) (m : ℕ) (i j : CallInfo)
      → IsCall i (infos_of vs m)
      → IsCall j (infos_of vs m)
      → i ≢ j
      → runs_all ch i.call_path ≡ true
      → runs_all ch j.call_path ≡ true
      → 2 ≤ taken ch (sights_of vs m)
  both_taken vs m i j k l ne r s =
      omega (arith, taken-sights_of vs m, two_taken (infos_of vs m) i j k l ne r s)

  module _ (w : Wires) (m source : ℕ) where
    -- An active call of a source, and where its tree has it.
    abbrev pub Active : List (ℕ × Call) → Type 0
    Active cs =
        (c : Call) × (w.signals.run source ≡ true)
        × (runs (ch c.ctrl_path.module_uid) c.ctrl_path.path ≡ true)
        × ((below : ℕ → CallInfo → List Visit) (i : CallInfo)
            → IsCall (info_at i m c) (infos_of (visits_in below i cs) m))

    pub Active-call :
        (cs : List (ℕ × Call)) → Follows ch w cs → 1 ≤ ones (runs_in w m source cs) → Active cs
    Active-call [] f h = absurd (omega arith)
    Active-call ((n, c) ∷ cs) (follows, f) h =
        let later : 1 ≤ ones (runs_in w m source cs) → Active ((n, c) ∷ cs) = λ h'.
          let (x, run, path, in_tree) = Active-call cs f h' in
          (
            x,
            run,
            path,
            λ below i.
                IsCall-after ((n, info_at i n c) ∷ below n (info_at i n c)) (visits_in below i cs) m
                  (in_tree below i),
          ) in
        elim (Bool-cases (n == m)) [
          | inr other ↦ later (rw (other, runs_in) at h)
          | inl same ↦
              let eq : n ≡ m = ground arith in
              elim (Bool-cases (w.signals.run source && w.enable c.enable)) [
                | inl both ↦ (
                  c,
                  ground arith,
                  follows (ground arith),
                  λ below i.
                      rw (same, infos_of)
                        (subst
                          (λ x. IsCall (info_at i m c) (
                            info_at i x c
                            ∷ infos_of (below n (info_at i n c) ++ visits_in below i cs) m))
                          (sym eq) IsCall.first),
                )
                | inr idle ↦ later (let h' = rw (same, idle, runs_in) at h in omega (arith, h'))
              ]
        ]

    pub ones-le_taken :
        (below : ℕ → CallInfo → List Visit) (i : CallInfo) (cs : List (ℕ × Call))
        → Follows ch w cs
        → runs_all ch i.call_path ≡ true
        → ones (runs_in w m source cs) ≤ taken ch (sights_of (visits_in below i cs) m)
    ones-le_taken below i [] f r = omega arith
    ones-le_taken below i ((n, c) ∷ cs) (follows, f) r =
        let j = info_at i n c in
        let rest : List Visit = visits_in below i cs in
        let fewer : ones (runs_in w m source cs) ≤ taken ch (sights_of (below n j ++ rest) m) =
          omega (arith, ones-le_taken below i cs f r, taken-skip (below n j) rest m) in
        elim (Bool-cases (n == m)) [
          | inr other ↦ rw (other, runs_in, sights_of) fewer
          | inl same ↦ elim (Bool-cases (w.signals.run source && w.enable c.enable)) [
            | inr idle ↦ rw (same, idle, runs_in, sights_of) (omega (arith, fewer))
            | inl both ↦
                let made : runs_all ch (i.call_path ++ c.ctrl_path ∷ []) ≡ true =
                  runs_all-append ch i.call_path c.ctrl_path
                  ∙ rw (r, follows (ground arith)) refl in
                rw (same, both, made, runs_in, sights_of) (omega (arith, fewer))
          ]
        ]

    -- The active calls of one source are taken calls of a tree that holds them.
    pub Nested-ones :
        (d : Design) (vs : List Visit) (i : CallInfo)
        → Follows ch w (calls_of (d.body source).method_calls)
        → Nested d vs source i
        → runs_all ch i.call_path ≡ true
        → ones (runs_in w m source (calls_of (d.body source).method_calls))
          ≤ taken ch (sights_of vs m)
    Nested-ones d vs i f (pre, below, post, e) r =
        let cs : List (ℕ × Call) = calls_of (d.body source).method_calls in
        rw e (
          omega (
            arith,
            ones-le_taken below i cs f r,
            taken-front (visits_in below i cs) post m,
            taken-skip pre (visits_in below i cs ++ post) m,
          ))
