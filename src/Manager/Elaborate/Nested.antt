-- ===== src/Manager/Elaborate/Nested.antt =====
-- Where the calls of a method stand in the call tree of a transaction that calls it.
use transactron.Prelude.{
  ℕ, zero, suc, List, [], ◌∷◌, ◌++◌, append_assoc, append-nil, ◌==◌, ◌≡◌, refl, sym, ap, ap₂, subst,
  ◌∙◌, ◌⊎◌, inl, inr, arith, Bool-cases,
}
use transactron.Manager.{Call, Design}
use transactron.Manager.MethodMap.{
  CallInfo, ok, Visit, calls_of, info_at, loop, traverse, check_call,
}
use transactron.Manager.MethodMap.Visits.{bind-eq-ok, visits, visits_in}
use transactron.Manager.MethodMap.Contents.{infos_of}
use transactron.Manager.Conflicts.Exclusion.{IsCall}

pub infos_of-append :
    (us vs : List Visit) (n : ℕ) → infos_of (us ++ vs) n ≡ infos_of us n ++ infos_of vs n
infos_of-append [] vs n = refl
infos_of-append ((m, i) ∷ us) vs n = ground (arith, infos_of-append us vs n)

pub IsCall-append :
    {i : CallInfo} (is js : List CallInfo) → IsCall i (is ++ js) → IsCall i is ⊎ IsCall i js
IsCall-append [] js k = inr k
IsCall-append (a ∷ is) js IsCall.first = inl IsCall.first
IsCall-append (a ∷ is) js (IsCall.later k) = elim (IsCall-append is js k) [
  | inl l ↦ inl (IsCall.later l)
  | inr r ↦ inr r
]

IsCall-left : {i : CallInfo} (is js : List CallInfo) → IsCall i is → IsCall i (is ++ js)
IsCall-left [] js k = elim k [ ]
IsCall-left (a ∷ is) js IsCall.first = IsCall.first
IsCall-left (a ∷ is) js (IsCall.later k) = IsCall.later (IsCall-left is js k)

IsCall-right : {i : CallInfo} (is js : List CallInfo) → IsCall i js → IsCall i (is ++ js)
IsCall-right [] js k = k
IsCall-right (a ∷ is) js k = IsCall.later (IsCall-right is js k)

pub IsCall-cons :
    {i : CallInfo} (j : CallInfo) (is : List CallInfo) → IsCall i (j ∷ is) → (i ≡ j) ⊎ IsCall i is
IsCall-cons j is IsCall.first = inl refl
IsCall-cons j is (IsCall.later k) = inr k

pub IsCall-after :
    {i : CallInfo} (pre vs : List Visit) (n : ℕ)
    → IsCall i (infos_of vs n)
    → IsCall i (infos_of (pre ++ vs) n)
IsCall-after pre vs n k =
    subst (IsCall _) (sym (infos_of-append pre vs n))
      (IsCall-right (infos_of pre n) (infos_of vs n) k)

pub IsCall-before :
    {i : CallInfo} (vs post : List Visit) (n : ℕ)
    → IsCall i (infos_of vs n)
    → IsCall i (infos_of (vs ++ post) n)
IsCall-before vs post n k =
    subst (IsCall _) (sym (infos_of-append vs post n))
      (IsCall-left (infos_of vs n) (infos_of post n) k)

-- The calls of the method `n`, met at `i`, are a part of the list.
abbrev pub Nested : Design → List Visit → ℕ → CallInfo → Type 0
Nested d vs n i =
    (pre : List Visit) × (below : ℕ → CallInfo → List Visit) × (post : List Visit) × (vs
      ≡ pre ++ (visits_in below i (calls_of (d.body n).method_calls) ++ post))

-- A part of a part is a part.
Nested-within :
    (d : Design) (us vs ws : List Visit) (n : ℕ) (i : CallInfo)
    → Nested d vs n i
    → Nested d (us ++ (vs ++ ws)) n i
Nested-within d us vs ws n i (pre, below, post, e) =
    let calls : List Visit = visits_in below i (calls_of (d.body n).method_calls) in
    (
      us ++ pre,
      below,
      post ++ ws,
      ap (λ x. us ++ (x ++ ws)) e ∙ rw (append_assoc, append_assoc, append_assoc) refl,
    )

-- Below a call that a validated tree meets stand the calls of its method.
abbrev Nests : Design → ℕ → Type 0
Nests d fuel =
    (source : ℕ) (above : CallInfo) (sights out : List Visit)
    → traverse (check_call d) fuel d source above sights ≡ ok out
    → (n : ℕ) (i : CallInfo) → IsCall i (infos_of (visits fuel d source above) n)
    → Nested d (visits fuel d source above) n i

pub traverse-unfolded :
    (d : Design) (fuel source : ℕ) (above : CallInfo) (sights out : List Visit)
    → traverse (check_call d) fuel d source above sights ≡ ok out
    → (k : ℕ) × (visits fuel d source above
        ≡ visits_in (visits k d) above (calls_of (d.body source).method_calls))
unfolding traverse visits
traverse-unfolded d zero source above sights out h = cc
traverse-unfolded d (suc k) source above sights out h = (k, refl)

loop-Nested :
    (d : Design) (fuel : ℕ) (above : CallInfo) (cs : List (ℕ × Call)) (sights out : List Visit)
    → Nests d fuel
    → loop (check_call d) (traverse (check_call d) fuel d) above cs sights ≡ ok out
    → (n : ℕ) (i : CallInfo) → IsCall i (infos_of (visits_in (visits fuel d) above cs) n)
    → Nested d (visits_in (visits fuel d) above cs) n i
loop-Nested d fuel above [] sights out ih h n i k = elim k [ ]
loop-Nested d fuel above ((m, c) ∷ cs) sights out ih h n i k =
    let j = info_at above m c in
    let (s1, e1, h1) = bind-eq-ok (check_call d above m c sights) _ h in
    let (s2, e2, h2) = bind-eq-ok (traverse (check_call d) fuel d m j s1) _ h1 in
    let below : List Visit = visits fuel d m j in
    let rest : List Visit = visits_in (visits fuel d) above cs in
    let deep : IsCall i (infos_of (below ++ rest) n) → Nested d ((m, j) ∷ (below ++ rest)) n i =
      λ k'.
        elim (IsCall-append (infos_of below n) (infos_of rest n)
          (subst (IsCall i) (infos_of-append below rest n) k')) [
            | inl b ↦ Nested-within d ((m, j) ∷ []) below rest n i (ih m j s1 s2 e2 n i b)
            | inr r ↦
                subst (λ vs. Nested d ((m, j) ∷ vs) n i) (ap (λ x. below ++ x) (append-nil rest))
                  (Nested-within d ((m, j) ∷ below) rest [] n i
                    (loop-Nested d fuel above cs s2 out ih h2 n i r))
          ] in
    elim (Bool-cases (m == n)) [
      | inl same ↦
          let eq : m ≡ n = ground arith in
          elim (IsCall-cons j (infos_of (below ++ rest) n) (rw (same, infos_of) at k)) [
            | inl here ↦
                let (fuel', unfolded) = traverse-unfolded d fuel m j s1 s2 e2 in
                (
                  (m, j) ∷ [],
                  visits fuel' d,
                  rest,
                  ap (λ vs. (m, j) ∷ (vs ++ rest))
                      (unfolded
                        ∙ ap₂
                            (λ a x. visits_in (visits fuel' d) a (calls_of (d.body x).method_calls))
                            (sym here) eq),
                )
            | inr k' ↦ deep k'
          ]
      | inr other ↦ deep (rw (other, infos_of) at k)
    ]

pub visits-Nested : (d : Design) (fuel : ℕ) → Nests d fuel
unfolding traverse visits
visits-Nested d zero source above sights out h n i k = cc
visits-Nested d (suc fuel) source above sights out h n i k =
    loop-Nested d fuel above (calls_of (d.body source).method_calls) sights out
      (visits-Nested d fuel) h n i k

-- A call has its method as the first ancestor.
in-ancestors :
    (below : ℕ → CallInfo → List Visit) (above : CallInfo) (cs : List (ℕ × Call)) (n : ℕ)
    (i : CallInfo)
    → ((m : ℕ) (j : CallInfo)
        → IsCall i (infos_of (below m j) n)
        → (rest : List ℕ) × (i.ancestors ≡ n ∷ rest))
    → IsCall i (infos_of (visits_in below above cs) n)
    → (rest : List ℕ) × (i.ancestors ≡ n ∷ rest)
in-ancestors below above [] n i ih k = elim k [ ]
in-ancestors below above ((m, c) ∷ cs) n i ih k =
    let j = info_at above m c in
    let rest : List Visit = visits_in below above cs in
    let deep : IsCall i (infos_of (below m j ++ rest) n) → (r : List ℕ) × (i.ancestors ≡ n ∷ r) =
      λ k'.
        elim (IsCall-append (infos_of (below m j) n) (infos_of rest n)
          (subst (IsCall i) (infos_of-append (below m j) rest n) k')) [
            | inl b ↦ ih m j b
            | inr r ↦ in-ancestors below above cs n i ih r
          ] in
    elim (Bool-cases (m == n)) [
      | inr other ↦ deep (rw (other, infos_of) at k)
      | inl same ↦
          let eq : m ≡ n = ground arith in
          elim (IsCall-cons j (infos_of (below m j ++ rest) n) (rw (same, infos_of) at k)) [
            | inl here ↦ (
              above.ancestors,
              ap (λ (x : CallInfo). x.ancestors) here ∙ ap (λ x. x ∷ above.ancestors) eq,
            )
            | inr k' ↦ deep k'
          ]
    ]

pub visits-ancestors :
    (d : Design) (fuel source : ℕ) (above : CallInfo) (n : ℕ) (i : CallInfo)
    → IsCall i (infos_of (visits fuel d source above) n)
    → (rest : List ℕ) × (i.ancestors ≡ n ∷ rest)
unfolding visits
visits-ancestors d zero source above n i k = elim k [ ]
visits-ancestors d (suc fuel) source above n i k =
    in-ancestors (visits fuel d) above (calls_of (d.body source).method_calls) n i
      (λ m j. visits-ancestors d fuel m j n i) k
