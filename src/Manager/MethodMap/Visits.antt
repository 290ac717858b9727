-- ===== src/Manager/MethodMap/Visits.antt =====
-- The order in which the recursions of `MethodMap` meet the calls, and what they do at each.
use transactron.Prelude.{
  ℕ, zero, suc, false, List, [], ◌∷◌, ◌++◌, append_assoc, append-nil, contains, arith, ◌≡◌, refl,
  ap, ◌∙◌, ◌⊎◌, inl, inr,
}
use mathlib.Core.Path.{fun_ext}
use transactron.Manager.{Call, Design}
use transactron.Manager.MethodMap.{
  CallInfo, Error, Result, ok, err, bind, Visit, calls_of, info_at, loop, traverse, called_twice,
  check_call,
}

-- The calls below a source, in the order of the recursion.
abbrev pub visits_in : (ℕ → CallInfo → List Visit) → CallInfo → List (ℕ × Call) → List Visit
visits_in below above [] = []
visits_in below above ((m, c) ∷ cs) =
    (m, info_at above m c) ∷ (below m (info_at above m c) ++ visits_in below above cs)

unfoldable pub visits : ℕ → Design → ℕ → CallInfo → List Visit
visits zero d source above = []
visits (suc fuel) d source above =
    visits_in (visits fuel d) above (calls_of (d.body source).method_calls)

-- A step at each visit in turn.
abbrev pub fold {ℓ} : {S : Type ℓ} → (Visit → S → Result S) → List Visit → S → Result S
fold step [] s = ok s
fold step (v ∷ vs) s = bind (step v s) (fold step vs)

pub bind-eq-ok {ℓ κ} :
    {A : Type ℓ} {B : Type κ} (m : Result A) (f : A → Result B) {b : B}
    → bind m f ≡ ok b
    → (a : A) × (m ≡ ok a) × (f a ≡ ok b)
bind-eq-ok (ok a) f h = (a, refl, h)
bind-eq-ok (err e) f h = cc

pub fold-append {ℓ} :
    {S : Type ℓ} (step : Visit → S → Result S) (us vs : List Visit) (s : S)
    → fold step (us ++ vs) s ≡ bind (fold step us s) (fold step vs)
fold-append step [] vs s = refl
fold-append step (u ∷ us) vs s =
    elim (step u s)
      as (λ r. bind r (fold step (us ++ vs)) ≡ bind (bind r (fold step us)) (fold step vs)) [
        | ok s' ↦ fold-append step us vs s'
        | err e ↦ refl
      ]

-- What a successful check appends, and that it is no error.
pub check_call-ok :
    (d : Design) (above : CallInfo) (m : ℕ) (c : Call) (sights : List Visit) {out : List Visit}
    → check_call d above m c sights ≡ ok out
    → (out ≡ sights ++ (m, info_at above m c) ∷ [])
      × (contains above.ancestors m ≡ false)
      × (called_twice d sights m (info_at above m c).call_path ≡ false)
unfolding check_call
check_call-ok d above m c sights h = ground arith

module _ {ℓ} {S : Type ℓ} (step : Visit → S → Result S) (d : Design) where
  -- A validated tree is traversed as its list of visits.
  abbrev step_at : CallInfo → ℕ → Call → S → Result S
  step_at above m c = step (m, info_at above m c)

  abbrev Agrees : ℕ → Type ℓ
  Agrees fuel =
      (source : ℕ) (above : CallInfo) (sights out : List Visit)
      → traverse (check_call d) fuel d source above sights ≡ ok out
      → (out ≡ sights ++ visits fuel d source above)
        × ((s : S)
            → traverse step_at fuel d source above s ≡ fold step (visits fuel d source above) s)

  loop-Agrees :
      (fuel : ℕ) (above : CallInfo) (cs : List (ℕ × Call)) (sights out : List Visit)
      → Agrees fuel
      → loop (check_call d) (traverse (check_call d) fuel d) above cs sights ≡ ok out
      → (out ≡ sights ++ visits_in (visits fuel d) above cs)
        × ((s : S)
            → loop step_at (traverse step_at fuel d) above cs s
              ≡ fold step (visits_in (visits fuel d) above cs) s)
  loop-Agrees fuel above [] sights out ih h = (rw append-nil (ground (arith, h)), λ s. refl)
  loop-Agrees fuel above ((m, c) ∷ cs) sights out ih h =
      let i = info_at above m c in
      let (s1, e1, h1) = bind-eq-ok (check_call d above m c sights) _ h in
      let (s2, e2, h2) = bind-eq-ok (traverse (check_call d) fuel d m i s1) _ h1 in
      let (p1, q1) = ih m i s1 s2 e2 in
      let (p2, q2) = loop-Agrees fuel above cs s2 out ih h2 in
      let p0 = (check_call-ok d above m c sights e1).0 in
      let below = visits fuel d m i in
      let rest = visits_in (visits fuel d) above cs in
      (
        p2 ∙ rw (p1, p0, append_assoc, append_assoc),
        λ s.
            ap (bind (step (m, i) s))
              (fun_ext (λ s'. rw (q1 s', fold-append step below rest s', fun_ext q2))),
      )

  visits-Agrees : (fuel : ℕ) → Agrees fuel
  unfolding traverse visits
  visits-Agrees zero source above sights out h = cc
  visits-Agrees (suc fuel) source above sights out h =
      loop-Agrees fuel above (calls_of (d.body source).method_calls) sights out (visits-Agrees fuel)
        h

  -- Once the checks of a tree have passed, the same recursion with another step is a fold over the
  -- tree's calls.
  pub traverse-eq-fold :
      (fuel source : ℕ) (above : CallInfo) (out : List Visit)
      → traverse (check_call d) fuel d source above [] ≡ ok out
      → (s : S) → traverse step_at fuel d source above s ≡ fold step (visits fuel d source above) s
  traverse-eq-fold fuel source above out h = (visits-Agrees fuel source above [] out h).1

-- The call sights of a validated tree are its calls, in order.
pub sights-eq-visits :
    (d : Design) (fuel source : ℕ) (above : CallInfo) (out : List Visit)
    → traverse (check_call d) fuel d source above [] ≡ ok out
    → out ≡ visits fuel d source above
sights-eq-visits d fuel source above out h =
    (visits-Agrees {S = Unit {0}} (λ v s. ok s) d fuel source above [] out h).0

pub Result-cases {ℓ} :
    {A : Type ℓ} (r : Result A) → ((a : A) × (r ≡ ok a)) ⊎ ((e : Error) × (r ≡ err e))
Result-cases (ok a) = inl (a, refl)
Result-cases (err e) = inr (e, refl)
