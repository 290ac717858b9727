-- ===== src/Manager/MethodMap/Fuel.antt =====
-- The fuel of the recursions is enough: a call chain without a cycle holds each method once.
use transactron.Prelude.{
  ℕ, zero, suc, ◌+◌, ◌≤◌, ◌<◌, true, false, List, [], ◌∷◌, ◌==◌, if◌then◌else◌, length, contains,
  In, arith, ◌≡◌, ◌≢◌, refl, inl, inr, Bool-cases,
}
use transactron.Graph.Search.{distinct}
use transactron.Manager.MethodMap.Visits.{Result-cases}
use transactron.Manager.{Call, Design}
use transactron.Manager.MethodMap.{
  CallInfo, ok, err, out_of_fuel, Visit, calls_of, info_at, loop, traverse, check_call, root_info,
  fuel_of, validate_root_call_tree,
}

-- Take the first `a` out.
abbrev remove : ℕ → List ℕ → List ℕ
remove a [] = []
remove a (x ∷ xs) = let rest = remove a xs in if x == a then xs else x ∷ rest

length-remove : (a : ℕ) (xs : List ℕ) → In a xs → length (remove a xs) + 1 ≡ length xs
length-remove a [] h = cc
length-remove a (x ∷ xs) h = ground (arith, length-remove a xs)

contains-remove : (a b : ℕ) (xs : List ℕ) → In b xs → (a == b) ≡ false → In b (remove a xs)
contains-remove a b [] h ne = cc
contains-remove a b (x ∷ xs) h ne = ground (arith, contains-remove a b xs)

pigeonhole :
    (xs ys : List ℕ) → distinct xs ≡ true → ((v : ℕ) → In v xs → In v ys) → length xs ≤ length ys
pigeonhole [] ys d h = omega arith
pigeonhole (x ∷ xs) ys d h =
    let x_in = h x (ground arith) in
    let rest =
      pigeonhole xs (remove x ys) (ground arith)
        (λ v m. contains-remove x v ys (h v (ground arith)) (new v m)) in
    omega (arith, rest, length-remove x ys x_in)
  where
    new : (v : ℕ) → In v xs → (x == v) ≡ false
    new v m = elim (Bool-cases (x == v)) [
      | inl same ↦ let eq : v ≡ x = ground arith in let m' : In x xs = rw eq at m in ground arith
      | inr other ↦ other
    ]

-- Every call is of a method of the design.
abbrev pub AllIn : List (ℕ × Call) → List ℕ → Type 0
AllIn [] ms = Unit
AllIn ((m, c) ∷ cs) ms = In m ms × AllIn cs ms

abbrev pub KnownMethods : Design → Type 0
KnownMethods d = (b : ℕ) → AllIn (calls_of (d.body b).method_calls) d.methods

check-fueled :
    (d : Design) (above : CallInfo) (m : ℕ) (c : Call) (s : List Visit)
    → check_call d above m c s ≢ err out_of_fuel
unfolding check_call
check-fueled d above m c s = ground arith

check-fresh :
    (d : Design) (above : CallInfo) (m : ℕ) (c : Call) (s s' : List Visit)
    → check_call d above m c s ≡ ok s'
    → contains above.ancestors m ≡ false
unfolding check_call
check-fresh d above m c s s' h = ground arith

module _ (d : Design) (known : KnownMethods d) where
  record Chain (fuel : ℕ) (above : CallInfo) : Type 0 where
    once : distinct above.ancestors ≡ true
    methods : (v : ℕ) → In v above.ancestors → In v d.methods
    deep : length d.methods < fuel + length above.ancestors

  Chain-down :
      (fuel : ℕ) (above : CallInfo) (m : ℕ) (c : Call)
      → Chain (suc fuel) above
      → In m d.methods
      → contains above.ancestors m ≡ false
      → Chain fuel (info_at above m c)
  Chain-down fuel above m c k i fresh = record {
    once = ground (arith, k.once);
    methods = λ v h. elim (Bool-cases (m == v)) [
      | inl same ↦ let eq : v ≡ m = ground arith in rw eq i
      | inr other ↦ k.methods v (ground arith)
    ];
    deep = omega (arith, k.deep);
  }

  abbrev Fueled : ℕ → Type 0
  Fueled fuel =
      (source : ℕ) (above : CallInfo) (s : List Visit)
      → Chain fuel above
      → traverse (check_call d) fuel d source above s ≢ err out_of_fuel

  loop-Fueled :
      (fuel : ℕ) (above : CallInfo) (cs : List (ℕ × Call)) (s : List Visit)
      → Fueled fuel
      → Chain (suc fuel) above
      → AllIn cs d.methods
      → loop (check_call d) (traverse (check_call d) fuel d) above cs s ≢ err out_of_fuel
  loop-Fueled fuel above [] s ih k a h = cc
  loop-Fueled fuel above ((m, c) ∷ cs) s ih k a h = elim (Result-cases (check_call d above m c s)) [
    | inr (e, failed) ↦ check-fueled d above m c s (rw failed (rw failed at h))
    | inl (s1, e1) ↦
        let i = info_at above m c in
        let k' = Chain-down fuel above m c k a.0 (check-fresh d above m c s s1 e1) in
        let h1 = rw e1 at h in
        elim (Result-cases (traverse (check_call d) fuel d m i s1)) [
          | inr (e, failed) ↦ ih m i s1 k' (rw failed (rw failed at h1))
          | inl (s2, e2) ↦ loop-Fueled fuel above cs s2 ih k a.1 (rw e2 at h1)
        ]
  ]

  traverse-Fueled : (fuel : ℕ) → Fueled fuel
  unfolding traverse
  traverse-Fueled zero source above s k h =
      absurd (omega (arith, k.deep, pigeonhole above.ancestors d.methods k.once k.methods))
  traverse-Fueled (suc fuel) source above s k h =
      loop-Fueled fuel above (calls_of (d.body source).method_calls) s (traverse-Fueled fuel) k
        (known source) h

  -- In a design whose bodies call only its methods, the check of a call tree ends: the fuel does
  -- not run out, also on a design with a cycle of calls.
  pub validate_ends : (root : ℕ) → validate_root_call_tree d root ≢ err out_of_fuel
  unfolding validate_root_call_tree
  validate_ends root =
      traverse-Fueled (fuel_of d) root root_info []
        (record { once = refl; methods = λ v m. cc; deep = omega arith })
