-- ===== src/RoundRobin/Nearest.antt =====
-- Whom the round robin grants: the nearest request after the last grant, in a circle.
use transactron.Prelude.{
  ℕ, zero, suc, ◌+◌, ◌-◌, ◌<◌, ◌≤◌, Bool, true, false, some, List, [], ◌∷◌, ◌++◌, ◌==◌, ltb,
  if◌then◌else◌, contains, contains-append, In, ◌≡◌, ◌≢◌, refl, sym, subst, ◌⊎◌, inl, inr, arith,
  Bool-cases,
}
use transactron.RoundRobin.{
  one_hot, is_case, one_hot_switch, reversed_range, assigned, others, granted,
}

-- How far the agent `k` stands after the agent `i`, which stands after itself by a whole round.
abbrev pub distance : ℕ → ℕ → ℕ → ℕ
distance count i k = if ltb i k then k - i else count + k - i

-- The agent `j` is granted: it requests, or it has the grant and none requests, and no request is
-- nearer.
abbrev pub IsNext : ℕ → ℕ → (ℕ → Bool) → ℕ → Type 0
IsNext count i requests j =
    (j < count)
    × (((requests j ≡ true) ⊎ (j ≡ i))
        × ((k : ℕ) → k < count → requests k ≡ true → distance count i j ≤ distance count i k))

is_case-one_hot : (j n : ℕ) → is_case (one_hot j) j n ≡ true
is_case-one_hot j zero = refl
is_case-one_hot j (suc n) = ground (arith, is_case-one_hot j n)

is_case-other : (j i n : ℕ) → j < n → i ≢ j → is_case (one_hot j) i n ≡ false
is_case-other j i zero h ne = absurd (omega arith)
is_case-other j i (suc n) h ne = elim (Bool-cases (n == j)) [
  | inl e ↦ ground arith
  | inr e ↦ ground (arith, is_case-other j i n)
]

one_hot_switch-one_hot :
    (count i n j : ℕ)
    → j < count
    → i ≤ j
    → j < i + n
    → one_hot_switch (one_hot j) count i n ≡ some j
one_hot_switch-one_hot count i zero j lt h h' = absurd (omega arith)
one_hot_switch-one_hot count i (suc n) j lt h h' = elim (Bool-cases (i == j)) [
  | inl e ↦
      let same : i ≡ j = ground arith in rw (same, is_case-one_hot j count, one_hot_switch) refl
  | inr e ↦
      rw (is_case-other j i count lt (ground arith), one_hot_switch)
        (one_hot_switch-one_hot count (i + 1) n j lt (ground arith) (omega arith))
]

module _ (dist : ℕ → ℕ) where
  -- The agents stand in the order of falling distances below a bound.
  abbrev Falling : List ℕ → ℕ → Type 0
  Falling [] b = Unit
  Falling (a ∷ js) b = (dist a < b) × Falling js (dist a)

  Falling-le : (js : List ℕ) (b c : ℕ) → b ≤ c → Falling js b → Falling js c
  Falling-le [] b c h f = tt
  Falling-le (a ∷ js) b c h f = (omega arith, f.1)

  -- The last request in such a list, or else the start.
  abbrev Winner : (ℕ → Bool) → List ℕ → ℕ → ℕ → Type 0
  Winner requests js i j =
      (assigned requests js (one_hot i) ≡ one_hot j)
      × ((((requests j ≡ true) × In j js) ⊎ (j ≡ i))
          × ((dist j ≤ dist i) × ((k : ℕ) → In k js → requests k ≡ true → dist j ≤ dist k)))

  winner :
      (requests : ℕ → Bool) (js : List ℕ) (i : ℕ)
      → Falling js (dist i)
      → (j : ℕ) × Winner requests js i j
  winner requests [] i f = (i, (refl, (inr refl, (omega arith, λ k h r. absurd cc))))
  winner requests (a ∷ js) i (lt, f) = elim (Bool-cases (requests a)) [
    | inl r ↦
        let (j, (e, (which, (below, nearest)))) = winner requests js a f in
        (
          j,
          (
            rw (r, assigned) e,
            (
              kept a which r,
              (
                omega arith,
                λ k h rk. elim (Bool-cases (a == k)) [
                  | inl same ↦ let eq : k ≡ a = ground arith in rw eq below
                  | inr other ↦ nearest k (ground arith) rk
                ],
              ),
            ),
          ),
        )
    | inr r ↦
        let (j, (e, (which, (below, nearest)))) =
          winner requests js i (Falling-le js (dist a) (dist i) (omega arith) f) in
        (
          j,
          (
            rw (r, assigned) e,
            (
              later a which,
              (
                below,
                λ k h rk. elim (Bool-cases (a == k)) [
                  | inl same ↦
                      let eq : k ≡ a = ground arith in
                      absurd (false-ne-true a r (subst (λ y. requests y ≡ true) eq rk))
                  | inr other ↦ nearest k (ground arith) rk
                ],
              ),
            ),
          ),
        )
  ]
    where
      false-ne-true : (a : ℕ) → requests a ≡ false → requests a ≡ true → ⊥
      false-ne-true a r r' = cc

      kept :
          {j : ℕ} (a : ℕ)
          → ((requests j ≡ true) × In j js) ⊎ (j ≡ a)
          → requests a ≡ true
          → ((requests j ≡ true) × In j (a ∷ js)) ⊎ (j ≡ i)
      kept a (inl (rq, m)) r = inl (rq, ground arith)
      kept {j} a (inr e) r = inl (rw e r, ground arith)

      later :
          {j : ℕ} (a : ℕ)
          → ((requests j ≡ true) × In j js) ⊎ (j ≡ i)
          → ((requests j ≡ true) × In j (a ∷ js)) ⊎ (j ≡ i)
      later a (inl (rq, m)) = inl (rq, ground arith)
      later a (inr e) = inr e

contains-reversed_range : (a n k : ℕ) → a ≤ k → k < a + n → contains (reversed_range a n) k ≡ true
contains-reversed_range a zero k h h' = absurd (omega arith)
contains-reversed_range a (suc n) k h h' = ground (arith, contains-reversed_range a n k)

contains-others :
    (count i k : ℕ) → k < count → i < count → k ≢ i → contains (others count i) k ≡ true
contains-others count i k h h' ne = elim (Bool-cases (ltb k i)) [
  | inl below ↦ ground (
    arith,
    contains-append (reversed_range 0 i) (reversed_range (i + 1) (count - (i + 1))) k,
    contains-reversed_range 0 i k,
  )
  | inr above ↦ ground (
    arith,
    contains-append (reversed_range 0 i) (reversed_range (i + 1) (count - (i + 1))) k,
    contains-reversed_range (i + 1) (count - (i + 1)) k,
  )
]

in-reversed_range : (a n k : ℕ) → contains (reversed_range a n) k ≡ true → (a ≤ k) × (k < a + n)
in-reversed_range a zero k h = absurd cc
in-reversed_range a (suc n) k h = elim (Bool-cases (a + n == k)) [
  | inl e ↦ ground arith
  | inr e ↦ ground (arith, in-reversed_range a n k)
]

in-others : (count i k : ℕ) → i < count → contains (others count i) k ≡ true → k < count
in-others count i k h m = elim (Bool-cases (contains (reversed_range 0 i) k)) [
  | inl low ↦ omega (arith, in-reversed_range 0 i k low)
  | inr low ↦
      let high : contains (reversed_range (i + 1) (count - (i + 1))) k ≡ true = ground (
        arith,
        contains-append (reversed_range 0 i) (reversed_range (i + 1) (count - (i + 1))) k,
      ) in
      omega (arith, in-reversed_range (i + 1) (count - (i + 1)) k high)
]

module _ (count i : ℕ) where
  high-Falling :
      (n b : ℕ)
      → i + 1 + n ≤ count
      → n < b
      → Falling (distance count i) (reversed_range (i + 1) n) b
  high-Falling zero b h h' = tt
  high-Falling (suc n) b h h' =
      let near : distance count i (i + 1 + n) ≡ n + 1 = ground arith in
      (
        omega (arith, near),
        high-Falling n (distance count i (i + 1 + n)) (omega arith) (omega (arith, near)),
      )

  low-Falling :
      (n b : ℕ) (rest : List ℕ)
      → n ≤ i
      → i < count
      → count + n ≤ b + i
      → Falling (distance count i) rest (count - i)
      → Falling (distance count i) (reversed_range 0 n ++ rest) b
  low-Falling zero b rest h lt h' f =
      Falling-le (distance count i) rest (count - i) b (omega arith) f
  low-Falling (suc n) b rest h lt h' f =
      let far : distance count i (0 + n) ≡ count + n - i = ground arith in
      (
        omega (arith, far),
        low-Falling n (distance count i (0 + n)) rest (omega arith) lt (omega (arith, far)) f,
      )

others-Falling :
    (count i : ℕ) → i < count → Falling (distance count i) (others count i) (distance count i i)
others-Falling count i lt =
    low-Falling count i i (distance count i i) (reversed_range (i + 1) (count - (i + 1)))
      (omega arith) lt (ground arith)
      (high-Falling count i (count - (i + 1)) (count - i) (omega arith) (omega arith))

Winner-IsNext :
    (count i j : ℕ) (requests : ℕ → Bool)
    → i < count
    → Winner (distance count i) requests (others count i) i j
    → IsNext count i requests j
Winner-IsNext count i j requests lt (e, (which, (below, nearest))) = (
  inside which,
  (
    chosen which,
    λ k h r. elim (Bool-cases (k == i)) [
      | inl same ↦ let eq : k ≡ i = ground arith in rw eq below
      | inr other ↦ nearest k (contains-others count i k h lt (ground arith)) r
    ],
  ),
)
  where
    inside : ((requests j ≡ true) × In j (others count i)) ⊎ (j ≡ i) → j < count
    inside (inl (r, m)) = in-others count i j lt m
    inside (inr e) = omega arith

    chosen : ((requests j ≡ true) × In j (others count i)) ⊎ (j ≡ i) → (requests j ≡ true) ⊎ (j ≡ i)
    chosen (inl (r, m)) = inl r
    chosen (inr e) = inr e

-- From a one-hot register at the agent `i` below `count`, OneHotRoundRobin grants exactly one agent:
-- the nearest one after `i`, in a circle, that requests, where `i` itself comes last; or `i` if none
-- requests.
pub granted-IsNext :
    (count i : ℕ) (requests : ℕ → Bool)
    → i < count
    → (j : ℕ) × (granted count (one_hot i) requests ≡ one_hot j) × IsNext count i requests j
unfolding granted
granted-IsNext count i requests lt =
    let (j, w) =
      winner (distance count i) requests (others count i) i (others-Falling count i lt) in
    (
      j,
      rw (one_hot_switch-one_hot count 0 count i lt (omega arith) (omega arith), granted) w.0,
      Winner-IsNext count i j requests lt w,
    )

-- Some request means that the granted agent requests.
pub IsNext-requests :
    (count i j k : ℕ) (requests : ℕ → Bool)
    → i < count
    → IsNext count i requests j
    → k < count
    → requests k ≡ true
    → requests j ≡ true
IsNext-requests count i j k requests lt (hj, (inl r, nearest)) hk rk = r
IsNext-requests count i j k requests lt (hj, (inr e, nearest)) hk rk =
    let near : distance count i j ≤ distance count i k = nearest k hk rk in
    let same : k ≡ j = ground arith in rw (sym same) rk
