-- ===== src/RoundRobin/Fair.antt =====
-- How long an agent waits for the grant of a `OneHotRoundRobin`.
use transactron.Prelude.{
  ℕ, ◌<◌, ◌≤◌, Bool, true, ◌&&◌, ◌==◌, ltb, List, [], ◌∷◌, length, any, all, ◌≡◌, ◌≢◌, refl, inl,
  inr, arith, Bool-cases,
}
use transactron.RoundRobin.{one_hot, granted}
use transactron.RoundRobin.Nearest.{distance, granted-IsNext}

-- The grants of a sequence of cycles, each of which is the register of the next one.
unfoldable pub grants : ℕ → (ℕ → Bool) → List (ℕ → Bool) → List (ℕ → Bool)
grants count grant_reg [] = []
grants count grant_reg (requests ∷ rest) =
    let grant = granted count grant_reg requests in grant ∷ grants count grant rest

-- Whenever another agent is granted, the grant comes nearer.
distance-lt :
    (count i j k : ℕ)
    → i < count
    → j < count
    → k < count
    → distance count i j ≤ distance count i k
    → j ≢ k
    → distance count j k < distance count i k
distance-lt count i j k hi hj hk le ne = elim (Bool-cases (ltb i j)) [
  | inl a ↦ elim (Bool-cases (ltb i k)) [ inl b ↦ ground arith | inr b ↦ ground arith ]
  | inr a ↦ elim (Bool-cases (ltb i k)) [ inl b ↦ ground arith | inr b ↦ ground arith ]
]

granted_within :
    (count i k : ℕ) (cycles : List (ℕ → Bool))
    → i < count
    → k < count
    → distance count i k ≤ length cycles
    → all (λ requests. requests k) cycles ≡ true
    → any (λ grant. grant k) (grants count (one_hot i) cycles) ≡ true
unfolding grants
granted_within count i k [] hi hk h asks = absurd (ground arith)
granted_within count i k (requests ∷ cycles) hi hk h asks =
    let (j, e, (hj, (which, nearest))) = granted-IsNext count i requests hi in
    let (now, later) = both asks in
    elim (Bool-cases (k == j)) [
      | inl same ↦ rw (e, same) refl
      | inr other ↦
          let closer : distance count j k < distance count i k =
            distance-lt count i j k hi hj hk (nearest k hk now) (ground arith) in
          rw (e, other) (granted_within count j k cycles hj hk (omega arith) later)
    ]
  where
    both : {a b : Bool} → (a && b) ≡ true → (a ≡ true) × (b ≡ true)
    both h = ground arith

-- An agent of a OneHotRoundRobin that requests in every one of `count` or more cycles is granted in
-- one of them, whatever the others request. At the start the register is one-hot.
pub grants-fair :
    (count i k : ℕ) (cycles : List (ℕ → Bool))
    → i < count
    → k < count
    → count ≤ length cycles
    → all (λ requests. requests k) cycles ≡ true
    → any (λ grant. grant k) (grants count (one_hot i) cycles) ≡ true
grants-fair count i k cycles hi hk h asks =
    granted_within count i k cycles hi hk (ground arith) asks
