-- ===== src/RoundRobin/Component.antt =====
-- The transactions of one component under `trivial_roundrobin_cc_scheduler`.
use transactron.Prelude.{
  ℕ, zero, suc, ◌+◌, ◌<◌, Bool, true, ◌&&◌, ◌==◌, List, [], ◌∷◌, length, get_or, In, ◌≡◌, refl, sym,
  ap, ◌∙◌, inl, inr, arith, Bool-cases,
}
use transactron.Scheduler.{Signals}
use transactron.RoundRobin.{one_hot, granted, any_request, requests_of, RunsGranted, Trivial}
use transactron.RoundRobin.Nearest.{granted-IsNext, IsNext-requests}

-- A member's position, its request and its assignment.
abbrev IsPlaced : Signals → (ℕ → Bool) → Bool → ℕ → List ℕ → ℕ → ℕ → Type 0
IsPlaced s grant valid k comp t p =
    (p < length comp)
    × ((get_or comp p 0 ≡ t)
        × ((requests_of s comp p ≡ (s.ready t && s.runnable t))
            × (s.run t ≡ (grant (k + p) && valid))))

placed :
    (s : Signals) (grant : ℕ → Bool) (valid : Bool) (k : ℕ) (comp : List ℕ) (t : ℕ)
    → RunsGranted s grant valid k comp
    → In t comp
    → (p : ℕ) × IsPlaced s grant valid k comp t p
placed s grant valid k [] t runs m = cc
placed s grant valid k (u ∷ comp) t (run, runs) m = elim (Bool-cases (u == t)) [
  | inl same ↦
      let eq : t ≡ u = ground arith in rw eq (zero, (omega arith, (refl, (refl, rw (first k) run))))
  | inr other ↦
      let (p, (lt, (at, (asks, runs_t)))) =
        placed s grant valid (k + 1) comp t runs (ground arith) in
      (suc p, (omega arith, (at, (asks, rw (next k p) runs_t))))
]
  where
    first : (k : ℕ) → k + zero ≡ k
    first k = omega arith

    next : (k p : ℕ) → k + suc p ≡ k + 1 + p
    next k p = omega arith

requested_at :
    (n : ℕ) (requests : ℕ → Bool)
    → any_request n requests ≡ true
    → (k : ℕ) × (k < n) × (requests k ≡ true)
requested_at zero requests h = cc
requested_at (suc n) requests h = elim (Bool-cases (requests n)) [
  | inl r ↦ (n, omega arith, r)
  | inr r ↦ let (k, lt, rk) = requested_at n requests (ground arith) in (k, omega arith, rk)
]

member_at : (comp : List ℕ) (p : ℕ) → p < length comp → In (get_or comp p 0) comp
member_at [] p h = absurd (omega arith)
member_at (t ∷ comp) zero h = ground arith
member_at (t ∷ comp) (suc p) h = ground (arith, member_at comp p (omega arith))

run_at :
    (s : Signals) (grant : ℕ → Bool) (valid : Bool) (k : ℕ) (comp : List ℕ) (p : ℕ)
    → RunsGranted s grant valid k comp
    → p < length comp
    → s.run (get_or comp p 0) ≡ (grant (k + p) && valid)
run_at s grant valid k [] p runs h = absurd (omega arith)
run_at s grant valid k (t ∷ comp) zero (run, runs) h =
    run ∙ ap (λ x. grant x && valid) (omega arith)
run_at s grant valid k (t ∷ comp) (suc p) (run, runs) h =
    run_at s grant valid (k + 1) comp p runs (omega arith)
    ∙ ap (λ x. grant x && valid) (omega arith)

requests_at :
    (s : Signals) (comp : List ℕ) (p : ℕ)
    → p < length comp
    → requests_of s comp p ≡ (s.ready (get_or comp p 0) && s.runnable (get_or comp p 0))
requests_at s [] p h = absurd (omega arith)
requests_at s (t ∷ comp) zero h = refl
requests_at s (t ∷ comp) (suc p) h = requests_at s comp p (omega arith)

any_request_of :
    (n k : ℕ) (requests : ℕ → Bool) → k < n → requests k ≡ true → any_request n requests ≡ true
any_request_of zero k requests h r = absurd (omega arith)
any_request_of (suc n) k requests h r = elim (Bool-cases (n == k)) [
  | inl e ↦ let same : n ≡ k = ground arith in rw same (ground arith)
  | inr e ↦ ground (arith, any_request_of n k requests)
]

module _ (comp : List ℕ) (i : ℕ) (s : Signals) (at_most : i < length comp)
    (cycle : Trivial comp (one_hot i) s) where
  abbrev grant : ℕ → Bool
  grant = granted (length comp) (one_hot i) (requests_of s comp)

  abbrev valid : Bool
  valid = any_request (length comp) (requests_of s comp)

  runs_granted : RunsGranted s grant valid 0 comp
  unfolding Trivial
  runs_granted = cycle

  granted_position :
      (j p : ℕ) (run : Bool)
      → grant ≡ one_hot j
      → run ≡ (grant (0 + p) && valid)
      → run ≡ true
      → p ≡ j
  granted_position j p run e assigned r =
      let bit_is : grant (0 + p) ≡ (0 + p == j) = ap (λ g. g (0 + p)) e in
      let set : (0 + p == j) ≡ true = ground (arith, bit_is, assigned) in ground arith

  -- Under the round-robin scheduler with a one-hot register, at most one transaction of a component
  -- runs in a cycle.
  pub roundrobin_exclusive :
      (t u : ℕ) → In t comp → In u comp → s.run t ≡ true → s.run u ≡ true → t ≡ u
  roundrobin_exclusive t u mt mu rt ru =
      let (j, e, next) = granted-IsNext (length comp) i (requests_of s comp) at_most in
      let (p, (lt, (at, (asks, runs)))) = placed s grant valid 0 comp t runs_granted mt in
      let (p', (lt', (at', (asks', runs')))) = placed s grant valid 0 comp u runs_granted mu in
      let first : p ≡ j = granted_position j p (s.run t) e runs rt in
      let second : p' ≡ j = granted_position j p' (s.run u) e runs' ru in
      sym at ∙ ap (λ x. get_or comp x 0) (first ∙ sym second) ∙ at'

  -- Under the round-robin scheduler with a one-hot register, when a transaction of a component is
  -- ready and runnable, one of them that is ready and runnable runs.
  pub roundrobin_progress :
      (t : ℕ)
      → In t comp
      → s.ready t ≡ true
      → s.runnable t ≡ true
      → (u : ℕ) × In u comp × (s.run u ≡ true) × (s.ready u ≡ true) × (s.runnable u ≡ true)
  roundrobin_progress t m ready runnable =
      let (j, e, next) = granted-IsNext (length comp) i (requests_of s comp) at_most in
      let (p, (lt, (at, (asks, runs)))) = placed s grant valid 0 comp t runs_granted m in
      let asked : requests_of s comp p ≡ true = asks ∙ ground arith in
      let asks_j : requests_of s comp j ≡ true =
        IsNext-requests (length comp) i j p (requests_of s comp) at_most next lt asked in
      let some_ask : valid ≡ true = any_request_of (length comp) p (requests_of s comp) lt asked in
      let both : (s.ready (get_or comp j 0) && s.runnable (get_or comp j 0)) ≡ true =
        sym (requests_at s comp j next.0) ∙ asks_j in
      let bit_is : grant (0 + j) ≡ (0 + j == j) = ap (λ g. g (0 + j)) e in
      let runs_j : s.run (get_or comp j 0) ≡ (grant (0 + j) && valid) =
        run_at s grant valid 0 comp j runs_granted next.0 in
      let set : (0 + j == j) ≡ true = ground arith in
      (
        get_or comp j 0,
        member_at comp j next.0,
        runs_j ∙ rw (bit_is, set, some_ask) refl,
        ground arith,
        ground arith,
      )
