-- ===== src/Semaphore/Balance.antt =====
-- What the count of a Semaphore counts.
use transactron.Prelude.{
  ℕ, ◌+◌, ◌-◌, ◌^◌, ◌≤◌, Bool, true, false, none, some, List, [], ◌∷◌, bit, if◌then◌else◌, ◌≡◌,
  arith, Option-cases, Bool-cases, inl, inr,
}
use transactron.Hdl.Widths.{RangeShape, wrap, wrap-difference}
use transactron.Semaphore.{Calls, count_next, semaphore_cycle, semaphore_run}

-- The number of cycles in which `runs` holds after the last `clear`, added to `n` if there is none.
pub since_clear : (Calls → Bool) → ℕ → List Calls → ℕ
since_clear runs n [] = n
since_clear runs n (c ∷ cs) = since_clear runs (if c.clear then 0 else n + bit (runs c)) cs

module _ (shape : RangeShape) (max_count : ℕ) where
  -- One cycle: no wrap-around happens.
  cycle_balance :
      (count next : ℕ) (c : Calls)
      → count ≤ max_count
      → c.clear ≡ false
      → semaphore_cycle shape max_count count c ≡ some next
      → (next ≤ max_count) × (next + bit c.release ≡ count + bit c.acquire)
  unfolding semaphore_cycle count_next
  cycle_balance count next c h e step =
      let room : count + bit c.acquire ≤ max_count = ground arith in
      let held : bit c.release ≤ count = ground arith in
      let value : wrap shape (max_count + 1)
            (count + bit c.acquire + 2 ^ shape.width (max_count + 1) - bit c.release)
          ≡ count + bit c.acquire - bit c.release =
        wrap-difference shape (max_count + 1) (count + bit c.acquire) (bit c.release) (omega arith)
          (omega arith) in
      ground (arith, value)

  cleared :
      (count next : ℕ) (c : Calls)
      → c.clear ≡ true
      → semaphore_cycle shape max_count count c ≡ some next
      → next ≡ 0
  unfolding semaphore_cycle count_next
  cleared count next c e step = ground arith

  -- The counts of acquires and releases so far are part of the induction.
  run_balance :
      (cs : List Calls) (count k acquired released : ℕ)
      → count ≤ max_count
      → count + released ≡ acquired
      → semaphore_run shape max_count count cs ≡ some k
      → (k ≤ max_count)
        × (k + since_clear (λ c. c.release) released cs ≡ since_clear (λ c. c.acquire) acquired cs)
  unfolding semaphore_run since_clear
  run_balance [] count k acquired released h e run = ground arith
  run_balance (c ∷ cs) count k acquired released h e run =
      elim (Option-cases (semaphore_cycle shape max_count count c)) [
        | inl stuck ↦ let run' : none ≡ some k = rw (stuck, semaphore_run) at run in absurd cc
        | inr (next, step) ↦
            let run' : semaphore_run shape max_count next cs ≡ some k =
              rw (step, semaphore_run) at run in
            elim (Bool-cases c.clear) [
              | inl clear ↦
                  let zero_now : next ≡ 0 = cleared count next c clear step in
                  rw clear (run_balance cs next k 0 0 (omega arith) (omega arith) run')
              | inr kept ↦
                  let (bound, balance) = cycle_balance count next c h kept step in
                  rw kept (
                    run_balance cs next k (acquired + bit c.acquire) (released + bit c.release)
                      bound (omega arith) run')
            ]
      ]

  -- From the count 0, after every sequence of possible cycles the count of a Semaphore is at most
  -- `max_count`, and it is the number of cycles with `acquire` less the number of cycles with
  -- `release`, both after the last `clear`.
  pub semaphore_run-balance :
      (cs : List Calls) (k : ℕ)
      → semaphore_run shape max_count 0 cs ≡ some k
      → (k ≤ max_count)
        × (k + since_clear (λ c. c.release) 0 cs ≡ since_clear (λ c. c.acquire) 0 cs)
  semaphore_run-balance cs k run = run_balance cs 0 k 0 0 (omega arith) (omega arith) run
