-- ===== src/Semaphore/Tests.antt =====
-- A run of a Semaphore for two.
use transactron.Prelude.{◌+◌, ◌≤◌, Bool, true, false, some, List, [], ◌∷◌, ◌≡◌, refl}
use transactron.Hdl.Widths.{wrap}
use transactron.Hdl.Instances.{unary}
use transactron.Semaphore.{Calls, count_next, semaphore_cycle, semaphore_run}
use transactron.Semaphore.Balance.{since_clear, semaphore_run-balance}

abbrev calls : Bool → Bool → Bool → Calls
calls a r c = record { acquire = a; release = r; clear = c }

-- Two acquires, one release with a third acquire refused by the guard, a clear, an acquire.
abbrev uses : List Calls
uses =
    calls true false false
    ∷ calls true false false
    ∷ calls false true false
    ∷ calls true true true
    ∷ calls true false false
    ∷ []

uses_end : semaphore_run unary 2 0 uses ≡ some 1
unfolding semaphore_run semaphore_cycle count_next wrap
uses_end = refl

semaphore_run-balance_example :
    (1 ≤ 2) × (1 + since_clear (λ c. c.release) 0 uses ≡ since_clear (λ c. c.acquire) 0 uses)
semaphore_run-balance_example = semaphore_run-balance unary 2 uses 1 uses_end
