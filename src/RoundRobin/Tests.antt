-- ===== src/RoundRobin/Tests.antt =====
-- Three transactions 10, 11 and 12 under a round robin that granted the first one before: 10 and 12
-- are ready and runnable, and 12 runs.
use transactron.Prelude.{ℕ, Bool, true, ◌||◌, List, [], ◌∷◌, any, ◌≡◌, refl, arith, ◌==◌}
use transactron.Scheduler.{Signals}
use transactron.RoundRobin.{one_hot, granted, Trivial}
use transactron.RoundRobin.Nearest.{IsNext, granted-IsNext}
use transactron.RoundRobin.Fair.{grants, grants-fair}
use transactron.RoundRobin.Component.{roundrobin_exclusive}

abbrev comp : List ℕ
comp = 10 ∷ 11 ∷ 12 ∷ []

abbrev cycle : Signals
cycle = record { ready = λ t. t == 10 || t == 12; runnable = λ t. true; run = λ t. t == 12 }

cycle-Trivial : Trivial comp (one_hot 0) cycle
unfolding Trivial
cycle-Trivial = (refl, (refl, (refl, tt)))

roundrobin_exclusive_example : ◌≡◌ {A = ℕ} 12 12
roundrobin_exclusive_example =
    roundrobin_exclusive comp 0 cycle (omega arith) cycle-Trivial 12 12 refl refl refl refl

abbrev all_request : ℕ → Bool
all_request k = true

granted-IsNext_example :
    (j : ℕ) × (granted 3 (one_hot 1) all_request ≡ one_hot j) × IsNext 3 1 all_request j
granted-IsNext_example = granted-IsNext 3 1 all_request (omega arith)

abbrev busy : List (ℕ → Bool)
busy = all_request ∷ all_request ∷ all_request ∷ []

grants-fair_example : any (λ grant. grant 0) (grants 3 (one_hot 1) busy) ≡ true
grants-fair_example = grants-fair 3 1 0 busy (omega arith) (omega arith) (omega arith) refl
