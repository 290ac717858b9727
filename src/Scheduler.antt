-- ===== src/Scheduler.antt =====
-- The schedulers of transactron/core/schedulers.py. A transaction is a number, and a valuation of
-- the signals of one clock cycle gives each transaction its `ready`, `runnable` and `run`.
-- `ready` and `runnable` may depend on other `run` signals through the design's combinational
-- logic, so the schedulers are read as what they are: equations between the signals of a cycle.
pub mod Sort
pub mod Eager
pub mod System
mod Tests
use transactron.Prelude.{
  ℕ, Bool, true, false, ◌&&◌, not, ◌||◌, List, [], ◌∷◌, ◌++◌, leb, if◌then◌else◌, contains, ◌≡◌,
}
use transactron.Graph.{Graph, neighbours}
use transactron.Graph.Search.{found_or_nil}

pub record Signals : Type 0 where
  pub ready : ℕ → Bool
  pub runnable : ℕ → Bool
  pub run : ℕ → Bool

-- `ccl.sort(key=porder)`: Python's sort is stable.
unfoldable pub insert : (ℕ → ℕ) → ℕ → List ℕ → List ℕ
insert porder t [] = t ∷ []
insert porder t (x ∷ xs) =
    let rest = insert porder t xs in if leb (porder t) (porder x) then t ∷ x ∷ xs else x ∷ rest

unfoldable pub sort : (ℕ → ℕ) → List ℕ → List ℕ
unfolding insert
sort porder [] = []
sort porder (x ∷ xs) = insert porder x (sort porder xs)

-- `Cat(conflicts).any()`, over the transactions that stand before `t`.
unfoldable pub conflicting : Graph → (ℕ → Bool) → ℕ → List ℕ → Bool
conflicting gr run t [] = false
conflicting gr run t (j ∷ before) =
    (if contains (found_or_nil (neighbours gr t)) j then run j else false)
    || conflicting gr run t before

-- The assignment to `transaction.run`, with the transactions before it in `ccl`.
unfoldable pub grant : Graph → Signals → List ℕ → ℕ → Bool
unfolding conflicting
grant gr s before t = s.ready t && (s.runnable t && not (conflicting gr s.run t before))

-- The signals satisfy the assignments of the loop over the rest of `ccl`.
abbrev pub Assigned : Graph → Signals → List ℕ → List ℕ → Type 0
Assigned gr s before [] = Unit
Assigned gr s before (t ∷ ccl) =
    (s.run t ≡ grant gr s before t) × Assigned gr s (before ++ t ∷ []) ccl

-- `eager_deterministic_cc_scheduler`
unfoldable pub Eager : Graph → List ℕ → (ℕ → ℕ) → Signals → Type 0
Eager gr comp porder s = Assigned gr s [] (sort porder comp)
