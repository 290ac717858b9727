-- ===== src/RoundRobin.antt =====
-- `OneHotSwitch`, `OneHotSwitchDynamic` and `OneHotRoundRobin` of
-- transactron/utils/amaranth_ext/elaboratables.py, and `trivial_roundrobin_cc_scheduler` of
-- transactron/core/schedulers.py. A signal of `count` bits is a function from positions to bits.
pub mod Nearest
pub mod Fair
pub mod Component
mod Tests
use transactron.Prelude.{
  ℕ, zero, suc, ◌+◌, ◌-◌, Bool, true, false, ◌&&◌, ◌||◌, not, Option, none, some, List, [], ◌∷◌,
  ◌++◌, ◌==◌, if◌then◌else◌, ◌≡◌, length,
}
use transactron.Scheduler.{Signals}

-- `1 << j`
abbrev pub one_hot : ℕ → ℕ → Bool
one_hot j k = k == j

-- `m.Case(1 << i)`: the lowest `n` bits are those of `1 << i`.
abbrev pub is_case : (ℕ → Bool) → ℕ → ℕ → Bool
is_case test i zero = true
is_case test i (suc n) = (if test n then n == i else not (n == i)) && is_case test i n

-- The case that is taken, of `n` cases from `i` on; `none` is the default.
abbrev pub one_hot_switch : (ℕ → Bool) → ℕ → ℕ → ℕ → Option ℕ
one_hot_switch test count i zero = none
one_hot_switch test count i (suc n) =
    let rest = one_hot_switch test count (i + 1) n in if is_case test i count then some i else rest

-- `reversed(range(a, a + n))`
abbrev pub reversed_range : ℕ → ℕ → List ℕ
reversed_range a zero = []
reversed_range a (suc n) = (a + n) ∷ reversed_range a n

-- The assignments to `grant` in the loop, of which the last one counts.
abbrev pub assigned : (ℕ → Bool) → List ℕ → (ℕ → Bool) → ℕ → Bool
assigned requests [] grant = grant
assigned requests (j ∷ js) grant = assigned requests js (if requests j then one_hot j else grant)

-- The other agents, in the order of the loop at the case `i`.
abbrev pub others : ℕ → ℕ → List ℕ
others count i = reversed_range 0 i ++ reversed_range (i + 1) (count - (i + 1))

-- `grant`, which is the next `grant_reg` too.
unfoldable pub granted : ℕ → (ℕ → Bool) → (ℕ → Bool) → ℕ → Bool
granted count grant_reg requests = elim (one_hot_switch grant_reg count 0 count) [
  | none ↦ λ k. false
  | some i ↦ assigned requests (others count i) grant_reg
]

-- `requests.any()`
abbrev pub any_request : ℕ → (ℕ → Bool) → Bool
any_request zero requests = false
any_request (suc n) requests = requests n || any_request n requests

-- `rr.requests` for the transactions of a component; bits past the end are not there.
abbrev pub requests_of : Signals → List ℕ → ℕ → Bool
requests_of s [] k = false
requests_of s (t ∷ comp) zero = s.ready t && s.runnable t
requests_of s (t ∷ comp) (suc k) = requests_of s comp k

-- The assignments to `transaction.run`, with the positions from `k` on.
abbrev pub RunsGranted : Signals → (ℕ → Bool) → Bool → ℕ → List ℕ → Type 0
RunsGranted s grant valid k [] = Unit
RunsGranted s grant valid k (t ∷ comp) =
    (s.run t ≡ (grant k && valid)) × RunsGranted s grant valid (k + 1) comp

-- The signals of one cycle under `trivial_roundrobin_cc_scheduler`, at the register's value.
unfoldable pub Trivial : List ℕ → (ℕ → Bool) → Signals → Type 0
unfolding granted
Trivial comp grant_reg s =
    RunsGranted s (granted (length comp) grant_reg (requests_of s comp))
      (any_request (length comp) (requests_of s comp)) 0 comp
