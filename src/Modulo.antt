-- ===== src/Modulo.antt =====
-- `mod_incr` and `mod_add` of transactron/utils/amaranth_ext/functions.py.
pub mod Masks
pub mod Exact
use transactron.Prelude.{ℕ, zero, suc, ◌+◌, ◌-◌, ◌*◌, ◌/◌, ◌%◌, min, ◌==◌, if◌then◌else◌}

-- The lowest `n` bits of `a & b`.
unfoldable pub and_bits : ℕ → ℕ → ℕ → ℕ
and_bits zero a b = 0
and_bits (suc n) a b = 2 * and_bits n (a / 2) (b / 2) + min (a % 2) (b % 2)

-- `a & b`: a number has at most as many bits as its value.
abbrev pub bit_and : ℕ → ℕ → ℕ
bit_and a b = and_bits a a b

-- `SwitchValue` with the cases `(mod + i, i)` for `n` values from `i`.
unfoldable pub switch_value : ℕ → ℕ → ℕ → ℕ → ℕ
switch_value x modulus i zero = x
switch_value x modulus i (suc n) =
    let rest = switch_value x modulus (i + 1) n in if x == modulus + i then i else rest

-- The assertions are `mod > 0` and `max_incr >= 0`.
unfoldable pub mod_add : ℕ → ℕ → ℕ → ℕ → ℕ
unfolding and_bits switch_value
mod_add sig modulus incr max_incr =
    if bit_and modulus (modulus - 1) == 0
    then bit_and (sig + incr) (modulus - 1)
    else switch_value (sig + incr) modulus 0 max_incr

unfoldable pub mod_incr : ℕ → ℕ → ℕ
unfolding and_bits
mod_incr sig modulus =
    if bit_and modulus (modulus - 1) == 0
    then bit_and (sig + 1) (modulus - 1)
    else (if sig == modulus - 1 then 0 else sig + 1)
