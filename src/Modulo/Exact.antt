-- ===== src/Modulo/Exact.antt =====
-- What `mod_add` computes.
use transactron.Prelude.{
  ℕ, zero, suc, ◌+◌, ◌-◌, ◌%◌, ◌≤◌, ◌<◌, ◌==◌, ◌≡◌, refl, sym, ◌∙◌, arith, inl, inr, Bool-cases,
  ltb, if◌then◌else◌,
}
use native.Mathlib.Nat.{mod-eq_of_lt, mod-eq-sub-mod}
use transactron.Modulo.{bit_and, switch_value, mod_add, mod_incr}
use transactron.Modulo.Masks.{and_bits-mask}

switch_below : (x modulus i n : ℕ) → x < modulus + i → switch_value x modulus i n ≡ x
unfolding switch_value
switch_below x modulus i zero h = refl
switch_below x modulus i (suc n) h = ground (arith, switch_below x modulus (i + 1) n (omega arith))

switch_within :
    (x modulus i n : ℕ)
    → modulus + i ≤ x
    → x < modulus + i + n
    → switch_value x modulus i n ≡ x - modulus
unfolding switch_value
switch_within x modulus i zero h h' = absurd (omega arith)
switch_within x modulus i (suc n) h h' = elim (Bool-cases (x == modulus + i)) [
  | inl e ↦ ground arith
  | inr ne ↦ ground (arith, switch_within x modulus (i + 1) n (ground arith) (omega arith))
]

sum_mod : (x modulus : ℕ) → modulus ≤ x → x - modulus < modulus → x % modulus ≡ x - modulus
sum_mod x modulus h h' = mod-eq-sub-mod h ∙ mod-eq_of_lt h'

-- With a positive modulus, `mod_add(sig, mod, incr, max_incr)` is `(sig + incr) % mod` whenever `sig`
-- is below the modulus and `incr` is at most `max_incr` and at most the modulus, also when the modulus is not
-- a power of two.
pub mod_add-exact :
    (sig modulus incr max_incr : ℕ)
    → sig < modulus
    → incr ≤ max_incr
    → incr ≤ modulus
    → mod_add sig modulus incr max_incr ≡ (sig + incr) % modulus
unfolding mod_add
mod_add-exact sig modulus incr max_incr h bound small =
    elim (Bool-cases (bit_and modulus (modulus - 1) == 0)) [
      | inl power ↦
          rw (power, mod_add)
            (and_bits-mask modulus modulus (sig + incr) (sig + incr) (omega arith) (omega arith)
              (ground arith) (omega arith))
      | inr other ↦ elim (Bool-cases (ltb (sig + incr) modulus)) [
        | inl below ↦
            rw (other, mod_add)
              (switch_below (sig + incr) modulus 0 max_incr (ground arith)
                ∙ sym (mod-eq_of_lt (ground arith)))
        | inr above ↦
            let over : modulus ≤ sig + incr = ground arith in
            rw (other, mod_add)
              (switch_within (sig + incr) modulus 0 max_incr (omega arith) (omega arith)
                ∙ sym (sum_mod (sig + incr) modulus over (omega arith)))
      ]
    ]

-- `mod_incr` steps through the numbers below its modulus.
pub mod_incr-next :
    (sig modulus : ℕ)
    → sig < modulus
    → mod_incr sig modulus ≡ (if ltb (sig + 1) modulus then sig + 1 else 0)
unfolding mod_incr
mod_incr-next sig modulus h = elim (Bool-cases (bit_and modulus (modulus - 1) == 0)) [
  | inl power ↦
      let masked =
        and_bits-mask modulus modulus (sig + 1) (sig + 1) (omega arith) (omega arith) (ground arith)
          (omega arith) in
      rw (power, mod_incr)
        (masked ∙ elim (Bool-cases (ltb (sig + 1) modulus)) [
          | inl below ↦ rw below (mod-eq_of_lt (ground arith))
          | inr above ↦
              rw above (sum_mod (sig + 1) modulus (ground arith) (ground arith) ∙ ground arith)
        ])
  | inr other ↦ rw (other, mod_incr) (ground arith)
]
