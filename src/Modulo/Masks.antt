-- ===== src/Modulo/Masks.antt =====
-- Masks of ones and remainders by powers of two.
use transactron.Prelude.{
  ℕ, zero, suc, ◌+◌, ◌-◌, ◌*◌, ◌/◌, ◌%◌, ◌≤◌, ◌<◌, min, ◌≡◌, refl, sym, ◌∙◌, arith, ap, ap₂, inl,
  inr, ◌⊎◌,
}
use native.Mathlib.Nat.{mod-eq_of_lt, add-mul-mod_self_left, div-add-mod, mod-lt, zero-mod}
use transactron.Modulo.{and_bits}

and_bits-zero : (n a : ℕ) → and_bits n a 0 ≡ 0
unfolding and_bits
and_bits-zero zero a = refl
and_bits-zero (suc n) a = omega (arith, and_bits-zero n (a / 2))

zero-and_bits : (n b : ℕ) → and_bits n 0 b ≡ 0
unfolding and_bits
zero-and_bits zero b = refl
zero-and_bits (suc n) b = omega (arith, zero-and_bits n (b / 2))

and_bits_self : (n a : ℕ) → a ≤ n → and_bits n a a ≡ a
unfolding and_bits
and_bits_self zero a h = omega arith
and_bits_self (suc n) a h = omega (arith, and_bits_self n (a / 2) (omega arith))

mod_unique : (x h q r : ℕ) → x ≡ r + h * q → r < h → x % h ≡ r
mod_unique x h q r e lt = rw e (add-mul-mod_self_left r h q ∙ mod-eq_of_lt lt)

mod-double : (x h : ℕ) → 0 < h → 2 * (x / 2 % h) + x % 2 ≡ x % (2 * h)
mod-double x h pos =
    let split : h * (x / 2 / h) + x / 2 % h ≡ x / 2 = div-add-mod (x / 2) h in
    let small : x / 2 % h < h = mod-lt (x / 2) pos in
    sym (mod_unique x (2 * h) (x / 2 / h) (2 * (x / 2 % h) + x % 2) (omega arith) (omega arith))

parity : (m : ℕ) → (m % 2 ≡ 0) ⊎ (m % 2 ≡ 1)
parity m = ground arith

half_even :
    (m n : ℕ)
    → m % 2 ≡ 0
    → 0 < m
    → and_bits n (m / 2) (m / 2 - 1) ≡ and_bits n (m / 2) ((m - 1) / 2)
half_even m n even pos =
    let half : m / 2 - 1 ≡ (m - 1) / 2 = omega arith in ap (and_bits n (m / 2)) half

-- The step at an even modulus.
even_mask :
    (n m k x : ℕ)
    → and_bits k (x / 2) (m / 2 - 1) ≡ x / 2 % (m / 2)
    → m % 2 ≡ 0
    → 0 < m
    → and_bits (suc k) x (m - 1) ≡ x % m
unfolding and_bits
even_mask n m k x ih even pos =
    let half : (m - 1) / 2 ≡ m / 2 - 1 = omega arith in
    let double : 2 * (m / 2) ≡ m = omega arith in
    let rest : 2 * (x / 2 % (m / 2)) + x % 2 ≡ x % m =
      mod-double x (m / 2) (omega arith) ∙ ap (λ y. x % y) double in
    let bits : and_bits k (x / 2) ((m - 1) / 2) ≡ x / 2 % (m / 2) =
      ap (and_bits k (x / 2)) half ∙ ih in
    let low : min (x % 2) ((m - 1) % 2) ≡ x % 2 = omega arith in
    ap₂ (λ a b. 2 * a + b) bits low ∙ rest

-- `m & (m - 1)` is 0 only at the powers of two.
pub and_bits-mask :
    (n m k x : ℕ) → m ≤ n → 0 < m → and_bits n m (m - 1) ≡ 0 → x ≤ k → and_bits k x (m - 1) ≡ x % m
unfolding and_bits
and_bits-mask zero m k x h pos e hx = absurd (omega arith)
and_bits-mask (suc n) zero k x h pos e hx = absurd (omega arith)
and_bits-mask (suc n) (suc zero) k x h pos e hx = omega (arith, and_bits-zero k x)
and_bits-mask (suc n) (suc (suc m)) zero x h pos e hx =
    let x_zero : x ≡ 0 = omega arith in rw x_zero (sym (zero-mod (suc (suc m))))
and_bits-mask (suc n) (suc (suc m)) (suc k) x h pos e hx = elim (parity m) [
  | inl even ↦
      even_mask n (suc (suc m)) k x
        (and_bits-mask n (suc (suc m) / 2) k (x / 2) (omega arith) (omega arith)
          (omega (arith, half_even (suc (suc m)) n)) (omega arith))
        (omega arith) (omega arith)
  | inr odd ↦
      let half : (suc (suc m) - 1) / 2 ≡ suc (suc m) / 2 = omega arith in
      let lower : and_bits n (suc (suc m) / 2) (suc (suc m) / 2) ≡ suc (suc m) / 2 =
        and_bits_self n (suc (suc m) / 2) (omega arith) in
      let vanishes : and_bits n (suc (suc m) / 2) ((suc (suc m) - 1) / 2) ≡ 0 = omega arith in
      let vanishes' : and_bits n (suc (suc m) / 2) (suc (suc m) / 2) ≡ 0 = rw half at vanishes in
      absurd (omega arith)
]
