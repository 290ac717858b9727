-- ===== src/Hdl/Widths.antt =====
-- Amaranth's shape `range(n)`: as many bits as every number below `n` fits in. The number of bits is
-- a parameter.
use transactron.Prelude.{ℕ, suc, ◌+◌, ◌-◌, ◌*◌, ◌%◌, ◌^◌, ◌≤◌, ◌<◌, ◌≡◌, arith}
use native.Mathlib.Nat.{mod-eq_of_lt, add-mod_right, add-mul-mod_self_right}

pub record RangeShape : Type 0 where
  pub width : ℕ → ℕ
  pub fits : (n i : ℕ) → i < n → i < 2 ^ width n

-- A value assigned to `Signal(range(n))`.
unfoldable pub wrap : RangeShape → ℕ → ℕ → ℕ
wrap shape n x = x % 2 ^ shape.width n

-- `x - 1` assigned to `Signal(range(n))`: the difference is signed and its low bits are kept.
unfoldable pub wrap_pred : RangeShape → ℕ → ℕ → ℕ
unfolding wrap
wrap_pred shape n x = wrap shape n (x + 2 ^ shape.width n - 1)

pub wrap_small : (shape : RangeShape) (n x : ℕ) → x < n → wrap shape n x ≡ x
unfolding wrap
wrap_small shape n x h = mod-eq_of_lt (shape.fits n x h)

pub wrap_pred-suc : (shape : RangeShape) (n x : ℕ) → x < n → wrap_pred shape n (suc x) ≡ x
unfolding wrap_pred wrap
wrap_pred-suc shape n x h =
    let cancel : suc x + 2 ^ shape.width n - 1 ≡ x + 2 ^ shape.width n = omega arith in
    rw (cancel, add-mod_right x (2 ^ shape.width n)) (mod-eq_of_lt (shape.fits n x h))

-- A difference that is not negative.
pub wrap-difference :
    (shape : RangeShape) (n x y : ℕ)
    → y ≤ x
    → x - y < n
    → wrap shape n (x + 2 ^ shape.width n - y) ≡ x - y
unfolding wrap
wrap-difference shape n x y h lt =
    let shift : x + 2 ^ shape.width n - y ≡ x - y + 2 ^ shape.width n = omega arith in
    rw (shift, add-mod_right (x - y) (2 ^ shape.width n)) (mod-eq_of_lt (shape.fits n (x - y) lt))

pub wrap-difference_many :
    (shape : RangeShape) (n x y : ℕ)
    → y ≤ x
    → x - y < n
    → wrap shape n (x + y * 2 ^ shape.width n - y) ≡ x - y
unfolding wrap
wrap-difference_many shape n x y h lt =
    let shift : x + y * 2 ^ shape.width n - y ≡ x - y + y * 2 ^ shape.width n = omega arith in
    rw (shift, add-mul-mod_self_right (x - y) y (2 ^ shape.width n))
      (mod-eq_of_lt (shape.fits n (x - y) lt))
