-- ===== src/Encoder/Slots.antt =====
-- The positions of the set bits of a signal, and outputs that list them.
use transactron.Prelude.{
  ℕ, zero, suc, ◌+◌, ◌-◌, ◌≤◌, ◌<◌, min, Bool, true, false, List, [], ◌∷◌, ◌++◌, length, take, drop,
  ◌≡◌, refl, ap, ◌∙◌, arith, inl, inr, Bool-cases, ◌==◌,
}
use transactron.Encoder.{Slots, undriven, is_ones, joined, switched}

-- The positions of the set bits, counted from `start`.
abbrev pub set_bits : ℕ → List Bool → List ℕ
set_bits start [] = []
set_bits start (true ∷ bits) = start ∷ set_bits (start + 1) bits
set_bits start (false ∷ bits) = set_bits (start + 1) bits

-- The first `k` positions, valid, and then invalid outputs.
abbrev pub slots_of : ℕ → List ℕ → Slots
slots_of zero ps = []
slots_of (suc k) [] = (0, false) ∷ slots_of k []
slots_of (suc k) (p ∷ ps) = (p, true) ∷ slots_of k ps

pub undriven-slots_of : (k : ℕ) → undriven k ≡ slots_of k []
undriven-slots_of zero = refl
undriven-slots_of (suc k) = ap (λ s. (0, false) ∷ s) (undriven-slots_of k)

pub set_bits-split :
    (n start : ℕ) (bits : List Bool)
    → n ≤ length bits
    → set_bits start (take n bits) ++ set_bits (start + n) (drop n bits) ≡ set_bits start bits
set_bits-split zero start bits h = ap (λ s. set_bits s bits) (omega arith)
set_bits-split (suc n) start [] h = absurd (omega arith)
set_bits-split (suc n) start (true ∷ bits) h =
    ap (λ s. start ∷ (set_bits (start + 1) (take n bits) ++ set_bits s (drop n bits))) (omega arith)
    ∙ ap (λ s. start ∷ s) (set_bits-split n (start + 1) bits (omega arith))
set_bits-split (suc n) start (false ∷ bits) h =
    ap (λ s. set_bits (start + 1) (take n bits) ++ set_bits s (drop n bits)) (omega arith)
    ∙ set_bits-split n (start + 1) bits (omega arith)

-- The case of outputs that list positions is their number, at most `k`.
is_ones-slots_of : (i k : ℕ) (ps : List ℕ) → is_ones i (slots_of k ps) ≡ (i == min k (length ps))
is_ones-slots_of zero zero ps = ground arith
is_ones-slots_of (suc i) zero ps = ground arith
is_ones-slots_of zero (suc k) [] = ground (arith, is_ones-slots_of zero k [])
is_ones-slots_of (suc i) (suc k) [] = ground arith
is_ones-slots_of zero (suc k) (p ∷ ps) = ground arith
is_ones-slots_of (suc i) (suc k) (p ∷ ps) = ground (arith, is_ones-slots_of i k ps)

take-slots_of : (n k : ℕ) (ps : List ℕ) → n ≤ k → take n (slots_of k ps) ≡ slots_of n ps
take-slots_of zero k ps h = refl
take-slots_of (suc n) zero ps h = absurd (omega arith)
take-slots_of (suc n) (suc k) [] h = ap (λ s. (0, false) ∷ s) (take-slots_of n k [] (omega arith))
take-slots_of (suc n) (suc k) (p ∷ ps) h =
    ap (λ s. (p, true) ∷ s) (take-slots_of n k ps (omega arith))

slots_of-append :
    (k m : ℕ) (ps qs : List ℕ)
    → m ≡ min k (length ps)
    → take m (slots_of k ps) ++ slots_of (k - m) qs ≡ slots_of k (ps ++ qs)
slots_of-append zero zero ps qs e = refl
slots_of-append zero (suc m) ps qs e = absurd (omega arith)
slots_of-append (suc k) zero [] qs e =
    let same : suc k - 0 ≡ suc k = omega arith in ap (λ n. slots_of n qs) same
slots_of-append (suc k) zero (p ∷ ps) qs e = absurd (omega arith)
slots_of-append (suc k) (suc m) [] qs e = absurd (omega arith)
slots_of-append (suc k) (suc m) (p ∷ ps) qs e =
    let same : suc k - suc m ≡ k - m = omega arith in
    ap (λ n. (p, true) ∷ (take m (slots_of k ps) ++ slots_of n qs)) same
    ∙ ap (λ s. (p, true) ∷ s) (slots_of-append k m ps qs (omega arith))

joined-slots_of :
    (k : ℕ) (ps qs : List ℕ)
    → joined k (min k (length ps)) (slots_of k ps) (slots_of k qs) ≡ slots_of k (ps ++ qs)
joined-slots_of k ps qs =
    ap (λ s. take (min k (length ps)) (slots_of k ps) ++ s)
      (take-slots_of (k - min k (length ps)) k qs (omega arith))
    ∙ slots_of-append k (min k (length ps)) ps qs refl

pub switched-slots_of :
    (k i n : ℕ) (ps qs : List ℕ)
    → i ≤ min k (length ps)
    → min k (length ps) < i + n
    → switched k i n (slots_of k ps) (slots_of k qs) ≡ slots_of k (ps ++ qs)
switched-slots_of k i zero ps qs h h' = absurd (omega arith)
switched-slots_of k i (suc n) ps qs h h' = elim (Bool-cases (i == min k (length ps))) [
  | inl e ↦
      let same : i ≡ min k (length ps) = ground arith in
      rw (is_ones-slots_of i k ps, e, switched)
        (ap (λ m. joined k m (slots_of k ps) (slots_of k qs)) same ∙ joined-slots_of k ps qs)
  | inr e ↦
      rw (is_ones-slots_of i k ps, e, switched)
        (switched-slots_of k (i + 1) n ps qs (ground arith) (omega arith))
]
