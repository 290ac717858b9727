-- ===== src/Hdl/Arrays.antt =====
-- Amaranth's `Array` of signals, read at an index that is a signal. What an index past the end reads
-- is left open. Lists of signals are tables of their elements.
use transactron.Prelude.{
  ℕ, zero, suc, ◌+◌, ◌-◌, ◌<◌, List, [], ◌∷◌, ◌++◌, length, get_or, ltb, if◌then◌else◌, ◌≡◌, refl,
  ap, ap₂, ◌∙◌, arith,
}

pub record ArrayRead : Type 0 where
  pub at : List ℕ → ℕ → ℕ
  pub inside : (xs : List ℕ) (i : ℕ) → i < length xs → at xs i ≡ get_or xs i 0

-- `f(i)` for `n` values of `i` from 0.
abbrev pub tabulate : ℕ → (ℕ → ℕ) → List ℕ
tabulate zero f = []
tabulate (suc n) f = f 0 ∷ tabulate n (λ i. f (i + 1))

pub length-tabulate : (n : ℕ) (f : ℕ → ℕ) → length (tabulate n f) ≡ n
length-tabulate zero f = refl
length-tabulate (suc n) f = ap suc (length-tabulate n (λ i. f (i + 1)))

pub get_or_next : (x : ℕ) (xs : List ℕ) (j : ℕ) → get_or (x ∷ xs) (j + 1) 0 ≡ get_or xs j 0
get_or_next x xs j = let next : j + 1 ≡ suc j = omega arith in ap (λ k. get_or (x ∷ xs) k 0) next

pub get_or-append :
    (xs ys : List ℕ) (j : ℕ)
    → get_or (xs ++ ys) j 0
      ≡ (if ltb j (length xs) then get_or xs j 0 else get_or ys (j - length xs) 0)
get_or-append [] ys j = ground arith
get_or-append (x ∷ xs) ys zero = ground arith
get_or-append (x ∷ xs) ys (suc j) = ground (arith, get_or-append xs ys j)

-- A list is the table of its elements.
pub tabulate_get :
    (f : ℕ → ℕ) (xs : List ℕ)
    → ((i : ℕ) → i < length xs → f i ≡ get_or xs i 0)
    → tabulate (length xs) f ≡ xs
tabulate_get f [] h = refl
tabulate_get f (x ∷ xs) h =
    ap₂ (λ y ys. y ∷ ys) (h 0 (omega arith))
      (tabulate_get (λ i. f (i + 1)) xs (λ i lt. h (i + 1) (omega arith) ∙ get_or_next x xs i))

pub get_or-tabulate : (n i : ℕ) (f : ℕ → ℕ) → i < n → get_or (tabulate n f) i 0 ≡ f i
get_or-tabulate zero i f h = absurd (omega arith)
get_or-tabulate (suc n) zero f h = refl
get_or-tabulate (suc n) (suc i) f h =
    let next : i + 1 ≡ suc i = omega arith in
    get_or-tabulate n i (λ k. f (k + 1)) (omega arith) ∙ ap f next
