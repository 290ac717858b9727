-- ===== src/OrderAllocator/Permuted.antt =====
-- The order of a PreservedOrderAllocator after `free_idx`, as a list.
use transactron.Prelude.{
  ℕ, zero, suc, ◌+◌, ◌-◌, ◌≤◌, ◌<◌, true, false, not, ◌&&◌, some, List, [], ◌∷◌, ◌++◌, ◌==◌, leb,
  ltb, length, length-append, get_or, take, contains, contains-append, if◌then◌else◌, ◌≡◌, refl,
  sym, ap, ◌∙◌, arith, inl, inr, Bool-cases,
}
use transactron.Graph.Search.{distinct}
use transactron.Hdl.Arrays.{ArrayRead, tabulate, get_or_next, get_or-append, tabulate_get}
use transactron.OrderAllocator.{moved, next_order}

-- The list without the element at a position.
abbrev pub remove_at : ℕ → List ℕ → List ℕ
remove_at i [] = []
remove_at zero (x ∷ xs) = xs
remove_at (suc i) (x ∷ xs) = x ∷ remove_at i xs

pub length-remove_at :
    (i : ℕ) (xs : List ℕ) → i < length xs → length (remove_at i xs) + 1 ≡ length xs
length-remove_at i [] h = absurd (omega arith)
length-remove_at zero (x ∷ xs) h = omega arith
length-remove_at (suc i) (x ∷ xs) h = omega (arith, length-remove_at i xs)

get_or-remove_at :
    (i j : ℕ) (xs : List ℕ)
    → get_or (remove_at i xs) j 0 ≡ (if leb i j then get_or xs (j + 1) 0 else get_or xs j 0)
get_or-remove_at i j [] = ground arith
get_or-remove_at zero j (x ∷ xs) = ground (arith, get_or_next x xs j)
get_or-remove_at (suc i) zero (x ∷ xs) = ground arith
get_or-remove_at (suc i) (suc j) (x ∷ xs) =
    ground (arith, get_or-remove_at i j xs, get_or_next x xs (suc j), get_or_next x xs j)

-- The element at a position goes to the end.
pub next_order-moved :
    (array : ArrayRead) (order : List ℕ) (idx : ℕ)
    → idx < length order
    → next_order array (length order) order (some idx)
      ≡ remove_at idx order ++ get_or order idx 0 ∷ []
next_order-moved array order idx lt =
    let shorter = length-remove_at idx order lt in
    let same_length : length order ≡ length (remove_at idx order ++ get_or order idx 0 ∷ []) =
      omega (arith, length-append (remove_at idx order) (get_or order idx 0 ∷ []), shorter) in
    ap (λ n. tabulate n (moved array (length order) order idx)) same_length
    ∙ tabulate_get (moved array (length order) order idx)
        (remove_at idx order ++ get_or order idx 0 ∷ [])
        (λ i h.
          let end : ℕ = get_or order idx 0 in
          let at_i = get_or-append (remove_at idx order) (end ∷ []) i in
          let in_order : i < length order = omega (arith, same_length) in
          elim (Bool-cases (i + 1 == length order)) [
            | inl last ↦
                let past : ltb i (length (remove_at idx order)) ≡ false = ground (arith, shorter) in
                let none_left : i - length (remove_at idx order) ≡ 0 = ground (arith, shorter) in
                let right : get_or (remove_at idx order ++ end ∷ []) i 0 ≡ end =
                  at_i ∙ rw (past, none_left) refl in
                rw last (array.inside order idx lt ∙ sym right)
            | inr other ↦
                let before : ltb i (length (remove_at idx order)) ≡ true =
                  ground (arith, shorter) in
                let inside : i + 1 < length order = ground arith in
                let right : get_or (remove_at idx order ++ end ∷ []) i 0
                    ≡ get_or (remove_at idx order) i 0 =
                  at_i ∙ rw before refl in
                rw (other, array.inside order i in_order, array.inside order (i + 1) inside)
                  (sym (get_or-remove_at idx i order) ∙ sym right)
          ])

pub contains-moved :
    (i : ℕ) (xs : List ℕ) (a : ℕ)
    → i < length xs
    → contains (remove_at i xs ++ get_or xs i 0 ∷ []) a ≡ contains xs a
contains-moved i [] a h = absurd (omega arith)
contains-moved zero (x ∷ xs) a h = ground (arith, contains-append xs (x ∷ []) a)
contains-moved (suc i) (x ∷ xs) a h = ground (arith, contains-moved i xs a)

distinct-last :
    (xs : List ℕ) (a : ℕ) → distinct (xs ++ a ∷ []) ≡ (not (contains xs a) && distinct xs)
distinct-last [] a = refl
distinct-last (x ∷ xs) a = ground (arith, contains-append xs (a ∷ []) x, distinct-last xs a)

pub distinct-moved :
    (i : ℕ) (xs : List ℕ)
    → i < length xs
    → distinct (remove_at i xs ++ get_or xs i 0 ∷ []) ≡ distinct xs
distinct-moved i [] h = absurd (omega arith)
distinct-moved zero (x ∷ xs) h = distinct-last xs x
distinct-moved (suc i) (x ∷ xs) h = ground (arith, contains-moved i xs x, distinct-moved i xs)

take-append : (n : ℕ) (xs ys : List ℕ) → n ≤ length xs → take n (xs ++ ys) ≡ take n xs
take-append zero xs ys h = refl
take-append (suc n) [] ys h = absurd (omega arith)
take-append (suc n) (x ∷ xs) ys h = ap (λ zs. x ∷ zs) (take-append n xs ys (omega arith))

pub take-remove_at :
    (i n : ℕ) (xs ys : List ℕ)
    → i ≤ n
    → n < length xs
    → take n (remove_at i xs ++ ys) ≡ remove_at i (take (suc n) xs)
take-remove_at i n [] ys h lt = absurd (omega arith)
take-remove_at zero n (x ∷ xs) ys h lt = take-append n xs ys (omega arith)
take-remove_at (suc i) zero (x ∷ xs) ys h lt = absurd (omega arith)
take-remove_at (suc i) (suc n) (x ∷ xs) ys h lt =
    ap (λ zs. x ∷ zs) (take-remove_at i n xs ys (omega arith) (omega arith))

pub take-suc :
    (n : ℕ) (xs : List ℕ) → n < length xs → take (suc n) xs ≡ take n xs ++ get_or xs n 0 ∷ []
take-suc n [] h = absurd (omega arith)
take-suc zero (x ∷ xs) h = refl
take-suc (suc n) (x ∷ xs) h = ap (λ zs. x ∷ zs) (take-suc n xs (omega arith))
