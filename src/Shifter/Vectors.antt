-- ===== src/Shifter/Vectors.antt =====
-- A shift of a sequence, made bit by bit, is a window of the two sequences in a row.
use transactron.Prelude.{
  ℕ, zero, suc, ◌≤◌, ◌<◌, Bool, true, false, Option, some, List, [], ◌∷◌, ◌++◌, ◌==◌, ◌&&◌, ==_iff,
  ltb, length, length-append, length-take, length-drop, get_or, take, drop, map, ◌≡◌, refl, sym, ap,
  ap₂, ◌∙◌, arith,
}
use transactron.Shifter.{
  PartSelect, EntryShape, table, zip_some, generic_shift_right, generic_shift_vec_right, slice,
  slices,
}

-- The `length xs` elements from `off` on of the sequence `xs ++ ys`.
abbrev pub window {ℓ} : {A : Type ℓ} → ℕ → List A → List A → List A
window off xs ys = take (length xs) (drop off (xs ++ ys))

module _ {ℓ κ} {A : Type ℓ} {B : Type κ} (f : A → B) where
  pub length-map : (xs : List A) → length (map f xs) ≡ length xs
  length-map [] = refl
  length-map (x ∷ xs) = ap suc (length-map xs)

  take-map : (n : ℕ) (xs : List A) → take n (map f xs) ≡ map f (take n xs)
  take-map zero xs = refl
  take-map (suc n) [] = refl
  take-map (suc n) (x ∷ xs) = ap (λ l. f x ∷ l) (take-map n xs)

  drop-map : (n : ℕ) (xs : List A) → drop n (map f xs) ≡ map f (drop n xs)
  drop-map zero xs = refl
  drop-map (suc n) [] = refl
  drop-map (suc n) (x ∷ xs) = drop-map n xs

  map-append : (xs ys : List A) → map f (xs ++ ys) ≡ map f xs ++ map f ys
  map-append [] ys = refl
  map-append (x ∷ xs) ys = ap (λ l. f x ∷ l) (map-append xs ys)

  window-map :
      (off : ℕ) (xs ys : List A) → window off (map f xs) (map f ys) ≡ map f (window off xs ys)
  window-map off xs ys =
      ap₂ (λ n l. take n (drop off l)) (length-map xs) (sym (map-append xs ys))
      ∙ (ap (take (length xs)) (drop-map off (xs ++ ys))
          ∙ take-map (length xs) (drop off (xs ++ ys)))

  get_or-map :
      (xs : List A) (i : ℕ) (d : A) (e : B)
      → i < length xs
      → get_or (map f xs) i e ≡ f (get_or xs i d)
  get_or-map [] i d e h = absurd (omega arith)
  get_or-map (x ∷ xs) zero d e h = refl
  get_or-map (x ∷ xs) (suc i) d e h = get_or-map xs i d e (omega arith)

module _ {ℓ} {A : Type ℓ} where
  pub length-window :
      (off : ℕ) (xs ys : List A) → off ≤ length ys → length (window off xs ys) ≡ length xs
  length-window off xs ys h =
      length-take (length xs) (drop off (xs ++ ys))
        (omega (arith, length-drop off (xs ++ ys), length-append xs ys))

  table_of : (f g : ℕ → A) (n : ℕ) → ((i : ℕ) → i < n → f i ≡ g i) → table n f ≡ table n g
  table_of f g zero h = refl
  table_of f g (suc n) h =
      ap₂ (λ x l. x ∷ l) (h 0 (omega arith))
        (table_of (λ i. f (suc i)) (λ i. g (suc i)) n (λ i lt. h (suc i) (omega arith)))

  -- A list is the table of its elements.
  pub table_get : (xs : List A) (d : A) → table (length xs) (λ i. get_or xs i d) ≡ xs
  table_get [] d = refl
  table_get (x ∷ xs) d = ap (λ l. x ∷ l) (table_get xs d)

  map-table {κ} :
      {B : Type κ} (f : A → B) (n : ℕ) (g : ℕ → A) → map f (table n g) ≡ table n (λ i. f (g i))
  map-table f zero g = refl
  map-table f (suc n) g = ap (λ l. f (g 0) ∷ l) (map-table f n (λ i. g (suc i)))

  zip_some-table :
      (f : A → A → Option A) (n : ℕ) (g h k : ℕ → A)
      → ((i : ℕ) → i < n → f (g i) (h i) ≡ some (k i))
      → zip_some f (table n g) (table n h) ≡ some (table n k)
  zip_some-table f zero g h k e = refl
  zip_some-table f (suc n) g h k e =
      let rest =
        zip_some-table f n (λ i. g (suc i)) (λ i. h (suc i)) (λ i. k (suc i))
          (λ i lt. e (suc i) (omega arith)) in
      rw (e 0 (omega arith), rest)

==_same : (n : ℕ) → (n == n) ≡ true
==_same n = (==_iff n n).1 refl

module _ (part : PartSelect) where
  -- The bits of two vectors of one length in a row.
  pub generic_shift_right-window :
      (v w : List Bool) (off : ℕ)
      → length v ≡ length w
      → off ≤ length v
      → generic_shift_right part v w off ≡ some (window off v w)
  unfolding generic_shift_right
  generic_shift_right-window v w off e h =
      let test : (length v == length w) ≡ true = (==_iff (length v) (length w)).1 e in
      rw test (ap some (part.inside (v ++ w) off (length v) (omega (arith, length-append v w))))

  module _ {ℓ} {A : Type ℓ} (shape : EntryShape A) where
    open shape use {width, cast, of_bits}

    -- The values that the bits of the shifted slices make up.
    unsliced :
        (values : List A)
        → map of_bits (table (length values) (λ i. slice i (slices width (map cast values))))
          ≡ values
    unsliced values =
        map-table of_bits (length values) (λ i. slice i (slices width (map cast values)))
        ∙ (table_of (λ i. of_bits (slice i (slices width (map cast values))))
              (λ i. get_or values i (of_bits [])) (length values) entry
            ∙ table_get values (of_bits []))
      where
        bits : (i : ℕ) → i < length values → ℕ → Bool
        bits i lt j = get_or (cast (get_or values i (of_bits []))) j false

        entry :
            (i : ℕ)
            → i < length values
            → of_bits (slice i (slices width (map cast values))) ≡ get_or values i (of_bits [])
        entry i lt =
            ap of_bits (
              map-table (λ val. get_or val i false) width (λ j. slice j (map cast values))
              ∙ (table_of (λ j. get_or (slice j (map cast values)) i false) (bits i lt) width
                    (λ j jt.
                      get_or-map (λ val. get_or val j false) (map cast values) i (cast (of_bits []))
                        false (omega (arith, length-map cast values))
                      ∙ ap (λ val. get_or val j false)
                          (get_or-map cast values i (of_bits []) (cast (of_bits [])) lt))
                  ∙ (ap (λ n. table n (bits i lt))
                        (sym (shape.length-cast (get_or values i (of_bits []))))
                      ∙ table_get (cast (get_or values i (of_bits []))) false)))
            ∙ shape.of_bits-cast (get_or values i (of_bits []))

    -- One slice of the result.
    shifted_slice :
        (xs ys : List A) (off i : ℕ)
        → length xs ≡ length ys
        → off ≤ length xs
        → generic_shift_right part (slice i (map cast xs)) (slice i (map cast ys)) off
          ≡ some (slice i (map cast (window off xs ys)))
    shifted_slice xs ys off i e h =
        let bit = λ (val : List Bool). get_or val i false in
        let long = length-map bit (map cast xs) ∙ length-map cast xs in
        let long' = length-map bit (map cast ys) ∙ length-map cast ys in
        generic_shift_right-window (slice i (map cast xs)) (slice i (map cast ys)) off
          (long ∙ (e ∙ sym long')) (omega (arith, long))
        ∙ ap some (
            window-map bit off (map cast xs) (map cast ys)
            ∙ ap (map bit) (window-map cast off xs ys))

    shifted_slices :
        (xs ys : List A) (off : ℕ)
        → length xs ≡ length ys
        → off ≤ length xs
        → zip_some
            (λ b1 b2. generic_shift_right part b1 b2 off)
            (slices width (map cast xs))
            (slices width (map cast ys))
          ≡ some (slices width (map cast (window off xs ys)))
    shifted_slices xs ys off e h =
        zip_some-table (λ b1 b2. generic_shift_right part b1 b2 off) width
          (λ i. slice i (map cast xs)) (λ i. slice i (map cast ys))
          (λ i. slice i (map cast (window off xs ys))) (λ i lt. shifted_slice xs ys off i e h)

    -- The shift of two sequences of one length is the window at the offset, made of the entries
    -- themselves, though it is computed on slices of bits.
    pub generic_shift_vec_right-window :
        (xs ys : List A) (off : ℕ)
        → 0 < length xs
        → length xs ≡ length ys
        → off ≤ length xs
        → generic_shift_vec_right part shape xs ys off ≡ some (window off xs ys)
    unfolding generic_shift_vec_right
    generic_shift_vec_right-window xs ys off pos e h =
        let test : (ltb 0 (length xs) && length xs == length ys) ≡ true = ground arith in
        let long : length (window off xs ys) ≡ length xs =
          length-window off xs ys (omega (arith, e)) in
        rw (generic_shift_vec_right, test, shifted_slices xs ys off e h)
          (ap some (
            ap
              (λ n.
                map of_bits (table n (λ i. slice i (slices width (map cast (window off xs ys))))))
              (sym long)
            ∙ unsliced (window off xs ys)))
