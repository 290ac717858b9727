-- ===== src/Shifter/Rotations.antt =====
-- The shifts and rotations of transactron/utils/amaranth_ext/shifter.py on the level of sequences, by
-- offsets up to their length.
use transactron.Prelude.{
  ℕ, zero, suc, ◌+◌, ◌-◌, ◌≤◌, ◌<◌, Bool, some, List, [], ◌∷◌, ◌++◌, length, length-append,
  length-take, length-drop, take, drop, ◌≡◌, refl, sym, ap, ap₂, ◌∙◌, arith,
}
use mathlib.Core.List.{reverse, reverse-cons, reverse-append, reverse-reverse}
use transactron.Shifter.{
  PartSelect, EntryShape, generic_shift_right, generic_shift_left, generic_shift_vec_right,
  generic_shift_vec_left, rotate_vec_right, rotate_vec_left,
}
use transactron.Shifter.Vectors.{window, generic_shift_right-window, generic_shift_vec_right-window}

module _ {ℓ} {A : Type ℓ} where
  pub take-append : (xs ys : List A) → take (length xs) (xs ++ ys) ≡ xs
  take-append [] ys = refl
  take-append (x ∷ xs) ys = ap (λ l. x ∷ l) (take-append xs ys)

  pub drop-append : (xs ys : List A) → drop (length xs) (xs ++ ys) ≡ ys
  drop-append [] ys = refl
  drop-append (x ∷ xs) ys = drop-append xs ys

  pub take-drop : (n : ℕ) (xs : List A) → take n xs ++ drop n xs ≡ xs
  take-drop zero xs = refl
  take-drop (suc n) [] = refl
  take-drop (suc n) (x ∷ xs) = ap (λ l. x ∷ l) (take-drop n xs)

  drop_first : (n : ℕ) (xs ys : List A) → n ≤ length xs → drop n (xs ++ ys) ≡ drop n xs ++ ys
  drop_first zero xs ys h = refl
  drop_first (suc n) [] ys h = absurd (omega arith)
  drop_first (suc n) (x ∷ xs) ys h = drop_first n xs ys (omega arith)

  take_past : (n : ℕ) (xs ys : List A) → take (length xs + n) (xs ++ ys) ≡ xs ++ take n ys
  take_past n [] ys = ap (λ k. take k ys) (omega arith)
  take_past n (x ∷ xs) ys =
      let next : suc (length xs) + n ≡ suc (length xs + n) = omega arith in
      ap (λ k. take k (x ∷ xs ++ ys)) next ∙ ap (λ l. x ∷ l) (take_past n xs ys)

  -- The end of the first sequence, and the beginning of the second.
  window_lem :
      (off : ℕ) (xs ys : List A) → off ≤ length xs → window off xs ys ≡ drop off xs ++ take off ys
  window_lem off xs ys h =
      let size : length xs ≡ length (drop off xs) + off = omega (arith, length-drop off xs) in
      ap₂ take size (drop_first off xs ys h) ∙ take_past off (drop off xs) ys

  length-reverse : (xs : List A) → length (reverse xs) ≡ length xs
  length-reverse [] = refl
  length-reverse (x ∷ xs) =
      ap length (reverse-cons x xs)
      ∙ omega (arith, length-append (reverse xs) (x ∷ []), length-reverse xs)

  reverse-split : (k : ℕ) (xs : List A) → reverse xs ≡ reverse (drop k xs) ++ reverse (take k xs)
  reverse-split k xs = ap reverse (sym (take-drop k xs)) ∙ reverse-append (take k xs) (drop k xs)

  -- The two ends of a sequence, through its reverse.
  reverse-take :
      (k : ℕ) (xs : List A)
      → k ≤ length xs
      → reverse (take k (reverse xs)) ≡ drop (length xs - k) xs
  reverse-take k xs h =
      let m = length xs - k in
      let size : k ≡ length (reverse (drop m xs)) =
        omega (arith, length-reverse (drop m xs), length-drop m xs) in
      ap reverse (
        ap₂ take size (reverse-split m xs)
        ∙ take-append (reverse (drop m xs)) (reverse (take m xs)))
      ∙ reverse-reverse (drop m xs)

  reverse-drop :
      (k : ℕ) (xs : List A)
      → k ≤ length xs
      → reverse (drop k (reverse xs)) ≡ take (length xs - k) xs
  reverse-drop k xs h =
      let m = length xs - k in
      let size : k ≡ length (reverse (drop m xs)) =
        omega (arith, length-reverse (drop m xs), length-drop m xs) in
      ap reverse (
        ap₂ drop size (reverse-split m xs)
        ∙ drop-append (reverse (drop m xs)) (reverse (take m xs)))
      ∙ reverse-reverse (take m xs)

  -- A window of the reverses, reversed.
  window-reverse :
      (off : ℕ) (xs ys : List A)
      → length xs ≡ length ys
      → off ≤ length xs
      → reverse (window off (reverse xs) (reverse ys))
        ≡ drop (length xs - off) ys ++ take (length xs - off) xs
  window-reverse off xs ys e h =
      ap reverse (window_lem off (reverse xs) (reverse ys) (omega (arith, length-reverse xs)))
      ∙ (reverse-append (drop off (reverse xs)) (take off (reverse ys))
          ∙ ap₂ (λ a b. a ++ b)
              (reverse-take off ys (omega (arith, e)) ∙ ap (λ n. drop (n - off) ys) (sym e))
              (reverse-drop off xs h))

module _ (part : PartSelect) where
  -- A shift of bit vectors of one length by at most that length: to the right, the first vector
  -- without its lowest bits is followed by the lowest bits of the second; to the left, the highest
  -- bits of the second vector come before the first one without its highest bits.
  pub generic_shift_lem :
      (v w : List Bool) (off : ℕ)
      → length v ≡ length w
      → off ≤ length v
      → (generic_shift_right part v w off ≡ some (drop off v ++ take off w))
        × (generic_shift_left part v w off
            ≡ some (drop (length v - off) w ++ take (length v - off) v))
  unfolding generic_shift_left
  generic_shift_lem v w off e h =
      let reversed =
        generic_shift_right-window part (reverse v) (reverse w) off
          (length-reverse v ∙ (e ∙ sym (length-reverse w))) (omega (arith, length-reverse v)) in
      (
        generic_shift_right-window part v w off e h ∙ ap some (window_lem off v w h),
        rw (reversed, generic_shift_left) (ap some (window-reverse off v w e h)),
      )

  module _ {ℓ} {A : Type ℓ} (shape : EntryShape A) where
    -- A shift of two sequences of one length by at most that length: to the right, the first sequence
    -- without its first entries is followed by the first entries of the second; to the left, the last
    -- entries of the second come before the first one without its last entries. The code takes the
    -- entries apart into bits and shifts a slice for each bit.
    pub generic_shift_vec_lem :
        (xs ys : List A) (off : ℕ)
        → 0 < length xs
        → length xs ≡ length ys
        → off ≤ length xs
        → (generic_shift_vec_right part shape xs ys off ≡ some (drop off xs ++ take off ys))
          × (generic_shift_vec_left part shape xs ys off
              ≡ some (drop (length xs - off) ys ++ take (length xs - off) xs))
    unfolding generic_shift_vec_left
    generic_shift_vec_lem xs ys off pos e h =
        let reversed =
          generic_shift_vec_right-window part shape (reverse xs) (reverse ys) off
            (omega (arith, length-reverse xs)) (length-reverse xs ∙ (e ∙ sym (length-reverse ys)))
            (omega (arith, length-reverse xs)) in
        (
          generic_shift_vec_right-window part shape xs ys off pos e h
              ∙ ap some (window_lem off xs ys h),
          rw (reversed, generic_shift_vec_left) (ap some (window-reverse off xs ys e h)),
        )

    pub rotate_vec_right_lem :
        (xs : List A) (off : ℕ)
        → 0 < length xs
        → off ≤ length xs
        → rotate_vec_right part shape xs off ≡ some (drop off xs ++ take off xs)
    unfolding rotate_vec_right
    rotate_vec_right_lem xs off pos h = (generic_shift_vec_lem xs xs off pos refl h).0

    pub rotate_vec_left_lem :
        (xs : List A) (off : ℕ)
        → 0 < length xs
        → off ≤ length xs
        → rotate_vec_left part shape xs off
          ≡ some (drop (length xs - off) xs ++ take (length xs - off) xs)
    unfolding rotate_vec_left
    rotate_vec_left_lem xs off pos h = (generic_shift_vec_lem xs xs off pos refl h).1

    -- Of a sequence that is not empty, by an offset that is at most its length: both rotations succeed,
    -- and the one to the left undoes the one to the right by the same offset.
    pub rotate_vec_left-rotate_vec_right :
        (xs : List A) (off : ℕ)
        → 0 < length xs
        → off ≤ length xs
        → (ys : List A) × (rotate_vec_right part shape xs off ≡ some ys)
          × (rotate_vec_left part shape ys off ≡ some xs)
    rotate_vec_left-rotate_vec_right xs off pos h =
        let first = drop off xs in
        let last = take off xs in
        let long : length (first ++ last) ≡ length xs =
          omega (arith, length-append first last, length-drop off xs, length-take off xs) in
        let size : length (first ++ last) - off ≡ length first =
          omega (arith, length-append first last, length-drop off xs, length-take off xs) in
        (
          first ++ last,
          rotate_vec_right_lem xs off pos h,
          rotate_vec_left_lem (first ++ last) off (omega (arith, long)) (omega (arith, long))
              ∙ ap some (
                  ap₂ (λ a b. a ++ b)
                    (ap (λ n. drop n (first ++ last)) size ∙ drop-append first last)
                    (ap (λ n. take n (first ++ last)) size ∙ take-append first last)
                  ∙ take-drop off xs),
        )
