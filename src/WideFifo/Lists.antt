-- ===== src/WideFifo/Lists.antt =====
-- Lists by their elements.
use transactron.Prelude.{
  ℕ, zero, suc, ◌+◌, ◌-◌, ◌≤◌, ◌<◌, true, false, List, [], ◌∷◌, ◌++◌, ltb, leb, if◌then◌else◌,
  length, length-append, length-take, length-drop, get_or, take, drop, ◌≡◌, refl, sym, ap, ap₂, ◌∙◌,
  arith, Bool-cases, inl, inr,
}
use transactron.Shifter.{table}

module _ {ℓ} {A : Type ℓ} where
  pub get_or-append :
      (xs ys : List A) (k : ℕ) (d : A)
      → get_or (xs ++ ys) k d
        ≡ (if ltb k (length xs) then get_or xs k d else get_or ys (k - length xs) d)
  get_or-append [] ys k d = ground arith
  get_or-append (x ∷ xs) ys zero d = ground arith
  get_or-append (x ∷ xs) ys (suc k) d = ground (arith, get_or-append xs ys k d)

  pub get_or-drop :
      (n : ℕ) (xs : List A) (k : ℕ) (d : A) → get_or (drop n xs) k d ≡ get_or xs (n + k) d
  get_or-drop zero xs k d = ap (λ j. get_or xs j d) (omega arith)
  get_or-drop (suc n) [] k d = refl
  get_or-drop (suc n) (x ∷ xs) k d =
      let next : suc n + k ≡ suc (n + k) = omega arith in
      get_or-drop n xs k d ∙ ap (λ j. get_or (x ∷ xs) j d) (sym next)

  pub get_or-take :
      (n : ℕ) (xs : List A) (k : ℕ) (d : A) → k < n → get_or (take n xs) k d ≡ get_or xs k d
  get_or-take zero xs k d h = absurd (omega arith)
  get_or-take (suc n) [] k d h = refl
  get_or-take (suc n) (x ∷ xs) zero d h = refl
  get_or-take (suc n) (x ∷ xs) (suc k) d h = get_or-take n xs k d (omega arith)

  pub length-table : (n : ℕ) (f : ℕ → A) → length (table n f) ≡ n
  length-table zero f = refl
  length-table (suc n) f = ap suc (length-table n (λ i. f (suc i)))

  pub get_or-table : (n : ℕ) (f : ℕ → A) (k : ℕ) (d : A) → k < n → get_or (table n f) k d ≡ f k
  get_or-table zero f k d h = absurd (omega arith)
  get_or-table (suc n) f zero d h = refl
  get_or-table (suc n) f (suc k) d h = get_or-table n (λ i. f (suc i)) k d (omega arith)

  -- Lists with the same first elements.
  pub take_of :
      (n : ℕ) (xs ys : List A) (d : A)
      → n ≤ length xs
      → n ≤ length ys
      → ((k : ℕ) → k < n → get_or xs k d ≡ get_or ys k d)
      → take n xs ≡ take n ys
  take_of zero xs ys d h h' e = refl
  take_of (suc n) [] ys d h h' e = absurd (omega arith)
  take_of (suc n) (x ∷ xs) [] d h h' e = absurd (omega arith)
  take_of (suc n) (x ∷ xs) (y ∷ ys) d h h' e =
      ap₂ (λ z l. z ∷ l) (e 0 (omega arith))
        (take_of n xs ys d (omega arith) (omega arith) (λ k lt. e (suc k) (omega arith)))

  pub take-take : (n m : ℕ) (xs : List A) → n ≤ m → take n (take m xs) ≡ take n xs
  take-take zero m xs h = refl
  take-take (suc n) zero xs h = absurd (omega arith)
  take-take (suc n) (suc m) [] h = refl
  take-take (suc n) (suc m) (x ∷ xs) h = ap (λ l. x ∷ l) (take-take n m xs (omega arith))

  -- The end of a list before its beginning.
  pub get_or_turned :
      (off k : ℕ) (xs : List A) (d : A)
      → off ≤ length xs
      → k < length xs
      → get_or (drop off xs ++ take off xs) k d ≡ (
          if ltb (off + k) (length xs)
          then get_or xs (off + k) d
          else get_or xs (off + k - length xs) d)
  get_or_turned off k xs d h lt =
      let size = length-drop off xs in
      elim (Bool-cases (ltb (off + k) (length xs))) [
        | inl below ↦
            let test : ltb k (length (drop off xs)) ≡ true = ground (arith, size) in
            rw below
              (get_or-append (drop off xs) (take off xs) k d ∙ rw test (get_or-drop off xs k d))
        | inr above ↦
            let test : ltb k (length (drop off xs)) ≡ false = ground (arith, size) in
            let place : k - length (drop off xs) ≡ off + k - length xs = ground (arith, size) in
            rw above (
              get_or-append (drop off xs) (take off xs) k d
              ∙ rw test (
                  get_or-take off xs (k - length (drop off xs)) d (ground (arith, size))
                  ∙ ap (λ j. get_or xs j d) place))
      ]

  pub length_turned :
      (off : ℕ) (xs : List A) → off ≤ length xs → length (drop off xs ++ take off xs) ≡ length xs
  length_turned off xs h =
      omega
        (arith, length-append (drop off xs) (take off xs), length-drop off xs, length-take off xs)

  -- The same turned to the left.
  pub get_or_turned_left :
      (off i : ℕ) (xs : List A) (d : A)
      → off < length xs
      → i < length xs
      → get_or (drop (length xs - off) xs ++ take (length xs - off) xs) i d
        ≡ get_or xs (if leb off i then i - off else i + length xs - off) d
  get_or_turned_left off i xs d h lt =
      get_or_turned (length xs - off) i xs d (omega arith) lt ∙ elim (Bool-cases (leb off i)) [
        | inl past ↦
            let test : ltb (length xs - off + i) (length xs) ≡ false = ground arith in
            rw (test, past) (ap (λ j. get_or xs j d) (ground arith))
        | inr before ↦
            let test : ltb (length xs - off + i) (length xs) ≡ true = ground arith in
            rw (test, before) (ap (λ j. get_or xs j d) (ground arith))
      ]

  -- Tables turned to the right and to the left.
  pub turned_table :
      (n off k : ℕ) (f : ℕ → A) (d : A)
      → off ≤ n
      → k < n
      → get_or (drop off (table n f) ++ take off (table n f)) k d
        ≡ f (if ltb (off + k) n then off + k else off + k - n)
  turned_table n off k f d h lt =
      let size = length-table n f in
      get_or_turned off k (table n f) d (omega arith) (omega arith)
      ∙ elim (Bool-cases (ltb (off + k) n)) [
        | inl below ↦
            let test : ltb (off + k) (length (table n f)) ≡ true = ground (arith, size) in
            rw (test, below) (get_or-table n f (off + k) d (ground arith))
        | inr above ↦
            let test : ltb (off + k) (length (table n f)) ≡ false = ground (arith, size) in
            rw (test, above, size) (get_or-table n f (off + k - n) d (ground arith))
      ]

  pub turned_left_table :
      (n off i : ℕ) (f : ℕ → A) (d : A)
      → off < n
      → i < n
      → get_or (drop (n - off) (table n f) ++ take (n - off) (table n f)) i d
        ≡ f (if leb off i then i - off else i + n - off)
  turned_left_table n off i f d h lt =
      turned_table n (n - off) i f d (omega arith) lt ∙ elim (Bool-cases (leb off i)) [
        | inl past ↦
            let test : ltb (n - off + i) n ≡ false = ground arith in
            rw (test, past) (ap f (ground arith))
        | inr before ↦
            let test : ltb (n - off + i) n ≡ true = ground arith in
            rw (test, before) (ap f (ground arith))
      ]
