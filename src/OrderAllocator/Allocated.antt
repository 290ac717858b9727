-- ===== src/OrderAllocator/Allocated.antt =====
-- The allocated identifiers, in the order of their allocation.
use transactron.Prelude.{
  ℕ, zero, suc, ◌+◌, ◌-◌, ◌≤◌, ◌<◌, true, false, not, Option, none, some, List, [], ◌∷◌, ◌++◌,
  append-nil, ◌==◌, bit, length, length-append, get_or, take, contains, In, if◌then◌else◌, if-some,
  ◌≡◌, refl, sym, ap, subst, ◌∙◌, arith, inl, inr, Bool-cases,
}
use transactron.Graph.Search.{distinct}
use transactron.Hdl.{runs_if_ready}
use transactron.Hdl.Arrays.{ArrayRead, tabulate, length-tabulate}
use transactron.Hdl.Widths.{RangeShape, wrap, wrap_pred, wrap_small, wrap_pred-suc}
use transactron.OrderAllocator.{
  OrderRegisters, FreeCall, no_free, free_idx, free, OrderCalls, initial_order, last_index,
  freed_idx, next_order, incr_used, next_used, order_cycle,
}
use transactron.OrderAllocator.Permuted.{
  remove_at, length-remove_at, next_order-moved, contains-moved, distinct-moved, take-remove_at,
  take-suc,
}

-- The order is a permutation of the numbers below `entries`.
abbrev pub IsPermuted : ℕ → OrderRegisters → Type 0
IsPermuted entries s =
    (length s.order ≡ entries)
    × ((s.used ≤ entries) × ((distinct s.order ≡ true) × ((x : ℕ) → In x s.order → x < entries)))

abbrev pub allocated : OrderRegisters → List ℕ
allocated s = take s.used s.order

-- The list without the first `ident`.
abbrev pub remove : ℕ → List ℕ → List ℕ
remove ident [] = []
remove ident (x ∷ xs) = if x == ident then xs else x ∷ remove ident xs

-- What a call frees: the element at a position, or the identifier.
abbrev pub without : FreeCall → List ℕ → List ℕ
without no_free xs = xs
without (free_idx i) xs = remove_at i xs
without (free ident) xs = remove ident xs

-- What is freed is allocated.
abbrev pub FreesAllocated : OrderRegisters → FreeCall → Type 0
FreesAllocated s no_free = Unit
FreesAllocated s (free_idx i) = i < s.used
FreesAllocated s (free ident) = In ident (allocated s)

-- By the position that is freed.
abbrev without_at : Option ℕ → List ℕ → List ℕ
without_at none xs = xs
without_at (some i) xs = remove_at i xs

last_index_past :
    (ident idx k : ℕ) (xs : List ℕ) → contains xs ident ≡ false → last_index ident idx k xs ≡ idx
last_index_past ident idx k [] h = refl
last_index_past ident idx k (x ∷ xs) h =
    let other : (x == ident) ≡ false = ground arith in
    rw other (last_index_past ident idx (k + 1) xs (ground arith))

-- The search finds the position of an identifier that stands among the first `n` elements; to remove
-- that position from the first `m` elements is to remove the identifier.
last_index-remove :
    (ident idx k n m : ℕ) (xs : List ℕ)
    → distinct xs ≡ true
    → In ident (take n xs)
    → n ≤ m
    → (i : ℕ) × (last_index ident idx k xs ≡ k + i)
      × (i < n)
      × (remove_at i (take m xs) ≡ remove ident (take m xs))
last_index-remove ident idx k zero m xs once there le = absurd (cc)
last_index-remove ident idx k (suc n) m [] once there le = absurd (cc)
last_index-remove ident idx k (suc n) zero (x ∷ xs) once there le = absurd (omega arith)
last_index-remove ident idx k (suc n) (suc m) (x ∷ xs) once there le =
    elim (Bool-cases (x == ident)) [
      | inl here ↦
          let same : x ≡ ident = ground arith in
          let gone : contains xs x ≡ false = ground arith in
          let past =
            last_index_past ident k (k + 1) xs (subst (λ a. contains xs a ≡ false) same gone) in
          (0, rw here (past ∙ omega arith), omega arith, rw here refl)
      | inr other ↦
          let (i, at, lt, cut) =
            last_index-remove ident idx (k + 1) n m xs (ground arith) (ground arith)
              (omega arith) in
          (suc i, rw other (at ∙ omega arith), omega arith, rw other (ap (λ ys. x ∷ ys) cut))
    ]

contains-counted :
    (n k a : ℕ) (f : ℕ → ℕ) → ((i : ℕ) → f i ≡ k + i) → In a (tabulate n f) → (k ≤ a) × (a < k + n)
contains-counted zero k a f e h = cc
contains-counted (suc n) k a f e h = elim (Bool-cases (f 0 == a)) [
  | inl here ↦ let eq : f 0 ≡ a = ground arith in (omega (arith, e 0), omega (arith, e 0))
  | inr later ↦
      let (low, high) =
        contains-counted n (k + 1) a (λ i. f (i + 1)) (λ i. e (i + 1) ∙ omega arith)
          (ground arith) in
      (omega arith, omega arith)
]

distinct-counted : (n k : ℕ) (f : ℕ → ℕ) → ((i : ℕ) → f i ≡ k + i) → distinct (tabulate n f) ≡ true
distinct-counted zero k f e = refl
distinct-counted (suc n) k f e = elim (Bool-cases (contains (tabulate n (λ i. f (i + 1))) (f 0))) [
  | inl twice ↦
      let (low, high) =
        contains-counted n (k + 1) (f 0) (λ i. f (i + 1)) (λ i. e (i + 1) ∙ omega arith) twice in
      absurd (omega (arith, e 0))
  | inr once ↦
      ground (arith, distinct-counted n (k + 1) (λ i. f (i + 1)) (λ i. e (i + 1) ∙ omega arith))
]

module _ (shape : RangeShape) (array : ArrayRead) (entries ident : ℕ) (s next : OrderRegisters)
    (c : OrderCalls) (valid : IsPermuted entries s) (legal : FreesAllocated s c.freed)
    (cycle : order_cycle shape array entries s c ≡ some (ident, next)) where
  abbrev Opened : Type 0
  Opened =
      (runs_if_ready c.alloc (not (s.used == entries)) ≡ true)
      × ((ident ≡ array.at s.order s.used)
          × (next ≡ (
              if c.clear then record { order = initial_order entries; used = 0 } else record {
                order = next_order array entries s.order (freed_idx s.order c.freed);
                used = next_used shape array entries s.used c.alloc (freed_idx s.order c.freed);
              })))

  opened : Opened
  unfolding order_cycle
  opened =
      let (ok, same) = if-some _ _ _ cycle in
      (ok, (ap (λ x. x.0) (sym same), ap (λ x. x.1) (sym same)))

  -- After `alloc`, before anything is freed.
  room : s.used + bit c.alloc ≤ entries
  room =
      let (ok, rest) = opened in let (same_length, (low, more)) = valid in ground (arith, ok, low)

  small : incr_used shape array entries s.used c.alloc ≡ s.used + bit c.alloc
  small = wrap_small shape (entries + 1) (s.used + bit c.alloc) (omega (arith, room))

  given : c.alloc ≡ true → ident ≡ get_or s.order s.used 0
  given alloc =
      let (ok, (same, rest)) = opened in
      same ∙ array.inside s.order s.used (omega (arith, room, valid.0, ap bit alloc))

  grown : take (s.used + bit c.alloc) s.order ≡ allocated s ++ (if c.alloc then ident ∷ [] else [])
  grown = elim (Bool-cases c.alloc) [
    | inl alloc ↦
        let more : s.used + bit c.alloc ≡ suc s.used = omega (arith, ap bit alloc) in
        let inside : s.used < length s.order = omega (arith, room, valid.0, ap bit alloc) in
        ap (λ n. take n s.order) more
        ∙ take-suc s.used s.order inside
        ∙ rw alloc (ap (λ x. allocated s ++ x ∷ []) (sym (given alloc)))
    | inr idle ↦
        let same : s.used + bit c.alloc ≡ s.used = omega (arith, ap bit idle) in
        ap (λ n. take n s.order) same ∙ rw idle (sym (append-nil (allocated s)))
  ]

  -- What the cycle makes of the order and its number without `clear`, by the freed position.
  abbrev Moved : Option ℕ → OrderRegisters → Type 0
  Moved idx r =
      IsPermuted entries r
      × (allocated r ≡ without_at idx (allocated s ++ (if c.alloc then ident ∷ [] else [])))

  kept-Moved : Moved none (record {
    order = s.order;
    used = wrap shape (entries + 1) (incr_used shape array entries s.used c.alloc);
  })
  kept-Moved =
      let same : wrap shape (entries + 1) (incr_used shape array entries s.used c.alloc)
          ≡ s.used + bit c.alloc =
        ap (wrap shape (entries + 1)) small
        ∙ wrap_small shape (entries + 1) (s.used + bit c.alloc) (omega (arith, room)) in
      ((valid.0, (omega (arith, same, room), valid.1.1)), ap (λ n. take n s.order) same ∙ grown)

  freed-Moved :
      (i : ℕ)
      → i < s.used
      → Moved (some i) (record {
        order = next_order array entries s.order (some i);
        used = wrap_pred shape (entries + 1) (incr_used shape array entries s.used c.alloc);
      })
  freed-Moved i lt =
      let (same_length, (low, (once, below))) = valid in
      let inside : i < length s.order = omega (arith, room) in
      let after : next_order array entries s.order (some i)
          ≡ remove_at i s.order ++ get_or s.order i 0 ∷ [] =
        ap (λ n. next_order array n s.order (some i)) (sym same_length)
        ∙ next_order-moved array s.order i inside in
      let k : ℕ = s.used + bit c.alloc - 1 in
      let suc_k : s.used + bit c.alloc ≡ suc k = omega arith in
      let less : wrap_pred shape (entries + 1) (incr_used shape array entries s.used c.alloc) ≡ k =
        ap (wrap_pred shape (entries + 1)) (small ∙ suc_k)
        ∙ wrap_pred-suc shape (entries + 1) k (omega (arith, room)) in
      let shorter = length-remove_at i s.order inside in
      (
        (
          ap length after
              ∙ length-append (remove_at i s.order) (get_or s.order i 0 ∷ [])
              ∙ omega (arith, shorter, same_length),
          (
            omega (arith, less, room),
            (
              ap distinct after ∙ distinct-moved i s.order inside ∙ once,
              λ x m. below x (
                  sym (contains-moved i s.order x inside) ∙ ap (λ o. contains o x) (sym after) ∙ m),
            ),
          ),
        ),
        ap (λ n. take n (next_order array entries s.order (some i))) less
            ∙ ap (take k) after
            ∙ take-remove_at i k s.order (get_or s.order i 0 ∷ []) (omega arith)
                (omega (arith, room))
            ∙ ap (λ n. remove_at i (take n s.order)) (sym suc_k)
            ∙ ap (remove_at i) grown,
      )

  -- The freed position is one of an allocated identifier, and what is removed is what is freed.
  freed_position :
      (call : FreeCall)
      → FreesAllocated s call
      → ((i : ℕ) → freed_idx s.order call ≡ some i → i < s.used)
        × (without_at (freed_idx s.order call) (take (s.used + bit c.alloc) s.order)
            ≡ without call (take (s.used + bit c.alloc) s.order))
  freed_position no_free h = (λ i e. absurd (cc), refl)
  freed_position (free_idx j) h = (λ i e. let same : j ≡ i = cc in omega arith, refl)
  freed_position (free x) h =
      let (j, at, lt, cut) =
        last_index-remove x 0 0 s.used (s.used + bit c.alloc) s.order valid.1.1.0 h (omega arith) in
      let found : last_index x 0 0 s.order ≡ j = at ∙ omega arith in
      (
        λ i e. let same : last_index x 0 0 s.order ≡ i = cc in omega arith,
        ap (λ i. remove_at i (take (s.used + bit c.alloc) s.order)) found ∙ cut,
      )

  stepped :
      (idx : Option ℕ)
      → freed_idx s.order c.freed ≡ idx
      → Moved idx (record {
        order = next_order array entries s.order idx;
        used = next_used shape array entries s.used c.alloc idx;
      })
  stepped none e = kept-Moved
  stepped (some i) e = freed-Moved i ((freed_position c.freed legal).0 i e)

  initial-IsPermuted : IsPermuted entries (record { order = initial_order entries; used = 0 })
  initial-IsPermuted = (
    length-tabulate entries (λ i. i),
    (
      omega arith,
      (
        distinct-counted entries 0 (λ i. i) (λ i. omega arith),
        λ x m.
            let (low, high) = contains-counted entries 0 x (λ i. i) (λ i. omega arith) m in
            omega arith,
      ),
    ),
  )

  -- A cycle of a PreservedOrderAllocator that frees nothing but an allocated identifier or position
  -- keeps its order a permutation of the identifiers below `entries`, with `used` at most `entries`.
  -- The cycle may clear it.
  pub order_cycle-IsPermuted : IsPermuted entries next
  order_cycle-IsPermuted =
      let (ok, (result, same)) = opened in
      elim (Bool-cases c.clear) [
        | inl clear ↦ subst (IsPermuted entries) (sym (same ∙ rw clear refl)) initial-IsPermuted
        | inr kept ↦
            subst (IsPermuted entries) (sym (same ∙ rw kept refl))
              (stepped (freed_idx s.order c.freed) refl).0
      ]

  -- A cycle of a PreservedOrderAllocator without `clear`, whose order is a permutation and which frees
  -- nothing but an identifier or a position that is allocated before it, acts on the list of the
  -- allocated identifiers, oldest first: `alloc` appends its result, and then `free` removes its
  -- identifier, or `free_idx` the element at its position, and the order of the others is kept.
  pub order_cycle-allocated :
      c.clear ≡ false
      → allocated next ≡ without c.freed (allocated s ++ (if c.alloc then ident ∷ [] else []))
  order_cycle-allocated kept =
      let (ok, (result, same)) = opened in
      ap allocated (same ∙ rw kept refl)
      ∙ (stepped (freed_idx s.order c.freed) refl).1
      ∙ ap (without_at (freed_idx s.order c.freed)) (sym grown)
      ∙ (freed_position c.freed legal).1
      ∙ ap (without c.freed) grown
