-- ===== src/MaskAllocator/Identifiers.antt =====
-- Which identifiers the methods `alloc` give, and which are free after a cycle.
use transactron.Prelude.{
  ℕ, zero, suc, ◌+◌, ◌<◌, Bool, true, false, ◌&&◌, ◌||◌, not, Option, none, some, List, [], ◌∷◌,
  set, get_or, length, length-set, if◌then◌else◌, ◌==◌, ◌≡◌, refl, sym, ap, subst, ◌∙◌, inl, inr,
  arith, Bool-cases, contains, if-some,
}
use transactron.Hdl.Widths.{RangeShape}
use transactron.Encoder.{Slots}
use transactron.Encoder.Slots.{set_bits, slots_of}
use transactron.Encoder.Tree.{multi_encoder-slots_of}
use transactron.MaskAllocator.{
  Calls, without_allocated, with_freed, replaced, allocs_ready, mask_cycle,
}

-- The identifiers that a cycle allocates and frees.
abbrev pub allocated_idents : Slots → List Bool → List ℕ
allocated_idents [] runs = []
allocated_idents (s ∷ slots) [] = []
allocated_idents (s ∷ slots) (run ∷ runs) =
    if run then s.0 ∷ allocated_idents slots runs else allocated_idents slots runs

abbrev pub freed_idents : List (Option ℕ) → List ℕ
freed_idents [] = []
freed_idents (none ∷ frees) = freed_idents frees
freed_idents (some ident ∷ frees) = ident ∷ freed_idents frees

get_or-set :
    (xs : List Bool) (i j : ℕ) (v : Bool)
    → j < length xs
    → get_or (set xs i v) j false ≡ (if i == j then v else get_or xs j false)
get_or-set [] i j v h = absurd (omega arith)
get_or-set (x ∷ xs) zero zero v h = ground arith
get_or-set (x ∷ xs) zero (suc j) v h = ground arith
get_or-set (x ∷ xs) (suc i) zero v h = ground arith
get_or-set (x ∷ xs) (suc i) (suc j) v h = ground (arith, get_or-set xs i j v)

get_or-without_allocated :
    (slots : Slots) (runs xs : List Bool) (p : ℕ)
    → p < length xs
    → get_or (without_allocated slots runs xs) p false
      ≡ (get_or xs p false && not (contains (allocated_idents slots runs) p))
get_or-without_allocated [] runs xs p h = ground arith
get_or-without_allocated (s ∷ slots) [] xs p h = ground arith
get_or-without_allocated (s ∷ slots) (false ∷ runs) xs p h =
    get_or-without_allocated slots runs xs p h
get_or-without_allocated (s ∷ slots) (true ∷ runs) xs p h =
    get_or-without_allocated slots runs (set xs s.0 false) p
      (omega (arith, length-set xs s.0 false))
    ∙ rw (get_or-set xs s.0 p false h)
        (elim (Bool-cases (s.0 == p)) [ inl e ↦ ground arith | inr e ↦ ground arith ])

length-without_allocated :
    (slots : Slots) (runs xs : List Bool) → length (without_allocated slots runs xs) ≡ length xs
length-without_allocated [] runs xs = refl
length-without_allocated (s ∷ slots) [] xs = refl
length-without_allocated (s ∷ slots) (false ∷ runs) xs = length-without_allocated slots runs xs
length-without_allocated (s ∷ slots) (true ∷ runs) xs =
    length-without_allocated slots runs (set xs s.0 false) ∙ length-set xs s.0 false

get_or-with_freed :
    (frees : List (Option ℕ)) (xs : List Bool) (p : ℕ)
    → p < length xs
    → get_or (with_freed frees xs) p false ≡ (contains (freed_idents frees) p || get_or xs p false)
get_or-with_freed [] xs p h = refl
get_or-with_freed (none ∷ frees) xs p h = get_or-with_freed frees xs p h
get_or-with_freed (some ident ∷ frees) xs p h =
    get_or-with_freed frees (set xs ident true) p (omega (arith, length-set xs ident true))
    ∙ rw (get_or-set xs ident p true h) (ground arith)

undriven_invalid : (k i : ℕ) → (get_or (slots_of k []) i (0, false)).1 ≡ false
undriven_invalid zero i = refl
undriven_invalid (suc k) zero = refl
undriven_invalid (suc k) (suc i) = undriven_invalid k i

-- An output that is valid is the position of a set bit, and the outputs rise.
slots_of-set_bit :
    (k start i : ℕ) (bits : List Bool)
    → (get_or (slots_of k (set_bits start bits)) i (0, false)).1 ≡ true
    → (p : ℕ) × ((get_or (slots_of k (set_bits start bits)) i (0, false)).0 ≡ start + p)
      × (get_or bits p false ≡ true)
slots_of-set_bit zero start i bits v = absurd (cc)
slots_of-set_bit (suc k) start i [] v = cc (undriven_invalid (suc k) i)
slots_of-set_bit (suc k) start i (false ∷ bits) v =
    let (p, e, b) = slots_of-set_bit (suc k) (start + 1) i bits v in (suc p, e ∙ omega arith, b)
slots_of-set_bit (suc k) start zero (true ∷ bits) v = (zero, omega arith, refl)
slots_of-set_bit (suc k) start (suc i) (true ∷ bits) v =
    let (p, e, b) = slots_of-set_bit k (start + 1) i bits v in (suc p, e ∙ omega arith, b)

slots_of-rising :
    (k start i j : ℕ) (bits : List Bool)
    → i < j
    → (get_or (slots_of k (set_bits start bits)) i (0, false)).1 ≡ true
    → (get_or (slots_of k (set_bits start bits)) j (0, false)).1 ≡ true
    → (get_or (slots_of k (set_bits start bits)) i (0, false)).0
      < (get_or (slots_of k (set_bits start bits)) j (0, false)).0
slots_of-rising zero start i j bits h v v' = absurd (cc)
slots_of-rising (suc k) start i j [] h v v' = absurd (cc (undriven_invalid (suc k) i))
slots_of-rising (suc k) start i j (false ∷ bits) h v v' =
    slots_of-rising (suc k) (start + 1) i j bits h v v'
slots_of-rising (suc k) start i zero (true ∷ bits) h v v' = absurd (omega arith)
slots_of-rising (suc k) start zero (suc j) (true ∷ bits) h v v' =
    let (p, e, b) = slots_of-set_bit k (start + 1) j bits v' in omega arith
slots_of-rising (suc k) start (suc i) (suc j) (true ∷ bits) h v v' =
    slots_of-rising k (start + 1) i j bits (omega arith) v v'

ready_at :
    (slots : Slots) (runs : List Bool) (i : ℕ)
    → allocs_ready slots runs ≡ true
    → i < length slots
    → get_or runs i false ≡ true
    → (get_or slots i (0, false)).1 ≡ true
ready_at [] runs i ok h r = absurd (omega arith)
ready_at (s ∷ slots) [] i ok h r = absurd (cc)
ready_at (s ∷ slots) (run ∷ runs) zero ok h r = ground arith
ready_at (s ∷ slots) (run ∷ runs) (suc i) ok h r =
    ready_at slots runs i (ground arith) (omega arith) r

length-slots_of : (k : ℕ) (ps : List ℕ) → length (slots_of k ps) ≡ k
length-slots_of zero ps = refl
length-slots_of (suc k) [] = ap suc (length-slots_of k [])
length-slots_of (suc k) (p ∷ ps) = ap suc (length-slots_of k ps)

module _ (shape : RangeShape) (ways : ℕ) (init not_used next : List Bool) (c : Calls)
    (slots : Slots) (some_way : 0 < ways) (some_ident : 0 < length not_used)
    (cycle : mask_cycle shape ways init not_used c ≡ some (slots, next)) where
  abbrev Opened : Type 0
  Opened =
      (slots ≡ slots_of ways (set_bits 0 not_used))
      × ((allocs_ready slots c.allocs ≡ true)
          × (next
              ≡ replaced init c (with_freed c.frees (without_allocated slots c.allocs not_used))))

  opened : Opened
  unfolding mask_cycle
  opened =
      let encoded = multi_encoder-slots_of shape ways not_used some_way some_ident in
      let (ok, same) = if-some _ _ _ (rw (encoded, mask_cycle) at cycle) in
      let outputs : slots_of ways (set_bits 0 not_used) ≡ slots = ap (λ x. x.0) same in
      (
        sym outputs,
        (
          subst (λ s. allocs_ready s c.allocs ≡ true) outputs ok,
          sym (ap (λ x. x.1) same)
              ∙ ap
                  (λ s.
                    replaced init c (with_freed c.frees (without_allocated s c.allocs not_used)))
                  outputs,
        ),
      )

  valid_at :
      (i : ℕ) → i < ways → get_or c.allocs i false ≡ true → (get_or slots i (0, false)).1 ≡ true
  valid_at i lt runs =
      let (outputs, (ok, same)) = opened in
      ready_at slots c.allocs i ok
        (omega (arith, ap length outputs, length-slots_of ways (set_bits 0 not_used))) runs

  -- In a cycle of a PriorityEncoderAllocator with at least one method `alloc` and one identifier, two
  -- `alloc` methods that both run give identifiers that are free at its start and differ: the earlier
  -- method gives the smaller one.
  pub mask_cycle-fresh :
      (i j : ℕ)
      → i < j
      → j < ways
      → get_or c.allocs i false ≡ true
      → get_or c.allocs j false ≡ true
      → (get_or not_used (get_or slots i (0, false)).0 false ≡ true)
        × ((get_or not_used (get_or slots j (0, false)).0 false ≡ true)
            × ((get_or slots i (0, false)).0 < (get_or slots j (0, false)).0))
  mask_cycle-fresh i j lt lt' runs runs' =
      let (outputs, rest) = opened in
      let valid_i =
        subst (λ (s : Slots). (get_or s i (0, false)).1 ≡ true) outputs
          (valid_at i (omega arith) runs) in
      let valid_j =
        subst (λ (s : Slots). (get_or s j (0, false)).1 ≡ true) outputs (valid_at j lt' runs') in
      let (p, at_i, free_i) = slots_of-set_bit ways 0 i not_used valid_i in
      let (q, at_j, free_j) = slots_of-set_bit ways 0 j not_used valid_j in
      let rising = slots_of-rising ways 0 i j not_used lt valid_i valid_j in
      let same_i : (get_or slots i (0, false)).0 ≡ p =
        ap (λ (s : Slots). (get_or s i (0, false)).0) outputs ∙ at_i ∙ omega arith in
      let same_j : (get_or slots j (0, false)).0 ≡ q =
        ap (λ (s : Slots). (get_or s j (0, false)).0) outputs ∙ at_j ∙ omega arith in
      (
        ap (λ x. get_or not_used x false) same_i ∙ free_i,
        (
          ap (λ x. get_or not_used x false) same_j ∙ free_j,
          subst (λ (s : Slots). (get_or s i (0, false)).0 < (get_or s j (0, false)).0) (sym outputs)
              rising,
        ),
      )

  -- After a cycle of a PriorityEncoderAllocator without `replace` and `clear`, an identifier is free if
  -- and only if it was freed, or it was free and not allocated in the cycle.
  pub mask_cycle-free :
      (p : ℕ)
      → c.clear ≡ false
      → c.replace ≡ none
      → p < length not_used
      → get_or next p false ≡ (
          contains (freed_idents c.frees) p
          || (get_or not_used p false && not (contains (allocated_idents slots c.allocs) p)))
  mask_cycle-free p kept no_mask lt =
      let (outputs, (ok, same)) = opened in
      let plain : next ≡ with_freed c.frees (without_allocated slots c.allocs not_used) =
        same ∙ rw (kept, no_mask) refl in
      ap (λ xs. get_or xs p false) plain
      ∙ get_or-with_freed c.frees (without_allocated slots c.allocs not_used) p
          (omega (arith, length-without_allocated slots c.allocs not_used))
      ∙ ap (λ b. contains (freed_idents c.frees) p || b)
          (get_or-without_allocated slots c.allocs not_used p lt)
