-- ===== src/Allocator/Correct.antt =====
-- When the pointers of a circular allocator are in order, and its indices and results with validated
-- arguments.
use transactron.Prelude.{
  ℕ, zero, suc, ◌+◌, ◌-◌, ◌%◌, ◌≤◌, ◌<◌, Bool, true, false, ◌≡◌, ◌≢◌, sym, ap, ap₂, ◌∙◌, ◌⊎◌, inl,
  inr, arith, ltb, Bool-cases, get_or, if◌then◌else◌,
}
use native.Mathlib.Nat.{mod-eq_of_lt, mod-eq-sub-mod, mod-lt, mod-add-mod}
use transactron.Hdl.{runs_if_ready}
use transactron.Hdl.Widths.{RangeShape, wrap, wrap_small, wrap-difference_many}
use transactron.Modulo.Exact.{mod_add-exact}
use transactron.Allocator.{
  Pointers, Requests, idents, next_idx, next_allocated, next_pointers, alloc_ready, free_ready,
}

abbrev pub IsValid : ℕ → Pointers → Type 0
IsValid entries p =
    (p.start_idx < entries)
    × ((p.allocated ≤ entries) × (p.end_idx ≡ (p.start_idx + p.allocated) % entries))

-- The numbers of identifiers that a cycle allocates and frees.
abbrev pub allocs : Requests → ℕ
allocs r = if r.alloc then r.alloc_count else 0

abbrev pub frees : Requests → ℕ
frees r = if r.free then r.free_count else 0

-- The arguments are in their ranges.
abbrev pub InRange : ℕ → ℕ → Requests → Type 0
InRange max_alloc max_free r = (r.alloc_count ≤ max_alloc) × (r.free_count ≤ max_free)

mod_twice : (n x : ℕ) → x < n + n → ((x < n) × (x % n ≡ x)) ⊎ ((n ≤ x) × (x % n ≡ x - n))
mod_twice n x h = elim (Bool-cases (ltb x n)) [
  | inl below ↦ inl (ground arith, mod-eq_of_lt (ground arith))
  | inr above ↦
      let le : n ≤ x = ground arith in inr (le, mod-eq-sub-mod le ∙ mod-eq_of_lt (omega arith))
]

-- Different positions in a window of at most `n` have different remainders.
pub window_distinct : (n s j i : ℕ) → s < n → j < i → i < n → (s + j) % n ≢ (s + i) % n
window_distinct n s j i hs hj hi = elim (mod_twice n (s + j) (omega arith)) [
  | inl (a, e) ↦ elim (mod_twice n (s + i) (omega arith)) [
    | inl (b, e') ↦ λ same. omega arith
    | inr (b, e') ↦ λ same. omega arith
  ]
  | inr (a, e) ↦ elim (mod_twice n (s + i) (omega arith)) [
    | inl (b, e') ↦ λ same. omega arith
    | inr (b, e') ↦ λ same. omega arith
  ]
]

module _ (shape : RangeShape) (entries max_alloc max_free : ℕ) where
  pub next_idx-exact :
      (idx count maximum : ℕ)
      → idx < entries
      → count ≤ maximum
      → count ≤ entries
      → next_idx shape entries max_alloc max_free true idx count maximum ≡ (idx + count) % entries
  unfolding next_idx
  next_idx-exact idx count maximum h h' h'' =
      ap (wrap shape entries) (mod_add-exact idx entries count maximum h h' h'')
      ∙ wrap_small shape entries _ (mod-lt (idx + count) (omega arith))

  -- What `ready` and the argument validation give together.
  pub alloc_room :
      (p : Pointers) (r : Requests)
      → r.alloc_count ≤ max_alloc
      → p.allocated ≤ entries
      → runs_if_ready r.alloc (alloc_ready shape entries max_alloc max_free true p r.alloc_count)
        ≡ true
      → p.allocated + allocs r ≤ entries
  alloc_room p r h h' ok = ground arith

  pub free_room :
      (p : Pointers) (r : Requests)
      → r.free_count ≤ max_free
      → runs_if_ready r.free (free_ready shape entries max_alloc max_free true p r.free_count)
        ≡ true
      → frees r ≤ p.allocated
  free_room p r h ok = ground arith

  next_allocated-exact :
      (allocated a f : ℕ)
      → f ≤ allocated
      → allocated + a ≤ entries
      → next_allocated shape entries max_alloc max_free true allocated a f ≡ allocated + a - f
  unfolding next_allocated
  next_allocated-exact allocated a f h h' =
      wrap-difference_many shape (entries + 1) (allocated + a) f (omega arith) (omega arith)

  -- An index that moves, or not.
  moved :
      (idx count maximum : ℕ) (run : Bool)
      → idx < entries
      → count ≤ maximum
      → (if run then count else 0) ≤ entries
      → (if run then next_idx shape entries max_alloc max_free true idx count maximum else idx)
        ≡ (idx + (if run then count else 0)) % entries
  moved idx count maximum true h h' h'' = next_idx-exact idx count maximum h h' h''
  moved idx count maximum false h h' h'' =
      sym (ap (λ x. x % entries) (omega arith) ∙ mod-eq_of_lt h)

  -- The sums modulo `entries` that the new pointers are.
  shifted :
      (s n a f : ℕ)
      → f ≤ n
      → ((s + n) % entries + a) % entries ≡ ((s + f) % entries + (n + a - f)) % entries
  shifted s n a f h =
      mod-add-mod (s + n) entries a
      ∙ ap (λ x. x % entries) (omega arith)
      ∙ sym (mod-add-mod (s + f) entries (n + a - f))

  module _ (p : Pointers) (r : Requests) (valid : IsValid entries p)
      (in_range : InRange max_alloc max_free r) (held : frees r ≤ p.allocated)
      (room : p.allocated + allocs r ≤ entries) (kept : r.clear ≡ false) where
    abbrev pub next : Pointers
    next = next_pointers shape entries max_alloc max_free true p r

    next-start_idx : next.start_idx ≡ (p.start_idx + frees r) % entries
    unfolding next_pointers
    next-start_idx =
        let (hs, (ha, he)) = valid in
        rw kept (moved p.start_idx r.free_count max_free r.free hs in_range.1 (omega arith))

    next-end_idx : next.end_idx ≡ (p.end_idx + allocs r) % entries
    unfolding next_pointers
    next-end_idx =
        let (hs, (ha, he)) = valid in
        let below : p.end_idx < entries =
          rw he (mod-lt (p.start_idx + p.allocated) (omega arith)) in
        rw kept (moved p.end_idx r.alloc_count max_alloc r.alloc below in_range.0 (omega arith))

    next-allocated : next.allocated ≡ p.allocated + allocs r - frees r
    unfolding next_pointers
    next-allocated = rw kept (next_allocated-exact p.allocated (allocs r) (frees r) held room)

    pub next-IsValid :
        IsValid entries next
        × ((next.allocated + frees r ≡ p.allocated + allocs r)
            × (next.start_idx ≡ (p.start_idx + frees r) % entries))
    next-IsValid =
        let (hs, (ha, he)) = valid in
        let below : next.start_idx < entries =
          rw next-start_idx (mod-lt (p.start_idx + frees r) (omega arith)) in
        let ends : next.end_idx ≡ (next.start_idx + next.allocated) % entries =
          next-end_idx
          ∙ ap (λ x. (x + allocs r) % entries) he
          ∙ shifted p.start_idx p.allocated (allocs r) (frees r) held
          ∙ sym (ap₂ (λ x y. (x + y) % entries) next-start_idx next-allocated) in
        let count : next.allocated + frees r ≡ p.allocated + allocs r =
          ap (λ x. x + frees r) next-allocated ∙ omega arith in
        ((below, (omega arith, ends)), (count, next-start_idx))

  pub cleared-IsValid :
      (p : Pointers) (r : Requests)
      → 0 < entries
      → r.clear ≡ true
      → IsValid entries (next_pointers shape entries max_alloc max_free true p r)
  unfolding next_pointers
  cleared-IsValid p r pos clear = rw clear (pos, (omega arith, sym (mod-eq_of_lt pos)))

  -- The `k`-th identifier of a list of results.
  pub idents-get :
      (idx i n k d : ℕ)
      → idx < entries
      → k < n
      → i + k ≤ entries
      → get_or (idents shape entries max_alloc max_free true idx i n) k d
        ≡ (idx + (i + k)) % entries
  unfolding idents
  idents-get idx i zero k d h lt room = absurd (omega arith)
  idents-get idx i (suc n) zero d h lt room =
      ap (wrap shape entries) (mod_add-exact idx entries i i h (omega arith) (omega arith))
      ∙ wrap_small shape entries _ (mod-lt (idx + i) (omega arith))
      ∙ ap (λ x. x % entries) (omega arith)
  idents-get idx i (suc n) (suc k) d h lt room =
      idents-get idx (i + 1) n k d h (omega arith) (omega arith)
      ∙ ap (λ x. x % entries) (omega arith)
