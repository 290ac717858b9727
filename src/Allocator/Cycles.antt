-- ===== src/Allocator/Cycles.antt =====
-- The cycles of a circular allocator with validated arguments.
use transactron.Prelude.{
  ℕ, ◌+◌, ◌%◌, ◌≤◌, ◌<◌, Bool, true, false, ◌&&◌, none, some, ◌≡◌, refl, sym, subst, ap, ◌∙◌, inl,
  inr, arith, Bool-cases, get_or, if◌then◌else◌,
}
use native.Mathlib.Nat.{mod-lt, mod-add-mod}
use transactron.Hdl.{runs_if_ready}
use transactron.Hdl.Widths.{RangeShape}
use transactron.Allocator.{
  Pointers, Requests, Results, next_pointers, results, allocator_cycle, alloc_ready, free_ready,
}
use transactron.Allocator.Correct.{
  IsValid, InRange, allocs, frees, alloc_room, free_room, next-IsValid, cleared-IsValid, idents-get,
  window_distinct,
}

lt_le : (a b c : ℕ) → a < b → b ≤ c → a < c
lt_le a b c h h' = omega arith

guarded :
    (b c : Bool) (x y : Results × Pointers)
    → (if b && c then some x else none) ≡ some y
    → (b ≡ true) × ((c ≡ true) × (x ≡ y))
guarded true true x y e = (refl, (refl, cc))
guarded true false x y e = cc
guarded false c x y e = cc

module _ (shape : RangeShape) (entries max_alloc max_free : ℕ) (p : Pointers) (r : Requests)
    (res : Results) (next : Pointers)
    (cycle : allocator_cycle shape entries max_alloc max_free true p r ≡ some (res, next)) where
  abbrev Opened : Type 0
  Opened =
      (runs_if_ready r.alloc (alloc_ready shape entries max_alloc max_free true p r.alloc_count)
        ≡ true)
      × ((runs_if_ready r.free (free_ready shape entries max_alloc max_free true p r.free_count)
            ≡ true)
          × ((res ≡ results shape entries max_alloc max_free true p r)
              × (next ≡ next_pointers shape entries max_alloc max_free true p r)))

  opened : Opened
  unfolding allocator_cycle
  opened =
      let (a, (f, e)) = guarded _ _ _ _ cycle in
      (a, (f, (sym (ap (λ x. x.0) e), sym (ap (λ x. x.1) e))))

  -- The cycle of a CircularAllocator with validated arguments keeps it in order: `start_idx` is below
  -- `entries`, at most `entries` identifiers are allocated, and `end_idx` is `start_idx + allocated`
  -- modulo `entries`. This holds with at least one entry and with counts in their ranges.
  pub allocator_cycle-IsValid :
      0 < entries → IsValid entries p → InRange max_alloc max_free r → IsValid entries next
  allocator_cycle-IsValid pos valid in_range =
      let (a, (f, (same_res, same))) = opened in
      elim (Bool-cases r.clear) [
        | inl clear ↦
            subst (IsValid entries) (sym same)
              (cleared-IsValid shape entries max_alloc max_free p r pos clear)
        | inr kept ↦
            subst (IsValid entries) (sym same)
              (next-IsValid shape entries max_alloc max_free p r valid in_range
                (free_room shape entries max_alloc max_free p r in_range.1 f)
                (alloc_room shape entries max_alloc max_free p r in_range.0 valid.1.0 a) kept).0
      ]

  -- In a cycle without `clear`, a CircularAllocator with validated arguments moves `start_idx` by the
  -- number of freed identifiers, modulo `entries`, and `allocated` grows by the number of allocated
  -- identifiers and shrinks by the number of freed ones. The pointers are in order at the start and the
  -- counts in their ranges.
  pub allocator_cycle-window :
      IsValid entries p
      → InRange max_alloc max_free r
      → r.clear ≡ false
      → (next.allocated + frees r ≡ p.allocated + allocs r)
        × (next.start_idx ≡ (p.start_idx + frees r) % entries)
  allocator_cycle-window valid in_range kept =
      let (a, (f, (same_res, same))) = opened in
      rw same
        (next-IsValid shape entries max_alloc max_free p r valid in_range
          (free_room shape entries max_alloc max_free p r in_range.1 f)
          (alloc_room shape entries max_alloc max_free p r in_range.0 valid.1.0 a) kept).1

  alloc_idents-get :
      (k d : ℕ)
      → IsValid entries p
      → InRange max_alloc max_free r
      → r.alloc ≡ true
      → k < r.alloc_count
      → (get_or res.alloc_idents k d ≡ (p.start_idx + (p.allocated + k)) % entries)
        × (p.allocated + k < entries)
  unfolding results
  alloc_idents-get k d valid in_range runs lt =
      let (a, (f, (same_res, same))) = opened in
      let (hs, (ha, he)) = valid in
      let room : p.allocated + allocs r ≤ entries =
        alloc_room shape entries max_alloc max_free p r in_range.0 ha a in
      let room' : p.allocated + r.alloc_count ≤ entries = rw runs at room in
      let below : p.end_idx < entries = rw he (mod-lt (p.start_idx + p.allocated) (omega arith)) in
      (
        ap (λ x. get_or x.alloc_idents k d) same_res
            ∙ idents-get shape entries max_alloc max_free p.end_idx 0 max_alloc k d below
                (lt_le k r.alloc_count max_alloc lt in_range.0) (omega arith)
            ∙ ap (λ x. (x + (0 + k)) % entries) he
            ∙ mod-add-mod (p.start_idx + p.allocated) entries (0 + k)
            ∙ ap (λ x. x % entries) (omega arith),
        omega arith,
      )

  -- An identifier that `alloc` hands out in a cycle of a CircularAllocator with validated arguments,
  -- one of the first `count` in its results, is not one of the identifiers allocated before. The
  -- pointers are in order at the start and the counts in their ranges.
  pub allocator_cycle-fresh :
      (k j d : ℕ)
      → IsValid entries p
      → InRange max_alloc max_free r
      → r.alloc ≡ true
      → k < r.alloc_count
      → j < p.allocated
      → ¬ ((p.start_idx + j) % entries ≡ get_or res.alloc_idents k d)
  allocator_cycle-fresh k j d valid in_range runs lt lt' same =
      let (e, room) = alloc_idents-get k d valid in_range runs lt in
      window_distinct entries p.start_idx j (p.allocated + k) valid.0 (omega arith) room (same ∙ e)
