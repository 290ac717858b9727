-- ===== src/Allocator.antt =====
-- `CircularAllocator` of transactron/lib/allocators.py. Its results in a cycle are those of `alloc`
-- and `free`.
pub mod Correct
pub mod Cycles
mod Tests
use transactron.Prelude.{
  ℕ, zero, suc, ◌+◌, ◌-◌, ◌*◌, ◌^◌, ◌≤◌, Bool, true, false, not, ◌&&◌, ◌||◌, Option, none, some,
  List, [], ◌∷◌, ◌==◌, leb, ltb, if◌then◌else◌,
}
use transactron.Hdl.{runs_if_ready}
use transactron.Hdl.Widths.{RangeShape, wrap}
use transactron.Modulo.{mod_add}

pub record Pointers : Type 0 where
  pub start_idx : ℕ
  pub end_idx : ℕ
  pub allocated : ℕ

-- Which methods run in a cycle, and the `count` arguments of `alloc` and `free`.
pub record Requests : Type 0 where
  pub alloc : Bool
  pub alloc_count : ℕ
  pub free : Bool
  pub free_count : ℕ
  pub clear : Bool

pub record Results : Type 0 where
  pub alloc_idents : List ℕ
  pub new_end_idx : ℕ
  pub free_idents : List ℕ
  pub new_start_idx : ℕ

abbrev pub cleared_pointers : Pointers
cleared_pointers = record { start_idx = 0; end_idx = 0; allocated = 0 }

module _ (shape : RangeShape) (entries max_alloc max_free : ℕ)
    (with_validate_arguments : Bool) where
  -- `mod_add(idx, self.entries, i, i)` for `n` values of `i`, as elements of `range(entries)`.
  unfoldable pub idents : ℕ → ℕ → ℕ → List ℕ
  idents idx i zero = []
  idents idx i (suc n) = wrap shape entries (mod_add idx entries i i) ∷ idents idx (i + 1) n

  -- The guard `validate_arguments` is there for more than one identifier per cycle only.
  abbrev pub validated : ℕ → Bool → Bool
  validated maximum ok = if with_validate_arguments && ltb 1 maximum then ok else true

  abbrev pub alloc_ready : Pointers → ℕ → Bool
  alloc_ready p count =
      not (p.allocated == entries) && validated max_alloc (leb (p.allocated + count) entries)

  abbrev pub free_ready : Pointers → ℕ → Bool
  free_ready p count = not (p.allocated == 0) && validated max_free (leb count p.allocated)

  unfoldable pub next_idx : ℕ → ℕ → ℕ → ℕ
  next_idx idx count maximum = wrap shape entries (mod_add idx entries count maximum)

  -- `self.allocated + alloc_count - free_count` is signed; the register keeps its low bits.
  unfoldable pub next_allocated : ℕ → ℕ → ℕ → ℕ
  next_allocated allocated a f =
      wrap shape (entries + 1) (allocated + a + f * 2 ^ shape.width (entries + 1) - f)

  unfoldable pub next_pointers : Pointers → Requests → Pointers
  unfolding next_idx next_allocated
  next_pointers p r = if r.clear then cleared_pointers else record {
    start_idx = if r.free then next_idx p.start_idx r.free_count max_free else p.start_idx;
    end_idx = if r.alloc then next_idx p.end_idx r.alloc_count max_alloc else p.end_idx;
    allocated =
        next_allocated p.allocated (if r.alloc then r.alloc_count else 0)
          (if r.free then r.free_count else 0);
  }

  unfoldable pub results : Pointers → Requests → Results
  unfolding idents next_idx
  results p r = record {
    alloc_idents = idents p.end_idx 0 max_alloc;
    new_end_idx = next_idx p.end_idx r.alloc_count max_alloc;
    free_idents = idents p.start_idx 0 max_free;
    new_start_idx = next_idx p.start_idx r.free_count max_free;
  }

  unfoldable pub allocator_cycle : Pointers → Requests → Option (Results × Pointers)
  unfolding next_pointers results
  allocator_cycle p r =
      if runs_if_ready r.alloc (alloc_ready p r.alloc_count)
        && runs_if_ready r.free (free_ready p r.free_count)
      then some (results p r, next_pointers p r)
      else none
