-- ===== src/WideFifo/Refines.antt =====
-- Runs of a `WideFifo`: the queue that they are, and the states that they come to.
use transactron.Prelude.{
  ℕ, ◌+◌, ◌≤◌, ◌<◌, Option, some, List, [], ◌≡◌, sym, ap, ◌∙◌, subst, arith, inl, inr,
}
use transactron.Hdl.{trace}
use transactron.Hdl.Widths.{RangeShape}
use transactron.Hdl.Memory.{Memory}
use transactron.Hdl.Simulation.{trace-agree}
use transactron.Shifter.{PartSelect, EntryShape}
use transactron.WideFifo.{
  WideShape, col_count, wide_depth, start, WideCalls, WideRegisters, wide_cycle, list_cycle,
}
use transactron.WideFifo.Positions.{IsIndex, place, around}
use transactron.WideFifo.Registers.{Holds}
use transactron.WideFifo.Cycle.{cleared-Holds, agree}

module _ {ℓ} {A : Type ℓ} (shape : RangeShape) (part : PartSelect) (entry : EntryShape A)
    (p : WideShape) (memory : Memory A p.row_count) where
  abbrev State : Type ℓ
  State = WideRegisters shape part entry p memory

  -- A WideFifo with at least one row and one column is a queue with room for `depth` elements: from the
  -- reset state of its indices and its level, on every sequence of cycles the same cycles are possible,
  -- and `read` and `peek` return the same elements, whatever the memories hold at first. `read` takes
  -- `count` elements, or all if there are less, or `read_width`; `write` appends the first `count` of its
  -- elements, and needs room for them before the `read` of its cycle; `clear` empties the queue.
  pub wide_fifo-list :
      (storage : ℕ → memory.Cells) (cycles : List (WideCalls A))
      → 0 < p.row_count
      → 0 < col_count p
      → trace
          (wide_cycle shape part entry p memory)
          (record { read_idx = start; write_idx = start; level = 0; storage = storage })
          cycles
        ≡ trace (list_cycle shape part entry p memory) [] cycles
  wide_fifo-list storage cycles rows cols =
      trace-agree (Holds shape part entry p memory) (wide_cycle shape part entry p memory)
        (list_cycle shape part entry p memory) (agree shape part entry p memory)
        (record { read_idx = start; write_idx = start; level = 0; storage = storage }) [] cycles
        (cleared-Holds shape part entry p memory storage rows cols)

  -- The states that a WideFifo comes to from its reset.
  pub data Reached : State → Type ℓ where
    reset :
        (storage : ℕ → memory.Cells)
        → Reached (record { read_idx = start; write_idx = start; level = 0; storage = storage })
    next :
        {s s' : State} (c : WideCalls A) (o : Option (List A) × List A)
        → Reached s
        → wide_cycle shape part entry p memory s c ≡ some (o, s')
        → Reached s'

  Reached-Holds :
      {s : State}
      → 0 < p.row_count
      → 0 < col_count p
      → Reached s
      → (q : List A) × Holds shape part entry p memory s q
  Reached-Holds rows cols (reset storage) =
      ([], cleared-Holds shape part entry p memory storage rows cols)
  Reached-Holds rows cols (next {s} {s'} c o r e) =
      let (q, holds) = Reached-Holds rows cols r in
      elim (agree shape part entry p memory s q c holds) [
        | inl (stuck, _) ↦ cc
        | inr (o', t, q', e', spec, holds') ↦
            let same : t ≡ s' = cc in
            (q', subst (λ u. Holds shape part entry p memory u q') same holds')
      ]

  -- In every state that a WideFifo with at least one row and one column comes to, the rows and columns
  -- of both indices lie in the ranges of their signals, no more elements are counted than there are
  -- slots, and the write index stands as many places behind the read index as elements are counted.
  pub wide_fifo_bounds :
      {s : State}
      → 0 < p.row_count
      → 0 < col_count p
      → Reached s
      → IsIndex p s.read_idx
        × IsIndex p s.write_idx
        × (s.level ≤ wide_depth p)
        × (place p s.write_idx ≡ around p (place p s.read_idx + s.level))
  wide_fifo_bounds {s} rows cols r =
      let (q, holds) = Reached-Holds rows cols r in
      (
        holds.read_fits,
        holds.write_fits,
        omega (arith, holds.counted, holds.bounded),
        holds.behind ∙ ap (λ n. around p (place p s.read_idx + n)) (sym holds.counted),
      )
