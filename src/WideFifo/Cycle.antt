-- ===== src/WideFifo/Cycle.antt =====
-- A cycle of a `WideFifo` and of the list that it stands for.
use transactron.Prelude.{
  ℕ, ◌+◌, ◌-◌, ◌≤◌, ◌<◌, Bool, true, false, not, ◌==◌, ltb, if◌then◌else◌, Option, none, some, List,
  [], ◌++◌, length, take, drop, ◌≡◌, refl, sym, ap, ap₂, ◌∙◌, subst, arith, Bool-cases, inl, inr,
}
use transactron.Hdl.Widths.{RangeShape, wrap}
use transactron.Hdl.Memory.{Memory}
use transactron.Hdl.Simulation.{Agree}
use transactron.Shifter.{PartSelect, EntryShape}
use transactron.WideFifo.{
  WideShape, advance, next_read_idx, level_mod, col_count, wide_depth, start, WideCalls,
  WideRegisters, at_most, remaining, head_data, count_read, count_written, storage_after,
  wide_after, wide_legal, wide_cycle, list_read, list_legal, list_cycle,
}
use transactron.WideFifo.Positions.{IsIndex, place-lt-depth}
use transactron.WideFifo.Registers.{Holds, remaining_lem, take-head, read_bound, after-Holds}

module _ {ℓ} {A : Type ℓ} (shape : RangeShape) (part : PartSelect) (entry : EntryShape A)
    (p : WideShape) (memory : Memory A p.row_count) where
  abbrev State : Type ℓ
  State = WideRegisters shape part entry p memory

  start-IsIndex : 0 < p.row_count → 0 < col_count p → IsIndex p start
  start-IsIndex rows cols = record { row_fits = rows; col_fits = cols }

  -- Registers as `clear` and the reset leave them.
  pub cleared-Holds :
      (storage : ℕ → memory.Cells)
      → 0 < p.row_count
      → 0 < col_count p
      → Holds shape part entry p memory
          (record { read_idx = start; write_idx = start; level = 0; storage = storage })
          []
  cleared-Holds storage rows cols =
      let v = start-IsIndex rows cols in
      let inside = place-lt-depth p start v in
      record {
        read_fits = v;
        write_fits = v;
        counted = refl;
        bounded = omega arith;
        behind = ground arith;
        stored = λ k idx lt vi at. absurd (omega arith);
        shown = λ k lt less. absurd (omega arith);
      }

  module _ (s : State) (q : List A) (c : WideCalls A)
      (holds : Holds shape part entry p memory s q) where
    legal-list : wide_legal shape part entry p memory s c ≡ list_legal shape part entry p memory q c
    unfolding wide_legal list_legal
    legal-list =
        let space = remaining_lem shape part entry p memory s q holds in
        let open_slots : not (remaining shape part entry p memory s == 0)
            ≡ ltb (length q) (wide_depth p) =
          ground (arith, holds.bounded) in
        rw (open_slots, space, holds.counted)

    -- What the cycle returns, and the queue after it.
    abbrev returned : Option (List A) × List A
    returned = (
      (if length q == 0 then none else some (take (at_most p.read_width (length q)) q)),
      take (list_read shape part entry p memory q c) q,
    )

    abbrev left_queue : List A
    left_queue =
        drop (list_read shape part entry p memory q c) q
        ++ (if c.write then take c.write_count c.write_data else [])

    peeked :
        (if s.level == 0
          then none
          else some (take (at_most p.read_width s.level) (head_data shape part entry p memory s)))
        ≡ returned.0
    peeked =
        ap
          (λ l.
            if l == 0
            then none
            else some (take (at_most p.read_width l) (head_data shape part entry p memory s)))
          holds.counted
        ∙ (ap (λ xs. if length q == 0 then none else some xs)
            (take-head shape part entry p memory s q holds (at_most p.read_width (length q))
              (ground arith) (ground arith)))

    module _ (ok : list_legal shape part entry p memory q c ≡ true) where
      fits : c.write_count ≤ p.write_width
      unfolding list_legal
      fits = ground arith

      long : length c.write_data ≡ p.write_width
      unfolding list_legal
      long = ground arith

      room : count_written shape part entry p memory c + length q ≤ wide_depth p
      unfolding list_legal
      room = ground (arith, holds.bounded)

      bound :
          (count_read shape part entry p memory s c ≤ length q)
          × (count_read shape part entry p memory s c ≤ p.read_width)
          × (count_read shape part entry p memory s c ≡ list_read shape part entry p memory q c)
      bound = read_bound shape part entry p memory s q holds c long fits room

      hardware :
          wide_cycle shape part entry p memory s c
          ≡ some (returned, wide_after shape part entry p memory s c)
      unfolding wide_cycle
      hardware =
          let taken =
            take-head shape part entry p memory s q holds (count_read shape part entry p memory s c)
              bound.1 bound.0
            ∙ ap (λ n. take n q) bound.2 in
          rw (wide_cycle, legal-list, ok)
            (ap₂ (λ a b. some ((a, b), wide_after shape part entry p memory s c)) peeked taken)

      -- The registers after the cycle, by `clear`.
      abbrev state : Bool → State
      state b = record {
        read_idx = if b then start else next_read_idx shape part entry p memory s c;
        write_idx =
            if b
            then start
            else (if c.write then advance shape p s.write_idx c.write_count else s.write_idx);
        level =
            if b
            then 0
            else wrap shape (wide_depth p + 1) (
                s.level
                + level_mod shape part entry p memory
                - count_read shape part entry p memory s c
                + count_written shape part entry p memory c);
        storage = storage_after shape part entry p memory s c;
      }

      done :
          Agree
            (Holds shape part entry p memory)
            (wide_cycle shape part entry p memory s c)
            (list_cycle shape part entry p memory q c)
      unfolding list_cycle wide_after
      done = elim (Bool-cases c.clear) [
        | inl clear ↦ inr (
          returned,
          wide_after shape part entry p memory s c,
          [],
          hardware,
          rw (list_cycle, ok, clear) refl,
          subst (λ b. Holds shape part entry p memory (state b) []) (sym clear)
              (cleared-Holds (storage_after shape part entry p memory s c)
                (omega (arith, holds.read_fits)) (omega (arith, holds.read_fits))),
        )
        | inr kept ↦ inr (
          returned,
          wide_after shape part entry p memory s c,
          left_queue,
          hardware,
          rw (list_cycle, ok, kept) refl,
          subst (λ b. Holds shape part entry p memory (state b) left_queue) (sym kept)
              (subst
                (λ n.
                  Holds shape part entry p memory (state false)
                    (drop n q ++ (if c.write then take c.write_count c.write_data else [])))
                bound.2 (after-Holds shape part entry p memory s q holds c long fits room)),
        )
      ]

    pub agree :
        Agree
          (Holds shape part entry p memory)
          (wide_cycle shape part entry p memory s c)
          (list_cycle shape part entry p memory q c)
    unfolding wide_cycle list_cycle
    agree = elim (Bool-cases (list_legal shape part entry p memory q c)) [
      | inl ok ↦ done ok
      | inr bad ↦ inl (rw (wide_cycle, legal-list, bad), rw (list_cycle, bad))
    ]
