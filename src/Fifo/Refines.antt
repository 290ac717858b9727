-- ===== src/Fifo/Refines.antt =====
-- The hardware queue and the list that it stands for.
use transactron.Prelude.{
  ℕ, ◌+◌, ◌≤◌, ◌<◌, Bool, true, false, ◌==◌, ltb, none, some, List, [], ◌∷◌, ◌++◌, length,
  append-nil, bit, ◌≡◌, refl, sym, ap, ◌∙◌, inl, inr, arith, Bool-cases, Option-cases,
}
use native.Mathlib.Nat.{mod-eq_of_lt}
use transactron.Hdl.{Cycle, trace}
use transactron.Hdl.Queue.{head, pop, append, pop_append, cleared}
use transactron.Hdl.Widths.{RangeShape}
use transactron.Hdl.Memory.{Memory}
use transactron.Hdl.Simulation.{Agree, trace-agree}
use transactron.Allocator.{cleared_pointers}
use transactron.Fifo.{FifoRegisters, fifo_after, fifo_legal, fifo_peek, fifo_cycle}
use transactron.Fifo.Registers.{Holds, back, after-Holds, after_clear}

module _ {ℓ} {A : Type ℓ} (shape : RangeShape) (depth : ℕ) (memory : Memory A depth)
    (pos : 0 < depth) where
  Same : FifoRegisters shape depth memory → List A → Cycle A → Type ℓ
  Same s q c =
      Agree (Holds shape depth memory pos) (fifo_cycle shape depth memory s c)
        (pop_append depth q c)

  peek-head :
      (s : FifoRegisters shape depth memory) (q : List A)
      → Holds shape depth memory pos s q
      → fifo_peek shape depth memory s ≡ head q
  peek-head s [] (valid, (count, w)) =
      let empty : (s.allocator.allocated == 0) ≡ true = ground arith in rw empty refl
  peek-head s (x ∷ q) (valid, (count, (win, front))) =
      let nonempty : (s.allocator.allocated == 0) ≡ false = ground arith in
      rw (nonempty, front) refl

  -- What the list does in a cycle that is possible.
  spec_done :
      (q q1 : List A) (c : Cycle A)
      → pop c.read q ≡ some q1
      → append depth q c.write c.data_in q1
        ≡ some (q1 ++ back shape depth memory pos c.write c.data_in)
      → pop_append depth q c
        ≡ some (head q, cleared c.clear (q1 ++ back shape depth memory pos c.write c.data_in))
  spec_done q q1 c e e' = rw (e, e', pop_append) refl

  append_room :
      (q q1 : List A) (write : Bool) (d : A)
      → length q + bit write ≤ depth
      → append depth q write d q1 ≡ some (q1 ++ back shape depth memory pos write d)
  append_room q q1 true d h =
      let room : ltb (length q) depth ≡ true = ground arith in rw (room, append) refl
  append_room q q1 false d h = ap some (sym (append-nil q1))

  pop_fails : (q : List A) (c : Cycle A) → pop c.read q ≡ none → pop_append depth q c ≡ none
  pop_fails q c e = rw (e, pop_append) refl

  append_fails :
      (q q1 : List A) (c : Cycle A)
      → pop c.read q ≡ some q1
      → c.write ≡ true
      → length q ≡ depth
      → pop_append depth q c ≡ none
  append_fails q q1 c e w full =
      let no_room : ltb (length q) depth ≡ false = ground arith in
      rw (e, w, no_room, pop_append, append) refl

  pop-none : (read : Bool) (q : List A) → pop read q ≡ none → (read ≡ true) × (length q ≡ 0)
  pop-none true [] e = (refl, refl)
  pop-none true (x ∷ q) e = absurd cc
  pop-none false q e = absurd cc

  pop-some : (read : Bool) (q q1 : List A) → pop read q ≡ some q1 → bit read ≤ length q
  pop-some true [] q1 e = absurd cc
  pop-some true (x ∷ q) q1 e = omega arith
  pop-some false q q1 e = omega arith

  agree_done :
      (s : FifoRegisters shape depth memory) (q q1 : List A) (c : Cycle A)
      → Holds shape depth memory pos s q
      → fifo_legal shape depth memory s c ≡ true
      → pop c.read q ≡ some q1
      → Same s q c
  unfolding fifo_cycle Same
  agree_done s q q1 c holds ok popped =
      let (valid, (count, w)) = holds in
      let bounded : length q ≤ depth = omega (arith, count, valid.1.0) in
      let room : length q + bit c.write ≤ depth = ground arith in
      let spec = spec_done q q1 c popped (append_room q q1 c.write c.data_in room) in
      let done : fifo_cycle shape depth memory s c
          ≡ some (head q, fifo_after shape depth memory s c) =
        rw (ok, peek-head s q holds) refl in
      elim (Bool-cases c.clear) [
        | inl clear ↦ inr (
          head q,
          fifo_after shape depth memory s c,
          [],
          done,
          spec
              ∙ ap
                  (λ b.
                    some (head q, cleared b (q1 ++ back shape depth memory pos c.write c.data_in)))
                  clear,
          after_clear shape depth memory pos s c clear,
        )
        | inr kept ↦ inr (
          head q,
          fifo_after shape depth memory s c,
          q1 ++ back shape depth memory pos c.write c.data_in,
          done,
          spec
              ∙ ap
                  (λ b.
                    some (head q, cleared b (q1 ++ back shape depth memory pos c.write c.data_in)))
                  kept,
          after-Holds shape depth memory pos s q q1 c holds popped room kept,
        )
      ]

  agree :
      (s : FifoRegisters shape depth memory) (q : List A) (c : Cycle A)
      → Holds shape depth memory pos s q
      → Same s q c
  unfolding fifo_cycle Same
  agree s q c holds = elim (Bool-cases (fifo_legal shape depth memory s c)) [
    | inl ok ↦ elim (Option-cases (pop c.read q)) [
      | inl stuck ↦
          let (r, e) = pop-none c.read q stuck in
          let (valid, (count, w)) = holds in absurd (ground arith)
      | inr (q1, popped) ↦ agree_done s q q1 c holds ok popped
    ]
    | inr bad ↦ elim (Option-cases (pop c.read q)) [
      | inl stuck ↦ inl (rw bad refl, pop_fails q c stuck)
      | inr (q1, popped) ↦
          let (valid, (count, w)) = holds in
          let enough : bit c.read ≤ length q = pop-some c.read q q1 popped in
          inl (rw bad refl, append_fails q q1 c popped (ground arith) (ground arith))
    ]
  ]

  -- A BasicFifo with at least one entry is a queue with room for `depth` elements: from the reset state
  -- of its allocator, on every sequence of cycles the same cycles are possible, and `read` and `peek` give
  -- the same elements, whatever the memory holds at first. `write` needs room before the `read` of its
  -- cycle.
  pub fifo-pop_append :
      (cells : memory.Cells) (cycles : List (Cycle A))
      → trace
          (fifo_cycle shape depth memory)
          (record { allocator = cleared_pointers; cells = cells })
          cycles
        ≡ trace (pop_append depth) [] cycles
  unfolding Same
  fifo-pop_append cells cycles =
      trace-agree (Holds shape depth memory pos) (fifo_cycle shape depth memory) (pop_append depth)
        (λ s q c holds. agree s q c holds) (record { allocator = cleared_pointers; cells = cells })
        [] cycles ((pos, (omega arith, sym (mod-eq_of_lt pos))), (refl, (tt, tt)))
