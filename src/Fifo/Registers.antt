-- ===== src/Fifo/Registers.antt =====
-- The registers of a BasicFifo, the list that they stand for, and a cycle on both.
use transactron.Prelude.{
  ℕ, suc, ◌+◌, ◌%◌, ◌≤◌, ◌<◌, Bool, true, false, some, List, [], ◌∷◌, ◌++◌, length, length-append,
  append-nil, bit, ◌≡◌, refl, sym, subst, ap, ap₂, ◌∙◌, inl, inr, arith, Bool-cases,
}
use native.Mathlib.Nat.{mod-lt, mod-eq_of_lt}
use transactron.Hdl.{Cycle}
use transactron.Hdl.Queue.{pop}
use transactron.Hdl.Widths.{RangeShape}
use transactron.Hdl.Memory.{Memory}
use transactron.Allocator.{next_pointers}
use transactron.Allocator.Correct.{IsValid, allocs, frees, next-IsValid, next_idx-exact}
use transactron.Fifo.{FifoRegisters, requests, read_addr, fifo_after}
use transactron.Fifo.Window.{Window, later_start, tick-Window, tick-Window_append}

module _ {ℓ} {A : Type ℓ} (shape : RangeShape) (depth : ℕ) (memory : Memory A depth)
    (pos : 0 < depth) where
  -- The read port has the front.
  abbrev pub Front : memory.Cells → List A → Type ℓ
  Front m [] = Unit
  Front m (x ∷ q) = memory.port_data m ≡ x

  abbrev pub Holds : FifoRegisters shape depth memory → List A → Type ℓ
  Holds s q =
      IsValid depth s.allocator
      × ((s.allocator.allocated ≡ length q)
          × (Window depth memory s.cells s.allocator.start_idx 0 q × Front s.cells q))

  abbrev pub back : Bool → A → List A
  back true d = d ∷ []
  back false d = []

  -- The write of a cycle, if there is one.
  tick-Window-back :
      (m : memory.Cells) (write : Bool) (d : A) (r s : ℕ) (q : List A)
      → s < depth
      → length q ≤ depth
      → (write ≡ true → length q < depth)
      → Window depth memory m s 0 q
      → Window depth memory
          (memory.tick m write ((s + length q) % depth) d r)
          s
          0
          (q ++ back write d)
  tick-Window-back m true d r s q below h room w =
      tick-Window_append depth memory m d r s (length q) below (room refl) 0 q (omega arith) w
  tick-Window-back m false d r s q below h room w =
      subst (Window depth memory (memory.tick m false ((s + length q) % depth) d r) s 0)
        (sym (append-nil q)) (tick-Window depth memory m d ((s + length q) % depth) r s 0 q pos w)

  tick-Front :
      (m : memory.Cells) (write : Bool) (w : ℕ) (d : A) (s : ℕ) (q : List A)
      → s < depth
      → Window depth memory (memory.tick m write w d s) s 0 q
      → Front (memory.tick m write w d s) q
  tick-Front m write w d s [] h win = tt
  tick-Front m write w d s (x ∷ q) h (row, win) =
      let at : (s + 0) % depth ≡ s = ap (λ y. y % depth) (omega arith) ∙ mod-eq_of_lt h in
      memory.port_data-tick m write w d s h
      ∙ sym (memory.row-tick m write w d s s h)
      ∙ sym (ap (memory.row (memory.tick m write w d s)) at)
      ∙ row

  moved-Window :
      (m : memory.Cells) (s : ℕ) (read : Bool) (q q1 b : List A)
      → s < depth
      → pop read q ≡ some q1
      → Window depth memory m s 0 (q ++ b)
      → Window depth memory m ((s + bit read) % depth) 0 (q1 ++ b)
  moved-Window m s false q q1 b h e w =
      let same : q ≡ q1 = cc in
      let still : (s + 0) % depth ≡ s = ap (λ y. y % depth) (omega arith) ∙ mod-eq_of_lt h in
      subst (λ q'. Window depth memory m ((s + 0) % depth) 0 (q' ++ b)) same
        (subst (λ s'. Window depth memory m s' 0 (q ++ b)) (sym still) w)
  moved-Window m s true [] q1 b h e w = absurd cc
  moved-Window m s true (x ∷ q) q1 b h e (row, w) =
      let same : q ≡ q1 = cc in
      subst (λ q'. Window depth memory m ((s + 1) % depth) 0 (q' ++ b)) same
        (later_start depth memory m s 0 (q ++ b) w)

  module _ (s : FifoRegisters shape depth memory) (q q1 : List A) (c : Cycle A) (holds : Holds s q)
      (popped : pop c.read q ≡ some q1) (room : length q + bit c.write ≤ depth) where
    popped_length :
        (read : Bool) (q q1 : List A) → pop read q ≡ some q1 → length q ≡ length q1 + bit read
    popped_length false q q1 e = let same : q ≡ q1 = cc in ap length same ∙ omega arith
    popped_length true [] q1 e = absurd cc
    popped_length true (x ∷ q) q1 e =
        let same : q ≡ q1 = cc in ap (λ y. suc (length y)) same ∙ omega arith

    length-back : (write : Bool) (d : A) → length (back write d) ≡ bit write
    length-back true d = refl
    length-back false d = refl

    freed : frees (requests shape depth memory c) ≡ bit c.read
    freed = ground arith

    allocated_now : allocs (requests shape depth memory c) ≡ bit c.write
    allocated_now = ground arith

    addr : read_addr shape depth memory s c ≡ (s.allocator.start_idx + bit c.read) % depth
    unfolding read_addr
    addr = elim (Bool-cases c.read) [
      | inl r ↦ rw r (
          next_idx-exact shape depth 1 1 s.allocator.start_idx 1 1 holds.0.0 (omega arith)
            (omega arith))
      | inr r ↦ rw r (sym (ap (λ y. y % depth) (omega arith) ∙ mod-eq_of_lt holds.0.0))
    ]

    pointers_next :
        c.clear ≡ false
        → let next =
            next_pointers shape depth 1 1 true s.allocator (requests shape depth memory c) in
          IsValid depth next
          × ((next.allocated + bit c.read ≡ s.allocator.allocated + bit c.write)
              × (next.start_idx ≡ (s.allocator.start_idx + bit c.read) % depth))
    pointers_next kept =
        let (valid, (count, w)) = holds in
        let lengths : length q ≡ length q1 + bit c.read = popped_length c.read q q1 popped in
        let (valid', (total, start)) =
          next-IsValid shape depth 1 1 s.allocator (requests shape depth memory c) valid
            (omega arith, omega arith) (omega (arith, freed)) (omega (arith, allocated_now)) kept in
        (
          valid',
          (
            omega (arith, freed, allocated_now),
            start ∙ ap (λ y. (s.allocator.start_idx + y) % depth) freed,
          ),
        )

    abbrev cells_next : memory.Cells
    cells_next =
        memory.tick s.cells c.write ((s.allocator.start_idx + length q) % depth) c.data_in
          ((s.allocator.start_idx + bit c.read) % depth)

    cells_next-Window :
        Window depth memory cells_next
          ((s.allocator.start_idx + bit c.read) % depth)
          0
          (q1 ++ back c.write c.data_in)
    cells_next-Window =
        let ((below, (bound, ends)), (count, (win, front))) = holds in
        moved-Window cells_next s.allocator.start_idx c.read q q1 (back c.write c.data_in) below
          popped
          (tick-Window-back s.cells c.write c.data_in ((s.allocator.start_idx + bit c.read) % depth)
            s.allocator.start_idx q below (omega arith) (λ w. ground arith) win)

    cells_same : (fifo_after shape depth memory s c).cells ≡ cells_next
    unfolding fifo_after
    cells_same =
        let ((below, (bound, ends)), (count, (win, front))) = holds in
        ap₂ (λ w r. memory.tick s.cells c.write w c.data_in r)
          (ends ∙ ap (λ y. (s.allocator.start_idx + y) % depth) count) addr

    pub after-Holds :
        c.clear ≡ false → Holds (fifo_after shape depth memory s c) (q1 ++ back c.write c.data_in)
    unfolding fifo_after
    after-Holds kept =
        let (valid', (total, start)) = pointers_next kept in
        let ((below, (bound, ends)), (count, (win, front))) = holds in
        let lengths : length q ≡ length q1 + bit c.read = popped_length c.read q q1 popped in
        let q2 : List A = q1 ++ back c.write c.data_in in
        let longer : length q2 ≡ length q1 + bit c.write =
          length-append q1 (back c.write c.data_in)
          ∙ ap (λ y. length q1 + y) (length-back c.write c.data_in) in
        let windows : Window depth memory cells_next ((s.allocator.start_idx + bit c.read) % depth)
              0 q2
            × Front cells_next q2 =
          (
            cells_next-Window,
            tick-Front s.cells c.write ((s.allocator.start_idx + length q) % depth) c.data_in
                ((s.allocator.start_idx + bit c.read) % depth) q2 (mod-lt _ pos) cells_next-Window,
          ) in
        (
          valid',
          (
            omega (arith, total, count, lengths, longer),
            subst
                (λ i.
                  Window depth memory (fifo_after shape depth memory s c).cells i 0 q2
                  × Front (fifo_after shape depth memory s c).cells q2)
                (sym start)
                (subst
                  (λ m.
                    Window depth memory m ((s.allocator.start_idx + bit c.read) % depth) 0 q2
                    × Front m q2)
                  (sym cells_same) windows),
          ),
        )

  pub after_clear :
      (s : FifoRegisters shape depth memory) (c : Cycle A)
      → c.clear ≡ true
      → Holds (fifo_after shape depth memory s c) []
  unfolding fifo_after next_pointers
  after_clear s c clear = rw clear ((pos, (omega arith, sym (mod-eq_of_lt pos))), (refl, (tt, tt)))
