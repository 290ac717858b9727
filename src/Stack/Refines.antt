-- ===== src/Stack/Refines.antt =====
-- The hardware stack and the list that it stands for.
use transactron.Prelude.{
  ℕ, suc, ◌+◌, ◌≤◌, ◌<◌, Bool, true, false, none, some, List, [], ◌∷◌, length, ◌≡◌, refl, sym, ◌∙◌,
  inl, inr, arith, ◌==◌, ◌&&◌, if◌then◌else◌, ap, subst, ltb, Bool-cases,
}
use transactron.Hdl.{Cycle, trace}
use transactron.Hdl.Queue.{pop_push, head}
use transactron.Hdl.Widths.{RangeShape, wrap, wrap_pred, wrap_small, wrap_pred-suc}
use transactron.Hdl.Memory.{Memory}
use transactron.Hdl.Simulation.{Agree, trace-agree}
use transactron.Stack.{StackRegisters, next_level, port_addr, stack_cycle, after, legal, peek}

module _ {ℓ} {A : Type ℓ} (shape : RangeShape) (depth : ℕ) (memory : Memory A depth) where
  -- Row `i` holds the element with `i` elements below it.
  abbrev Rows : memory.Cells → List A → Type ℓ
  Rows m [] = Unit
  Rows m (x ∷ q) = (memory.row m (length q) ≡ x) × Rows m q

  -- The read port has the top.
  abbrev Top : memory.Cells → List A → Type ℓ
  Top m [] = Unit
  Top m (x ∷ q) = memory.port_data m ≡ x

  abbrev Holds : StackRegisters shape depth memory → List A → Type ℓ
  Holds s q = (s.level ≡ length q) × ((length q ≤ depth) × (Rows s.cells q × Top s.cells q))

  -- A write at or above the level leaves the elements.
  rows_kept :
      (m : memory.Cells) (en : Bool) (w : ℕ) (d : A) (r : ℕ) (q : List A)
      → length q ≤ w
      → length q ≤ depth
      → Rows m q
      → Rows (memory.tick m en w d r) q
  rows_kept m en w d r [] h h' rows = tt
  rows_kept m en w d r (x ∷ q) h h' (row, rows) =
      let above : (w == length q) ≡ false = ground arith in
      let kept : (en && w == length q) ≡ false = ground arith in
      (
        rw (memory.row-tick m en w d r (length q) (omega arith), kept) row,
        rows_kept m en w d r q (omega arith) (omega arith) rows,
      )

  enabled : (en : Bool) (n : ℕ) → (en && n == n) ≡ en
  enabled en n = ground arith

  -- After a cycle that ends with the elements `x ∷ q`.
  settled_at :
      (m : memory.Cells) (en : Bool) (d x : A) (q : List A)
      → length (x ∷ q) ≤ depth
      → (if en then d else memory.row m (length q)) ≡ x
      → Rows m q
      → Rows (memory.tick m en (length q) d (length q)) (x ∷ q)
        × Top (memory.tick m en (length q) d (length q)) (x ∷ q)
  settled_at m en d x q h top rows =
      let here : (if en && length q == length q then d else memory.row m (length q)) ≡ x =
        rw (enabled en (length q)) top in
      (
        (
          memory.row-tick m en (length q) d (length q) (length q) (omega arith) ∙ here,
          rows_kept m en (length q) d (length q) q (omega arith) (omega arith) rows,
        ),
        memory.port_data-tick m en (length q) d (length q) (omega arith) ∙ here,
      )

  settled :
      (m : memory.Cells) (en : Bool) (d x : A) (q : List A) (n addr : ℕ)
      → n ≡ length (x ∷ q)
      → length (x ∷ q) ≤ depth
      → addr ≡ wrap_pred shape depth n
      → (if en then d else memory.row m (length q)) ≡ x
      → Rows m q
      → Holds (record { level = n; cells = memory.tick m en addr d addr }) (x ∷ q)
  settled m en d x q n addr e h ea top rows =
      let at : addr ≡ length q =
        ea ∙ ap (wrap_pred shape depth) e ∙ wrap_pred-suc shape depth (length q) (omega arith) in
      let Settled : ℕ → Type ℓ =
        λ w. Rows (memory.tick m en w d w) (x ∷ q) × Top (memory.tick m en w d w) (x ∷ q) in
      (e, (h, subst Settled (sym at) (settled_at m en d x q h top rows)))

  abbrev signals : Bool → Bool → A → Bool → Cycle A
  signals read write d clear = record { read = read; write = write; data_in = d; clear = clear }

  module _ (m : memory.Cells) (q : List A) where
    abbrev registers : StackRegisters shape depth memory
    registers = record { level = length q; cells = m }

    accepted :
        (c : Cycle A)
        → Top m q
        → legal shape depth memory registers c ≡ true
        → stack_cycle shape depth memory registers c
          ≡ some (head q, after shape depth memory registers c)
    unfolding stack_cycle
    accepted c top ok = rw (ok, peek-head q top) refl
      where
        peek-head :
            (q : List A)
            → Top m q
            → peek shape depth memory (record { level = length q; cells = m }) ≡ head q
        peek-head [] top = refl
        peek-head (x ∷ q) top =
            let nonempty : (suc (length q) == 0) ≡ false = ground arith in rw (nonempty, top) refl

  abbrev end_of : memory.Cells → List A → Cycle A → StackRegisters shape depth memory
  end_of m q c = after shape depth memory (registers m q) c

  end_cleared :
      (m : memory.Cells) (q : List A) (read write : Bool) (d : A)
      → Holds (end_of m q (signals read write d true)) []
  unfolding after next_level
  end_cleared m q read write d = (refl, (omega arith, (tt, tt)))

  end_idle :
      (m : memory.Cells) (q : List A) (d : A)
      → length q ≤ depth
      → Rows m q
      → Holds (end_of m q (signals false false d false)) q
  unfolding after next_level port_addr
  end_idle m [] d h rows = (refl, (h, (tt, tt)))
  end_idle m (x ∷ q) d h (row, rows) = settled m false d x q (length (x ∷ q)) _ refl h refl row rows

  end_read :
      (m : memory.Cells) (x : A) (q : List A) (d : A)
      → length (x ∷ q) ≤ depth
      → Rows m q
      → Holds (end_of m (x ∷ q) (signals true false d false)) q
  unfolding after next_level port_addr
  end_read m x [] d h rows =
      (wrap_pred-suc shape (depth + 1) 0 (omega arith), (omega arith, (tt, tt)))
  end_read m x (y ∷ q) d h (row, rows) =
      settled m false d y q _ _ (wrap_pred-suc shape (depth + 1) (length (y ∷ q)) (omega arith))
        (omega arith) refl row rows

  end_written :
      (m : memory.Cells) (q : List A) (d : A)
      → length q < depth
      → Rows m q
      → Holds (end_of m q (signals false true d false)) (d ∷ q)
  unfolding after next_level port_addr
  end_written m q d h rows =
      let next : wrap shape (depth + 1) (length q + 1) ≡ suc (length q) =
        wrap_small shape (depth + 1) (length q + 1) (omega arith) ∙ omega arith in
      settled m true d d q _ _ next h refl refl rows

  end_replaced :
      (m : memory.Cells) (x : A) (q : List A) (d : A)
      → length (x ∷ q) ≤ depth
      → Rows m q
      → Holds (end_of m (x ∷ q) (signals true true d false)) (d ∷ q)
  unfolding after next_level port_addr
  end_replaced m x q d h rows = settled m true d d q (length (x ∷ q)) _ refl h refl refl rows

  Same : memory.Cells → List A → Cycle A → Type ℓ
  Same m q c = Agree Holds (stack_cycle shape depth memory (registers m q) c) (pop_push depth q c)

  module _ (m : memory.Cells) (q : List A) (c : Cycle A) where
    both_do :
        (q2 : List A)
        → Top m q
        → legal shape depth memory (registers m q) c ≡ true
        → pop_push depth q c ≡ some (head q, q2)
        → Holds (end_of m q c) q2
        → Same m q c
    unfolding Same
    both_do q2 top ok spec holds =
        inr (head q, end_of m q c, q2, accepted m q c top ok, spec, holds)

    both_fail :
        legal shape depth memory (registers m q) c ≡ false → pop_push depth q c ≡ none → Same m q c
    unfolding Same stack_cycle
    both_fail ok spec = inl (rw ok refl, spec)

  not_written :
      (m : memory.Cells) (q : List A) (read : Bool) (d : A) (clear : Bool)
      → length q ≤ depth
      → Rows m q
      → Top m q
      → Same m q (signals read false d clear)
  not_written m [] true d clear h rows top = both_fail m [] _ refl refl
  not_written m q false d true h rows top =
      both_do m q _ [] top (ground arith) refl (end_cleared m q false false d)
  not_written m q false d false h rows top =
      both_do m q _ q top (ground arith) refl (end_idle m q d h rows)
  not_written m (x ∷ q) true d true h rows top =
      both_do m (x ∷ q) _ [] top (ground arith) refl (end_cleared m (x ∷ q) true false d)
  not_written m (x ∷ q) true d false h (row, rows) top =
      both_do m (x ∷ q) _ q top (ground arith) refl (end_read m x q d h rows)

  written :
      (m : memory.Cells) (q : List A) (read : Bool) (d : A) (clear : Bool)
      → length q < depth
      → Rows m q
      → Top m q
      → Same m q (signals read true d clear)
  written m [] true d clear h rows top = both_fail m [] _ refl refl
  written m q false d true h rows top =
      let room : ltb (length q) depth ≡ true = ground arith in
      both_do m q _ [] top (ground arith) (rw (room, pop_push) refl) (end_cleared m q false true d)
  written m q false d false h rows top =
      let room : ltb (length q) depth ≡ true = ground arith in
      both_do m q _ (d ∷ q) top (ground arith) (rw (room, pop_push) refl) (end_written m q d h rows)
  written m (x ∷ q) true d true h rows top =
      let room : ltb (length (x ∷ q)) depth ≡ true = ground arith in
      both_do m (x ∷ q) _ [] top (ground arith) (rw (room, pop_push) refl)
        (end_cleared m (x ∷ q) true true d)
  written m (x ∷ q) true d false h (row, rows) top =
      let room : ltb (length (x ∷ q)) depth ≡ true = ground arith in
      both_do m (x ∷ q) _ (d ∷ q) top (ground arith) (rw (room, pop_push) refl)
        (end_replaced m x q d (omega arith) rows)

  pop_push-full :
      (q : List A) (read : Bool) (d : A) (clear : Bool)
      → length q ≡ depth
      → pop_push depth q (signals read true d clear) ≡ none
  pop_push-full [] true d clear h = refl
  pop_push-full (x ∷ q) true d clear h =
      let no_room : ltb (length (x ∷ q)) depth ≡ false = ground arith in rw (no_room, pop_push) refl
  pop_push-full q false d clear h =
      let no_room : ltb (length q) depth ≡ false = ground arith in rw (no_room, pop_push) refl

  agree :
      (m : memory.Cells) (q : List A) (read write : Bool) (d : A) (clear : Bool)
      → length q ≤ depth
      → Rows m q
      → Top m q
      → Same m q (signals read write d clear)
  agree m q read false d clear h rows top = not_written m q read d clear h rows top
  agree m q read true d clear h rows top = elim (Bool-cases (length q == depth)) [
    | inl e ↦ both_fail m q _ (ground arith) (pop_push-full q read d clear (ground arith))
    | inr ne ↦ written m q read d clear (ground arith) rows top
  ]

  -- A Stack is a list with room for `depth` elements that is read before it is written: from the
  -- level 0, on every sequence of cycles the same cycles are possible, and `read` and `peek` give the
  -- same elements, whatever the memory holds at first. `write` needs room before the `read` of its cycle.
  pub stack-pop_push :
      (cells : memory.Cells) (cycles : List (Cycle A))
      → trace (stack_cycle shape depth memory) (record { level = 0; cells = cells }) cycles
        ≡ trace (pop_push depth) [] cycles
  unfolding Same
  stack-pop_push cells cycles =
      trace-agree Holds (stack_cycle shape depth memory) (pop_push depth)
        (λ s q c (e, (h, (rows, top))).
          subst
            (λ n.
              Agree Holds (stack_cycle shape depth memory (record { level = n; cells = s.cells }) c)
                (pop_push depth q c))
            (sym e) (agree s.cells q c.read c.write c.data_in c.clear h rows top))
        (record { level = 0; cells = cells }) [] cycles (refl, (omega arith, (tt, tt)))
