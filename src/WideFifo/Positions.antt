-- ===== src/WideFifo/Positions.antt =====
-- Indices of a `WideFifo` as places on a circle of `depth` elements.
use transactron.Prelude.{
  ℕ, ◌+◌, ◌-◌, ◌*◌, ◌≤◌, ◌<◌, true, false, ltb, leb, ltb→lt, leb→le, lt→ltb, le→ltb, if◌then◌else◌,
  ◌≡◌, sym, ap, ap₂, ◌∙◌, subst, arith, Bool-cases, inl, inr,
}
use transactron.Hdl.Widths.{RangeShape, wrap, wrap_small}
use transactron.Modulo.Exact.{mod_incr-next}
use transactron.WideFifo.{WideShape, col_count, wide_depth, Index, incr_row, advance, port_addr}

-- Round a circle of `size` places once.
abbrev pub turn : ℕ → ℕ → ℕ
turn size n = if ltb n size then n else n - size

pub turn-turn :
    (size a n k : ℕ)
    → a < size
    → n + k < size
    → turn size (turn size (a + n) + k) ≡ turn size (a + (n + k))
turn-turn size a n k h lt = ground arith

pub turn_behind :
    (size a all n m : ℕ)
    → a < size
    → n ≤ all
    → m + all ≤ size
    → turn size (turn size (a + all) + m) ≡ turn size (turn size (a + n) + (all - n + m))
turn_behind size a all n m h le room = ground arith

pub turn_past :
    (size a all n m k : ℕ)
    → a < size
    → n ≤ all
    → m + all ≤ size
    → all - n ≤ k
    → k < all - n + m
    → turn size (turn size (a + n) + k) ≡ turn size (turn size (a + all) + (k - (all - n)))
turn_past size a all n m k h le room old lt = ground arith

module _ (p : WideShape) where
  -- The signals of an index hold it: its fields have the shapes `range(row_count)` and
  -- `range(col_count)`.
  pub record IsIndex (idx : Index) : Type 0 where
    pub row_fits : idx.row < p.row_count
    pub col_fits : idx.col < col_count p

  pub place : Index → ℕ
  place idx = idx.row * col_count p + idx.col

  abbrev pub around : ℕ → ℕ
  around = turn (wide_depth p)

  rows_below : (r s : ℕ) → r < s → (r + 1) * col_count p ≤ s * col_count p
  rows_below r s h = grind arith

  row_next : (r : ℕ) → (r + 1) * col_count p ≡ r * col_count p + col_count p
  row_next r = omega arith

  pub place-lt-depth : (idx : Index) → IsIndex idx → place idx < wide_depth p
  unfolding place
  place-lt-depth idx v =
      omega (arith, rows_below idx.row p.row_count v.row_fits, row_next idx.row, v.col_fits)

  pub place_of : (a b : Index) → a.row ≡ b.row → a.col ≡ b.col → place a ≡ place b
  unfolding place
  place_of a b row col = ap₂ (λ r k. r * col_count p + k) row col

  pub place_unique :
      (a b : Index) → IsIndex a → IsIndex b → place a ≡ place b → (a.row ≡ b.row) × (a.col ≡ b.col)
  unfolding place
  place_unique a b va vb e = elim (Bool-cases (ltb a.row b.row)) [
    | inl less ↦ absurd (
        omega
          (arith, rows_below a.row b.row (ltb→lt a.row b.row less), row_next a.row, va.col_fits))
    | inr not_less ↦ elim (Bool-cases (ltb b.row a.row)) [
      | inl more ↦ absurd (
          omega
            (arith, rows_below b.row a.row (ltb→lt b.row a.row more), row_next b.row, vb.col_fits))
      | inr not_more ↦
          let same : a.row ≡ b.row = ground arith in
          let e' = subst (λ r. r * col_count p + a.col ≡ b.row * col_count p + b.col) same e in
          (same, omega arith)
    ]
  ]

  -- The index `count` elements on, as numbers.
  unfoldable pub next_row : ℕ → ℕ
  next_row row = if ltb (row + 1) p.row_count then row + 1 else 0

  unfoldable pub onward : Index → ℕ → Index
  unfolding next_row
  onward idx count =
      if leb (col_count p) (idx.col + count)
      then record { row = next_row idx.row; col = idx.col + count - col_count p }
      else record { row = idx.row; col = idx.col + count }

  incr_row-next :
      (shape : RangeShape) (idx : Index) → IsIndex idx → incr_row shape p idx ≡ next_row idx.row
  unfolding incr_row next_row
  incr_row-next shape idx v =
      let next = mod_incr-next idx.row p.row_count v.row_fits in
      ap (wrap shape p.row_count) next ∙ wrap_small shape p.row_count _ (ground (arith, v.row_fits))

  -- Nothing is cut off an index that lies in its ranges.
  advance-onward :
      (shape : RangeShape) (idx : Index) (count : ℕ)
      → IsIndex idx
      → count ≤ col_count p
      → advance shape p idx count ≡ onward idx count
  unfolding advance onward
  advance-onward shape idx count v h = elim (Bool-cases (leb (col_count p) (idx.col + count))) [
    | inl moves ↦
        let col =
          wrap_small shape (col_count p) (idx.col + count - col_count p)
            (omega (arith, v.col_fits)) in
        rw (advance, onward, moves, incr_row-next shape idx v, col)
    | inr stays ↦
        let col = wrap_small shape (col_count p) (idx.col + count) (ground arith) in
        rw (advance, onward, stays, col)
  ]

  -- The index `count` elements on lies `count` places further round the circle, and its signals hold
  -- it.
  pub onward-place :
      (idx : Index) (count : ℕ)
      → IsIndex idx
      → count ≤ col_count p
      → IsIndex (onward idx count) × (place (onward idx count) ≡ around (place idx + count))
  unfolding onward place
  onward-place idx count v h = elim (Bool-cases (leb (col_count p) (idx.col + count))) [
    | inr stays ↦
        let room : idx.col + count < col_count p = ground arith in
        let below = rows_below idx.row p.row_count v.row_fits in
        let test : ltb (idx.row * col_count p + idx.col + count) (wide_depth p) ≡ true =
          lt→ltb _ _ (omega (arith, below, row_next idx.row)) in
        (
          rw (stays, onward) (record { row_fits = v.row_fits; col_fits = room }),
          rw (stays, onward, place, test) (omega arith),
        )
    | inl moves ↦
        let over : col_count p ≤ idx.col + count = leb→le _ _ moves in
        elim (Bool-cases (ltb (idx.row + 1) p.row_count)) [
          | inl inside ↦
              let row : next_row idx.row ≡ idx.row + 1 = rw (inside, next_row) in
              let below = rows_below (idx.row + 1) p.row_count (ltb→lt _ _ inside) in
              let test : ltb (idx.row * col_count p + idx.col + count) (wide_depth p) ≡ true =
                lt→ltb _ _
                  (omega (arith, below, row_next idx.row, row_next (idx.row + 1), v.col_fits)) in
              (
                rw (moves, onward, row)
                    (record { row_fits = ltb→lt _ _ inside; col_fits = omega arith }),
                rw (moves, onward, place, row, test) (omega (arith, row_next idx.row)),
              )
          | inr last ↦
              let row : next_row idx.row ≡ 0 = rw (last, next_row) in
              let end : p.row_count ≡ idx.row + 1 = ground arith in
              let whole : wide_depth p ≡ idx.row * col_count p + col_count p =
                ap (λ r. r * col_count p) end ∙ row_next idx.row in
              let test : ltb (idx.row * col_count p + idx.col + count) (wide_depth p) ≡ false =
                le→ltb _ _ (omega arith) in
              (
                rw (moves, onward, row) (record { row_fits = omega arith; col_fits = omega arith }),
                rw (moves, onward, place, row, test) (omega arith),
              )
        ]
  ]

  pub advance-place :
      (shape : RangeShape) (idx : Index) (count : ℕ)
      → IsIndex idx
      → count ≤ col_count p
      → IsIndex (advance shape p idx count)
        × (place (advance shape p idx count) ≡ around (place idx + count))
  advance-place shape idx count v h =
      subst (λ i. IsIndex i × (place i ≡ around (place idx + count)))
        (sym (advance-onward shape idx count v h)) (onward-place idx count v h)

  -- The column and the address of the elements from an index on.
  pub onward-col :
      (idx : Index) (k : ℕ)
      → (onward idx k).col
        ≡ (if ltb (idx.col + k) (col_count p) then idx.col + k else idx.col + k - col_count p)
  unfolding onward
  onward-col idx k = ground arith

  pub port_addr-onward :
      (shape : RangeShape) (idx : Index) (k : ℕ)
      → IsIndex idx
      → k < col_count p
      → port_addr shape p idx (onward idx k).col ≡ (onward idx k).row
  unfolding onward port_addr
  port_addr-onward shape idx k v h =
      let next = incr_row-next shape idx v in ground (arith, v.col_fits, next)

  -- Each column is that of an element from an index on.
  abbrev pub back : Index → ℕ → ℕ
  back idx i = if leb idx.col i then i - idx.col else i + col_count p - idx.col

  pub onward-back :
      (idx : Index) (i : ℕ)
      → IsIndex idx
      → i < col_count p
      → (back idx i < col_count p) × ((onward idx (back idx i)).col ≡ i)
  unfolding onward
  onward-back idx i v h = ground (arith, v.col_fits)

  pub back-onward :
      (idx : Index) (k : ℕ) → IsIndex idx → k < col_count p → back idx (onward idx k).col ≡ k
  unfolding onward
  back-onward idx k v h = ground (arith, v.col_fits)
