-- ===== src/WideFifo/Storage.antt =====
-- The memories of a `WideFifo`: what a cycle writes, and what the read ports show after it.
use transactron.Prelude.{
  ℕ, zero, suc, ◌+◌, ◌-◌, ◌≤◌, ◌<◌, Bool, true, false, ◌&&◌, ◌==◌, ==_iff, ltb, leb, ltb→lt, lt→ltb,
  if◌then◌else◌, ◌++◌, length, length-append, get_or, ◌≡◌, ◌≢◌, refl, sym, ap, ◌∙◌, subst, arith,
  Bool-cases, inl, inr,
}
use transactron.Hdl.Widths.{RangeShape}
use transactron.Hdl.Memory.{Memory}
use transactron.Shifter.{PartSelect, EntryShape, table, replicate, rotate_left}
use transactron.Shifter.Rotations.{generic_shift_lem, rotate_vec_left_lem}
use transactron.WideFifo.{
  WideShape, col_count, Index, WideCalls, port_addr, WideRegisters, write_enables, shifted_data,
  storage_after, next_read_idx,
}
use transactron.WideFifo.Lists.{turned_left_table, get_or-append, length-table, get_or_turned_left}
use transactron.WideFifo.Positions.{
  IsIndex, place, onward, place_of, onward-place, port_addr-onward, back, onward-back, back-onward,
}
use transactron.WideFifo.Ports.{zeros, cell, port, write_width-le}

pub length-replicate {ℓ} : {A : Type ℓ} (n : ℕ) (a : A) → length (replicate n a) ≡ n
length-replicate n a = length_of n
  where
    length_of : (n : ℕ) → length (replicate n a) ≡ n
    length_of zero = refl
    length_of (suc n) = ap suc (length_of n)

module _ {ℓ} {A : Type ℓ} (shape : RangeShape) (part : PartSelect) (entry : EntryShape A)
    (p : WideShape) (memory : Memory A p.row_count) where
  abbrev placeholder : A
  placeholder = zeros shape part entry p memory

  module _ (s : WideRegisters shape part entry p memory) where
    -- The write enable of a column, and the element that it is given.
    module _ (c : WideCalls A) (v : IsIndex p s.write_idx) where
      enable_lem :
          (i : ℕ)
          → i < col_count p
          → get_or (write_enables shape part entry p memory s c) i false
            ≡ ltb (back p s.write_idx i) c.write_count
      unfolding write_enables rotate_left
      enable_lem i h =
          let ens = table (col_count p) (λ i. ltb i c.write_count) in
          let size : length ens ≡ col_count p =
            length-table (col_count p) (λ i. ltb i c.write_count) in
          let rotated =
            (generic_shift_lem part ens ens s.write_idx.col refl (omega (arith, v.col_fits))).1 in
          rw (write_enables, rotate_left, rotated, size)
            (turned_left_table (col_count p) s.write_idx.col i (λ i. ltb i c.write_count) false
              v.col_fits h)

      data_lem :
          (i : ℕ)
          → i < col_count p
          → length c.write_data ≡ p.write_width
          → back p s.write_idx i < p.write_width
          → get_or (shifted_data shape part entry p memory s c) i placeholder
            ≡ get_or c.write_data (back p s.write_idx i) placeholder
      unfolding shifted_data
      data_lem i h long within =
          let filler = replicate (col_count p - p.write_width) placeholder in
          let ext = c.write_data ++ filler in
          let narrow = write_width-le p in
          let size : length ext ≡ col_count p = omega (
            arith,
            length-append c.write_data filler,
            length-replicate (col_count p - p.write_width) placeholder,
          ) in
          let rotated =
            rotate_vec_left_lem part entry ext s.write_idx.col (omega (arith, v.col_fits))
              (omega (arith, v.col_fits)) in
          let first : ltb (back p s.write_idx i) (length c.write_data) ≡ true =
            lt→ltb _ _ (omega arith) in
          rw (shifted_data, rotated)
            (get_or_turned_left s.write_idx.col i ext placeholder (omega (arith, v.col_fits))
                (omega arith)
              ∙ (ap
                    (λ n.
                      get_or ext
                        (if leb s.write_idx.col i
                          then i - s.write_idx.col
                          else i + n - s.write_idx.col)
                        placeholder)
                    size
                  ∙ (get_or-append c.write_data filler (back p s.write_idx i) placeholder
                      ∙ rw first)))

      -- The write at a column, with the place that it has behind the write index.
      enabled : Bool → ℕ → ℕ → Bool
      enabled write j count = write && ltb j count

      cell-after :
          (idx : Index)
          → IsIndex p idx
          → length c.write_data ≡ p.write_width
          → c.write_count ≤ p.write_width
          → cell shape part entry p memory (storage_after shape part entry p memory s c) idx ≡ (
              if enabled c.write (back p s.write_idx idx.col) c.write_count
                && (onward p s.write_idx (back p s.write_idx idx.col)).row == idx.row
              then get_or c.write_data (back p s.write_idx idx.col) placeholder
              else cell shape part entry p memory s.storage idx)
      unfolding storage_after enabled
      cell-after idx vi long fits =
          let (near, col) = onward-back p s.write_idx idx.col v vi.col_fits in
          let addr : port_addr shape p s.write_idx idx.col
              ≡ (onward p s.write_idx (back p s.write_idx idx.col)).row =
            ap (port_addr shape p s.write_idx) (sym col)
            ∙ port_addr-onward p shape s.write_idx (back p s.write_idx idx.col) v near in
          memory.row-tick (s.storage idx.col)
            (c.write && get_or (write_enables shape part entry p memory s c) idx.col false)
            (port_addr shape p s.write_idx idx.col)
            (get_or (shifted_data shape part entry p memory s c) idx.col placeholder)
            (port_addr shape p (next_read_idx shape part entry p memory s c) idx.col) idx.row
            vi.row_fits
          ∙ (rw (enable_lem idx.col vi.col_fits, addr)
              (elim (Bool-cases (ltb (back p s.write_idx idx.col) c.write_count)) [
                | inl on ↦
                    rw (data_lem idx.col vi.col_fits long (omega (arith, ltb→lt _ _ on))) refl
                | inr off ↦ rw off (ground arith)
              ]))

      -- An element that is written.
      pub written :
          (idx : Index) (j : ℕ)
          → IsIndex p idx
          → length c.write_data ≡ p.write_width
          → c.write_count ≤ p.write_width
          → c.write ≡ true
          → j < c.write_count
          → (onward p s.write_idx j).row ≡ idx.row
          → (onward p s.write_idx j).col ≡ idx.col
          → cell shape part entry p memory (storage_after shape part entry p memory s c) idx
            ≡ get_or c.write_data j placeholder
      unfolding enabled
      written idx j vi long fits w lt row col =
          let narrow = write_width-le p in
          let near : back p s.write_idx idx.col ≡ j =
            ap (back p s.write_idx) (sym col) ∙ back-onward p s.write_idx j v (omega arith) in
          let on : ltb j c.write_count ≡ true = lt→ltb _ _ lt in
          let here : ((onward p s.write_idx j).row == idx.row) ≡ true = (==_iff _ _).1 row in
          cell-after idx vi long fits ∙ rw (near, w, on, here) refl

      -- An element that is not written.
      pub unwritten :
          (idx : Index)
          → IsIndex p idx
          → length c.write_data ≡ p.write_width
          → c.write_count ≤ p.write_width
          → ((j : ℕ)
              → c.write ≡ true
              → j < c.write_count
              → place p (onward p s.write_idx j) ≢ place p idx)
          → cell shape part entry p memory (storage_after shape part entry p memory s c) idx
            ≡ cell shape part entry p memory s.storage idx
      unfolding enabled
      unwritten idx vi long fits apart =
          let j = back p s.write_idx idx.col in
          let (near, col) = onward-back p s.write_idx idx.col v vi.col_fits in
          cell-after idx vi long fits
          ∙ elim (Bool-cases
              ((c.write && ltb j c.write_count) && (onward p s.write_idx j).row == idx.row)) [
                | inr off ↦ rw off
                | inl on ↦
                    let row : (onward p s.write_idx j).row ≡ idx.row = ground arith in
                    absurd (
                      apart j (ground arith) (ground arith)
                        (place_of p (onward p s.write_idx j) idx row col))
              ]

    -- The read ports show what is in the memories after the cycle, from the next read index on.
    pub port-after :
        (c : WideCalls A) (k : ℕ)
        → IsIndex p (next_read_idx shape part entry p memory s c)
        → k < col_count p
        → port shape part entry p memory
            (storage_after shape part entry p memory s c)
            (onward p (next_read_idx shape part entry p memory s c) k)
          ≡ cell shape part entry p memory
              (storage_after shape part entry p memory s c)
              (onward p (next_read_idx shape part entry p memory s c) k)
    unfolding storage_after
    port-after c k v h =
        let next = next_read_idx shape part entry p memory s c in
        let a = onward p next k in
        let (va, _) = onward-place p next k v (omega arith) in
        let addr : port_addr shape p next a.col ≡ a.row = port_addr-onward p shape next k v h in
        let en = c.write && get_or (write_enables shape part entry p memory s c) a.col false in
        let w = port_addr shape p s.write_idx a.col in
        let d = get_or (shifted_data shape part entry p memory s c) a.col placeholder in
        subst
          (λ r.
            memory.port_data (memory.tick (s.storage a.col) en w d r)
            ≡ memory.row (memory.tick (s.storage a.col) en w d r) a.row)
          (sym addr)
          (memory.port_data-tick (s.storage a.col) en w d a.row va.row_fits
            ∙ sym (memory.row-tick (s.storage a.col) en w d a.row a.row va.row_fits))
