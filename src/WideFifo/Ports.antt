-- ===== src/WideFifo/Ports.antt =====
-- The read ports of a `WideFifo`: what `head` has is what they show.
use transactron.Prelude.{
  ℕ, none, ◌≤◌, ◌<◌, ◌++◌, length, length-take, get_or, take, drop, ◌≡◌, sym, ap, ◌∙◌, arith,
}
use transactron.Hdl.Widths.{RangeShape}
use transactron.Hdl.Memory.{Memory}
use transactron.Shifter.{PartSelect, EntryShape, table, placeholder_or}
use transactron.Shifter.Rotations.{rotate_vec_right_lem}
use transactron.WideFifo.{WideShape, col_count, Index, WideRegisters, head_data}
use transactron.WideFifo.Lists.{turned_table, get_or-take, length-table, length_turned}
use transactron.WideFifo.Positions.{IsIndex, onward, onward-col}

pub read_width-le : (p : WideShape) → p.read_width ≤ col_count p
unfolding col_count
read_width-le p = ground arith

pub write_width-le : (p : WideShape) → p.write_width ≤ col_count p
unfolding col_count
write_width-le p = ground arith

module _ {ℓ} {A : Type ℓ} (shape : RangeShape) (part : PartSelect) (entry : EntryShape A)
    (p : WideShape) (memory : Memory A p.row_count) where
  abbrev pub zeros : A
  zeros = placeholder_or part entry none

  -- The element at an index, and the data of the read port of its column.
  abbrev pub cell : (ℕ → memory.Cells) → Index → A
  cell storage idx = memory.row (storage idx.col) idx.row

  abbrev pub port : (ℕ → memory.Cells) → Index → A
  port storage idx = memory.port_data (storage idx.col)

  module _ (s : WideRegisters shape part entry p memory) where
    -- `head` has what the ports show, from the column of the read index on.
    pub head-port :
        (k : ℕ)
        → IsIndex p s.read_idx
        → k < p.read_width
        → get_or (head_data shape part entry p memory s) k zeros
          ≡ port s.storage (onward p s.read_idx k)
    unfolding head_data
    head-port k v h =
        let read_data = λ (i : ℕ). memory.port_data (s.storage i) in
        let ports = table (col_count p) read_data in
        let size : length ports ≡ col_count p = length-table (col_count p) read_data in
        let narrow = read_width-le p in
        let rotated =
          rotate_vec_right_lem part entry ports s.read_idx.col (omega (arith, v.col_fits))
            (omega (arith, v.col_fits)) in
        rw (rotated, head_data)
          (get_or-take p.read_width (drop s.read_idx.col ports ++ take s.read_idx.col ports) k zeros
              h
            ∙ (turned_table (col_count p) s.read_idx.col k read_data zeros
                  (omega (arith, v.col_fits)) (omega arith)
                ∙ ap read_data (sym (onward-col p s.read_idx k))))

    pub length-head :
        IsIndex p s.read_idx → length (head_data shape part entry p memory s) ≡ p.read_width
    unfolding head_data
    length-head v =
        let read_data = λ (i : ℕ). memory.port_data (s.storage i) in
        let ports = table (col_count p) read_data in
        let size : length ports ≡ col_count p = length-table (col_count p) read_data in
        let narrow = read_width-le p in
        let rotated =
          rotate_vec_right_lem part entry ports s.read_idx.col (omega (arith, v.col_fits))
            (omega (arith, v.col_fits)) in
        rw (rotated, head_data)
          (length-take p.read_width (drop s.read_idx.col ports ++ take s.read_idx.col ports)
            (omega (arith, length_turned s.read_idx.col ports (omega (arith, v.col_fits)))))
