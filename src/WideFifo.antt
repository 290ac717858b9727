-- ===== src/WideFifo.antt =====
-- `WideFifo` of transactron/lib/fifo.py: a queue of several elements per cycle, in one memory for each
-- column. An index is a row and a column; elements fill the columns of a row, then the next row.
pub mod Lists
pub mod Positions
pub mod Ports
pub mod Storage
pub mod Registers
pub mod Cycle
pub mod Refines
mod Tests
use transactron.Prelude.{
  ℕ, ◌+◌, ◌-◌, ◌*◌, ◌^◌, Bool, true, false, not, ◌&&◌, Option, none, some, List, [], ◌++◌, ◌==◌,
  ltb, leb, if◌then◌else◌, length, get_or, take, drop,
}
use transactron.Hdl.{runs_if_ready}
use transactron.Hdl.Widths.{RangeShape, wrap}
use transactron.Hdl.Memory.{Memory}
use transactron.Modulo.{mod_incr}
use transactron.Shifter.{
  PartSelect, EntryShape, table, replicate, placeholder_or, rotate_left, rotate_vec_right,
  rotate_vec_left,
}

-- `depth` is `row_count * col_count`; another depth is a ValueError.
pub record WideShape : Type 0 where
  pub read_width : ℕ
  pub write_width : ℕ
  pub row_count : ℕ

unfoldable pub col_count : WideShape → ℕ
col_count p = if ltb p.write_width p.read_width then p.read_width else p.write_width

abbrev pub wide_depth : WideShape → ℕ
wide_depth p = p.row_count * col_count p

pub record Index : Type 0 where
  pub row : ℕ
  pub col : ℕ

abbrev pub start : Index
start = record { row = 0; col = 0 }

-- The methods that run in a cycle, and their arguments.
pub record WideCalls {ℓ} (A : Type ℓ) : Type ℓ where
  pub read : Bool
  pub read_count : ℕ
  pub write : Bool
  pub write_count : ℕ
  pub write_data : List A
  pub clear : Bool

-- `mod_incr(idx.row, row_count)` assigned to `Signal(range(row_count))`
unfoldable pub incr_row : RangeShape → WideShape → Index → ℕ
incr_row shape p idx = wrap shape p.row_count (mod_incr idx.row p.row_count)

-- `incr_row_col(idx, incr_row, count)`: the fields of `chg_idx` have the shapes `range(row_count)`
-- and `range(col_count)`.
unfoldable pub incr_row_col : RangeShape → WideShape → Index → ℕ → ℕ → Index
incr_row_col shape p idx next count =
    if leb (col_count p) (idx.col + count)
    then record { row = next; col = wrap shape (col_count p) (idx.col + count - col_count p) }
    else record { row = idx.row; col = wrap shape (col_count p) (idx.col + count) }

-- The index `count` elements on, with the row after its own.
unfoldable pub advance : RangeShape → WideShape → Index → ℕ → Index
unfolding incr_row_col
advance shape p idx count = incr_row_col shape p idx (incr_row shape p idx) count

-- The address of the port of column `i`, for the elements from an index on.
unfoldable pub port_addr : RangeShape → WideShape → Index → ℕ → ℕ
port_addr shape p idx i = if leb idx.col i then idx.row else incr_row shape p idx

abbrev pub or_nil {ℓ} : {A : Type ℓ} → Option (List A) → List A
or_nil none = []
or_nil (some xs) = xs

-- `Mux(count > available, available, count)`, and the like.
abbrev pub at_most : ℕ → ℕ → ℕ
at_most bound n = if ltb bound n then bound else n

module _ {ℓ} {A : Type ℓ} (shape : RangeShape) (part : PartSelect) (entry : EntryShape A)
    (p : WideShape) (memory : Memory A p.row_count) where
  pub record WideRegisters : Type ℓ where
    pub read_idx : Index
    pub write_idx : Index
    pub level : ℕ
    pub storage : ℕ → memory.Cells

  -- `level` and `remaining` have the shape `range(col_count * row_count + 1)`.
  abbrev pub level_mod : ℕ
  level_mod = 2 ^ shape.width (wide_depth p + 1)

  unfoldable pub remaining : WideRegisters → ℕ
  remaining s = wrap shape (wide_depth p + 1) (wide_depth p + level_mod - s.level)

  abbrev pub read_available : WideRegisters → ℕ
  read_available s = at_most p.read_width s.level

  abbrev pub count_read : WideRegisters → WideCalls A → ℕ
  count_read s c = if c.read then at_most (read_available s) c.read_count else 0

  abbrev pub count_written : WideCalls A → ℕ
  count_written c = if c.write then c.write_count else 0

  unfoldable pub next_read_idx : WideRegisters → WideCalls A → Index
  next_read_idx s c = if c.read then advance shape p s.read_idx (count_read s c) else s.read_idx

  unfoldable pub head_data : WideRegisters → List A
  head_data s = take p.read_width (
      or_nil (
        rotate_vec_right part entry (table (col_count p) (λ i. memory.port_data (s.storage i)))
          s.read_idx.col))

  -- The write ports: their enables, and their data with the entries of zeros behind the argument.
  unfoldable pub write_enables : WideRegisters → WideCalls A → List Bool
  write_enables s c =
      or_nil (rotate_left part (table (col_count p) (λ i. ltb i c.write_count)) s.write_idx.col)

  unfoldable pub shifted_data : WideRegisters → WideCalls A → List A
  shifted_data s c = or_nil (
      rotate_vec_left part entry
        (c.write_data ++ replicate (col_count p - p.write_width) (placeholder_or part entry none))
        s.write_idx.col)

  unfoldable pub storage_after : WideRegisters → WideCalls A → ℕ → memory.Cells
  unfolding next_read_idx
  storage_after s c i =
      memory.tick (s.storage i) (c.write && get_or (write_enables s c) i false)
        (port_addr shape p s.write_idx i)
        (get_or (shifted_data s c) i (placeholder_or part entry none))
        (port_addr shape p (next_read_idx s c) i)

  unfoldable pub wide_after : WideRegisters → WideCalls A → WideRegisters
  unfolding storage_after next_read_idx
  wide_after s c = record {
    read_idx = if c.clear then start else next_read_idx s c;
    write_idx =
        if c.clear
        then start
        else (if c.write then advance shape p s.write_idx c.write_count else s.write_idx);
    level =
        if c.clear
        then 0
        else wrap shape (wide_depth p + 1) (s.level + level_mod - count_read s c + count_written c);
    storage = storage_after s c;
  }

  -- The methods that run are ready, `validate_arguments` holds, and the argument of `write` has a
  -- value of its layout.
  unfoldable pub wide_legal : WideRegisters → WideCalls A → Bool
  unfolding remaining
  wide_legal s c =
      runs_if_ready c.read (not (s.level == 0))
      && (runs_if_ready c.write (not (remaining s == 0) && leb c.write_count (remaining s))
          && (leb c.write_count p.write_width && length c.write_data == p.write_width))

  -- A cycle, with the elements that `peek` and `read` return: those below `count` in `data`.
  unfoldable pub wide_cycle :
      WideRegisters → WideCalls A → Option ((Option (List A) × List A) × WideRegisters)
  unfolding wide_legal wide_after head_data
  wide_cycle s c =
      if wide_legal s c
      then some (
        (
          (if s.level == 0 then none else some (take (read_available s) (head_data s))),
          take (count_read s c) (head_data s),
        ),
        wide_after s c,
      )
      else none

  -- The queue: a list with room for `depth` elements. `write` needs room before the `read` of its
  -- cycle.
  abbrev pub list_read : List A → WideCalls A → ℕ
  list_read q c = if c.read then at_most (at_most p.read_width (length q)) c.read_count else 0

  unfoldable pub list_legal : List A → WideCalls A → Bool
  list_legal q c =
      runs_if_ready c.read (not (length q == 0))
      && (runs_if_ready c.write
            (ltb (length q) (wide_depth p) && leb c.write_count (wide_depth p - length q))
          && (leb c.write_count p.write_width && length c.write_data == p.write_width))

  unfoldable pub list_cycle : List A → WideCalls A → Option ((Option (List A) × List A) × List A)
  unfolding list_legal
  list_cycle q c =
      if list_legal q c
      then some (
        (
          (if length q == 0 then none else some (take (at_most p.read_width (length q)) q)),
          take (list_read q c) q,
        ),
        (if c.clear
            then []
            else drop (list_read q c) q
              ++ (if c.write then take c.write_count c.write_data else [])),
      )
      else none
