-- ===== src/WideFifo/Registers.antt =====
-- The queue that the registers and memories of a `WideFifo` hold, and what a cycle makes of it.
use transactron.Prelude.{
  ℕ, ◌+◌, ◌-◌, ◌≤◌, ◌<◌, ltb, ltb→lt, ltb→ge, if◌then◌else◌, List, [], ◌++◌, length, length-append,
  length-take, length-drop, get_or, take, drop, ◌≡◌, sym, ap, ap₂, ◌∙◌, arith, Bool-cases, inl, inr,
}
use transactron.Hdl.Widths.{RangeShape, wrap, wrap-difference}
use transactron.Hdl.Memory.{Memory}
use transactron.Shifter.{PartSelect, EntryShape}
use transactron.WideFifo.{
  WideShape, col_count, wide_depth, Index, WideCalls, advance, WideRegisters, level_mod, remaining,
  head_data, count_read, count_written, storage_after, next_read_idx, list_read,
}
use transactron.WideFifo.Lists.{get_or-append, get_or-drop, get_or-take, take_of}
use transactron.WideFifo.Positions.{
  IsIndex, place, around, turn-turn, turn_behind, turn_past, place-lt-depth, place_unique,
  onward-place, onward, advance-place,
}
use transactron.WideFifo.Ports.{
  zeros, cell, port, head-port, length-head, read_width-le, write_width-le,
}
use transactron.WideFifo.Storage.{written, unwritten, port-after}

module _ {ℓ} {A : Type ℓ} (shape : RangeShape) (part : PartSelect) (entry : EntryShape A)
    (p : WideShape) (memory : Memory A p.row_count) where
  abbrev State : Type ℓ
  State = WideRegisters shape part entry p memory

  abbrev none_left : A
  none_left = zeros shape part entry p memory

  -- The registers and memories hold the queue: its elements lie round the circle from the read index
  -- on, and the read ports show the first ones.
  pub record Holds (s : State) (q : List A) : Type ℓ where
    pub read_fits : IsIndex p s.read_idx
    pub write_fits : IsIndex p s.write_idx
    pub counted : s.level ≡ length q
    pub bounded : length q ≤ wide_depth p
    pub behind : place p s.write_idx ≡ around p (place p s.read_idx + length q)
    pub stored :
        (k : ℕ) (idx : Index)
        → k < length q
        → IsIndex p idx
        → place p idx ≡ around p (place p s.read_idx + k)
        → cell shape part entry p memory s.storage idx ≡ get_or q k none_left
    pub shown :
        (k : ℕ)
        → k < length q
        → k < col_count p
        → port shape part entry p memory s.storage (onward p s.read_idx k)
          ≡ cell shape part entry p memory s.storage (onward p s.read_idx k)

  module _ (s : State) (q : List A) (holds : Holds s q) where
    open holds use {read_fits, write_fits, counted, bounded, behind, stored, shown}

    pub remaining_lem : remaining shape part entry p memory s ≡ wide_depth p - length q
    unfolding remaining
    remaining_lem =
        wrap-difference shape (wide_depth p + 1) (wide_depth p) s.level (omega arith) (omega arith)
        ∙ ap (λ n. wide_depth p - n) counted

    -- What `read` and `peek` give is the beginning of the queue.
    pub take-head :
        (n : ℕ)
        → n ≤ p.read_width
        → n ≤ length q
        → take n (head_data shape part entry p memory s) ≡ take n q
    take-head n narrow enough =
        let width = read_width-le p in
        take_of n (head_data shape part entry p memory s) q none_left
          (omega (arith, length-head shape part entry p memory s read_fits)) enough
          (λ k lt.
            let (v, at) = onward-place p s.read_idx k read_fits (omega arith) in
            head-port shape part entry p memory s k read_fits (omega arith)
            ∙ (shown k (omega arith) (omega arith)
                ∙ stored k (onward p s.read_idx k) (omega arith) v at))

    module _ (c : WideCalls A) (long : length c.write_data ≡ p.write_width)
        (fits : c.write_count ≤ p.write_width)
        (room : count_written shape part entry p memory c + length q ≤ wide_depth p) where
      abbrev n : ℕ
      n = count_read shape part entry p memory s c

      abbrev m : ℕ
      m = count_written shape part entry p memory c

      abbrev written_part : List A
      written_part = if c.write then take c.write_count c.write_data else []

      pub read_bound :
          (n ≤ length q) × (n ≤ p.read_width) × (n ≡ list_read shape part entry p memory q c)
      read_bound = ground arith

      length-written : length written_part ≡ m
      length-written = elim (Bool-cases c.write) [
        | inl w ↦ rw w (length-take c.write_count c.write_data (omega arith))
        | inr w ↦ rw w
      ]

      next_read :
          IsIndex p (next_read_idx shape part entry p memory s c)
          × (place p (next_read_idx shape part entry p memory s c)
              ≡ around p (place p s.read_idx + n))
      unfolding next_read_idx
      next_read = elim (Bool-cases c.read) [
        | inl r ↦
            let (_, narrow, _) = read_bound in
            let width = read_width-le p in
            let moved = advance-place p shape s.read_idx n read_fits (omega arith) in
            rw (r, next_read_idx) (rw r at moved)
        | inr r ↦
            let inside = place-lt-depth p s.read_idx read_fits in
            rw (r, next_read_idx) (read_fits, ground arith)
      ]

      abbrev next_write : Index
      next_write = if c.write then advance shape p s.write_idx c.write_count else s.write_idx

      next_write_lem :
          IsIndex p next_write × (place p next_write ≡ around p (place p s.write_idx + m))
      next_write_lem = elim (Bool-cases c.write) [
        | inl w ↦
            let width = write_width-le p in
            rw w (advance-place p shape s.write_idx c.write_count write_fits (omega arith))
        | inr w ↦
            let inside = place-lt-depth p s.write_idx write_fits in rw w (write_fits, ground arith)
      ]

      abbrev storage' : ℕ → memory.Cells
      storage' = storage_after shape part entry p memory s c

      -- An element that stays.
      stays :
          (k : ℕ) (idx : Index)
          → n + k < length q
          → IsIndex p idx
          → place p idx ≡ around p (place p s.read_idx + (n + k))
          → cell shape part entry p memory storage' idx ≡ get_or q (n + k) none_left
      stays k idx lt v at =
          let width = write_width-le p in
          let inside = place-lt-depth p s.read_idx read_fits in
          unwritten shape part entry p memory s c write_fits idx v long fits (λ j w less e.
            let (_, there) = onward-place p s.write_idx j write_fits (omega arith) in
            let all : m ≡ c.write_count = rw w in ground (arith, behind))
          ∙ stored (n + k) idx lt v at

      -- An element that is written.
      arrives :
          (j : ℕ) (idx : Index)
          → j < m
          → IsIndex p idx
          → place p idx ≡ around p (place p s.write_idx + j)
          → cell shape part entry p memory storage' idx ≡ get_or written_part j none_left
      arrives j idx lt v at = elim (Bool-cases c.write) [
        | inr w ↦ absurd (ground arith)
        | inl w ↦
            let width = write_width-le p in
            let less : j < c.write_count = ground arith in
            let (va, there) = onward-place p s.write_idx j write_fits (omega arith) in
            let (row, col) = place_unique p (onward p s.write_idx j) idx va v (there ∙ sym at) in
            written shape part entry p memory s c write_fits idx j v long fits w less row col
            ∙ rw w (sym (get_or-take c.write_count c.write_data j none_left less))
      ]

      -- The registers after a cycle without `clear` hold the queue after it.
      pub after-Holds :
          Holds
            (record {
              read_idx = next_read_idx shape part entry p memory s c;
              write_idx = next_write;
              level =
                  wrap shape
                    (wide_depth p + 1)
                    (s.level + level_mod shape part entry p memory - n + m);
              storage = storage';
            })
            (drop n q ++ written_part)
      after-Holds =
          let (enough, narrow, _) = read_bound in
          let (vr, pr) = next_read in
          let (vw, pw) = next_write_lem in
          let inside = place-lt-depth p s.read_idx read_fits in
          let size : length (drop n q ++ written_part) ≡ length q - n + m =
            omega (arith, length-append (drop n q) written_part, length-drop n q, length-written) in
          let old_size : length (drop n q) ≡ length q - n = length-drop n q in
          let level_eq : s.level + level_mod shape part entry p memory - n + m
              ≡ s.level + m + level_mod shape part entry p memory - n =
            omega (arith, counted) in
          record {
            read_fits = vr;
            write_fits = vw;
            counted =
                ap (wrap shape (wide_depth p + 1)) level_eq
                ∙ (wrap-difference shape (wide_depth p + 1) (s.level + m) n (omega (arith, counted))
                      (omega (arith, counted))
                    ∙ omega (arith, counted, size));
            bounded = omega (arith, size);
            behind =
                pw
                ∙ (ap (λ w. around p (w + m)) behind
                    ∙ (turn_behind (wide_depth p) (place p s.read_idx) (length q) n m inside enough
                          room
                        ∙ ap₂ (λ r l. around p (r + l)) (sym pr) (sym size)));
            stored = λ k idx lt v at. elim (Bool-cases (ltb k (length (drop n q)))) [
              | inl old ↦
                  let less : n + k < length q = omega (arith, old_size, ltb→lt _ _ old) in
                  stays k idx less v (
                    at
                    ∙ (ap (λ r. around p (r + k)) pr
                        ∙ turn-turn (wide_depth p) (place p s.read_idx) n k inside
                            (omega (arith, bounded))))
                  ∙ sym (
                      get_or-append (drop n q) written_part k none_left
                      ∙ rw old (get_or-drop n q k none_left))
              | inr new ↦
                  let past : length (drop n q) ≤ k = ltb→ge _ _ new in
                  arrives (k - length (drop n q)) idx (omega (arith, size, old_size)) v (
                    at
                    ∙ (ap (λ r. around p (r + k)) pr
                        ∙ (turn_past (wide_depth p) (place p s.read_idx) (length q) n m k inside
                              enough room (omega (arith, old_size)) (omega (arith, size))
                            ∙ ap₂ (λ w l. around p (w + (k - l))) (sym behind) (sym old_size))))
                  ∙ sym (get_or-append (drop n q) written_part k none_left ∙ rw new)
            ];
            shown = λ k lt less. port-after shape part entry p memory s c k vr less;
          }
