-- ===== src/Fifo/Window.antt =====
-- A window of a memory's rows, modulo the depth, and a write behind it.
use transactron.Prelude.{
  ℕ, ◌+◌, ◌%◌, ◌≤◌, ◌<◌, Bool, true, false, ◌&&◌, ◌==◌, List, [], ◌∷◌, ◌++◌, length, ◌≡◌, ◌≢◌, refl,
  ap, ◌∙◌, arith,
}
use native.Mathlib.Nat.{mod-lt, mod-add-mod}
use transactron.Hdl.Memory.{Memory}
use transactron.Allocator.Correct.{window_distinct}

module _ {ℓ} {A : Type ℓ} (depth : ℕ) (memory : Memory A depth) where
  -- The elements `q` from the `k`-th row on, of those from row `s` on.
  abbrev pub Window : memory.Cells → ℕ → ℕ → List A → Type ℓ
  Window m s k [] = Unit
  Window m s k (x ∷ q) = (memory.row m ((s + k) % depth) ≡ x) × Window m s (k + 1) q

  -- Without a write.
  pub tick-Window :
      (m : memory.Cells) (d : A) (w r s k : ℕ) (q : List A)
      → 0 < depth
      → Window m s k q
      → Window (memory.tick m false w d r) s k q
  tick-Window m d w r s k [] pos win = tt
  tick-Window m d w r s k (x ∷ q) pos (row, win) = (
    memory.row-tick m false w d r ((s + k) % depth) (mod-lt (s + k) pos) ∙ row,
    tick-Window m d w r s (k + 1) q pos win,
  )

  -- A window that starts one row later.
  pub later_start :
      (m : memory.Cells) (s k : ℕ) (q : List A)
      → Window m s (k + 1) q
      → Window m ((s + 1) % depth) k q
  later_start m s k [] w = tt
  later_start m s k (x ∷ q) (row, w) = (
    ap (memory.row m) (mod-add-mod (s + 1) depth k ∙ ap (λ x. x % depth) (omega arith)) ∙ row,
    later_start m s (k + 1) q w,
  )

  module _ (m : memory.Cells) (en : Bool) (d : A) (r s n : ℕ) (below : s < depth)
      (room : n < depth) where
    abbrev written : memory.Cells
    written = memory.tick m en ((s + n) % depth) d r

    -- A write behind the window.
    pub tick-Window_below :
        (k : ℕ) (q : List A) → k + length q ≤ n → Window m s k q → Window written s k q
    tick-Window_below k [] h w = tt
    tick-Window_below k (x ∷ q) h (row, w) =
        let other : (s + k) % depth ≢ (s + n) % depth =
          window_distinct depth s k n below (omega arith) room in
        let differs : ((s + n) % depth == (s + k) % depth) ≡ false = ground arith in
        let off : (en && (s + n) % depth == (s + k) % depth) ≡ false = ground arith in
        (
          rw
              (
                memory.row-tick m en ((s + n) % depth) d r ((s + k) % depth)
                    (mod-lt (s + k) (omega arith)),
                off,
              )
              row,
          tick-Window_below (k + 1) q (omega arith) w,
        )

  module _ (m : memory.Cells) (d : A) (r s n : ℕ) (below : s < depth) (room : n < depth) where
    -- The write appends its element.
    pub tick-Window_append :
        (k : ℕ) (q : List A)
        → k + length q ≡ n
        → Window m s k q
        → Window (memory.tick m true ((s + n) % depth) d r) s k (q ++ d ∷ [])
    tick-Window_append k [] h w =
        let here : k ≡ n = omega arith in
        let same : (true && (s + n) % depth == (s + k) % depth) ≡ true = ground arith in
        (
          rw
              (
                memory.row-tick m true ((s + n) % depth) d r ((s + k) % depth)
                    (mod-lt (s + k) (omega arith)),
                same,
              )
              refl,
          tt,
        )
    tick-Window_append k (x ∷ q) h (row, w) = (
      (tick-Window_below m true d r s n below room k (x ∷ []) (omega arith) (row, tt)).0,
      tick-Window_append (k + 1) q (omega arith) w,
    )
