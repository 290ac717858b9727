-- ===== src/Ctrl/Builder/Programs.antt =====
-- The programs of control structures that `TModule` runs its path builder through (`If`, `Elif`,
-- `Else`, `AvoidedIf`, `Switch`, `Case`, `Default`, `FSM`, `State`), and the paths that it gives.
use transactron.Prelude.{ℕ, Option, none, some, List, [], ◌∷◌, ◌++◌}
use transactron.Ctrl.{CtrlPath}
use transactron.Ctrl.Builder.{EnterType, CtrlPathBuilder, enter, leave, build_ctrl_path}

mutual
  -- `body` asks for the current path, as the body of a transaction or a method does, and `chain`
  -- is an `If` with its `Elif`s and `Else`; `switch` is a `Switch` or an `FSM` with its cases.
  pub data Block : Type 0 where
    done : Block
    body : ℕ → Block → Block
    chain : Block → Branches → Block → Block
    switch : Branches → Block → Block

  pub data Branches : Type 0 where
    last : Branches
    branch : Block → Branches → Branches

abbrev pub Named : Type 0
Named = List (ℕ × CtrlPath)

abbrev pub Run : Type 0
Run = Option (Named × CtrlPathBuilder)

abbrev pub bind : Run → (CtrlPathBuilder → Run) → Run
bind none f = none
bind (some (out, b)) f = elim (f b) [ none ↦ none | some (more, b') ↦ some (out ++ more, b') ]

abbrev pub quietly : Option CtrlPathBuilder → Run
quietly none = none
quietly (some b) = some ([], b)

abbrev pub within : EnterType → (CtrlPathBuilder → Run) → CtrlPathBuilder → Run
within t f b = bind (quietly (enter t b)) (λ b1. bind (f b1) (λ b2. quietly (leave t b2)))

unfoldable mutual
  unfolding enter leave build_ctrl_path

  pub run : Block → CtrlPathBuilder → Run
  run done b = some ([], b)
  run (body l rest) b = bind (some ((l, build_ctrl_path b) ∷ [], b)) (run rest)
  run (chain x bs rest) b =
      bind (within EnterType.push (run x) b)
        (λ b1. bind (run_branches EnterType.add bs b1) (run rest))
  run (switch bs rest) b =
      bind (within EnterType.push (run_branches EnterType.entry bs) b) (run rest)

  pub run_branches : EnterType → Branches → CtrlPathBuilder → Run
  run_branches t last b = some ([], b)
  run_branches t (branch x bs) b = bind (within t (run x) b) (run_branches t bs)
