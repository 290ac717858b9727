-- ===== src/Ctrl/Builder.antt =====
-- `CtrlPathBuilder` of transactron/core/tmodule.py, and the programs of control structures that
-- `TModule` drives it with. A failed assertion or index is `none`.
pub mod Programs
pub mod Paths
pub mod Executed
use transactron.Prelude.{ℕ, ◌+◌, Option, none, some, List, [], ◌∷◌}
use mathlib.Core.Option
use mathlib.Core.List.{reverse}
use transactron.Ctrl.{PathEdge, CtrlPath}

pub data EnterType : Type 0 where
  push add entry : EnterType

-- `ctrl_path` has the innermost edge first: Python's `append` and `pop` work on its head.
pub record CtrlPathBuilder : Type 0 where
  pub module_uid : ℕ
  pub ctrl_path : List PathEdge
  pub previous : Option PathEdge

unfoldable pub new : ℕ → CtrlPathBuilder
new uid = record { module_uid = uid; ctrl_path = []; previous = none }

abbrev pub next_alt : PathEdge → PathEdge
next_alt e = record e { alt = e.alt + 1 }

-- The edge that a `push` enters: parallel to the structure before it, if there is one.
abbrev pub pushed : Option PathEdge → PathEdge
pushed none = record { alt = 0; par = 0 }
pushed (some e) = record { alt = 0; par = e.par + 1 }

abbrev added : Option PathEdge → List PathEdge → Option (List PathEdge)
added none stack = none
added (some e) stack = some (next_alt e ∷ stack)

abbrev entered : List PathEdge → Option (List PathEdge)
entered [] = none
entered (e ∷ stack) = some (next_alt e ∷ stack)

abbrev path_on_entry : EnterType → CtrlPathBuilder → Option (List PathEdge)
path_on_entry add b = added b.previous b.ctrl_path
path_on_entry entry b = entered b.ctrl_path
path_on_entry push b = some (pushed b.previous ∷ b.ctrl_path)

-- `enter` up to its `yield`.
unfoldable pub enter : EnterType → CtrlPathBuilder → Option CtrlPathBuilder
enter t b =
    Option.map (λ stack. record b { ctrl_path = stack; previous = none }) (path_on_entry t b)

abbrev popped : CtrlPathBuilder → List PathEdge → Option CtrlPathBuilder
popped b [] = none
popped b (e ∷ stack) = some (record b { ctrl_path = stack; previous = some e })

-- `enter` after its `yield`.
unfoldable pub leave : EnterType → CtrlPathBuilder → Option CtrlPathBuilder
leave push b = popped b b.ctrl_path
leave add b = popped b b.ctrl_path
leave entry b = some b

unfoldable pub build_ctrl_path : CtrlPathBuilder → CtrlPath
build_ctrl_path b = record { module_uid = b.module_uid; path = reverse b.ctrl_path }
