-- ===== src/Ctrl.antt =====
-- Control paths, transactron/core/tmodule.py: `PathEdge`, `CtrlPath` and its tests, and
-- `call_paths_exclusive` and `longest_common_prefix`, which the manager applies to call paths.
pub mod Exclusive
pub mod Calls
pub mod Builder
mod Tests
use transactron.Prelude.{
  ℕ, zero, suc, Bool, true, false, not, ◌&&◌, Option, none, some, List, [], ◌∷◌, ◌==◌, leb,
  if◌then◌else◌, length,
}
use mathlib.Core.Option

pub record PathEdge : Type 0 where
  pub alt : ℕ
  pub par : ℕ

-- The dataclass's `__eq__`.
abbrev pub edge_eq : PathEdge → PathEdge → Bool
edge_eq a b = a.alt == b.alt && a.par == b.par

abbrev pub path_eq : List PathEdge → List PathEdge → Bool
path_eq [] [] = true
path_eq [] (b ∷ q) = false
path_eq (a ∷ p) [] = false
path_eq (a ∷ p) (b ∷ q) = edge_eq a b && path_eq p q

-- `module` is a reserved word here.
pub record CtrlPath : Type 0 where
  pub module_uid : ℕ
  pub path : List PathEdge

abbrev pub ctrl_path_eq : CtrlPath → CtrlPath → Bool
ctrl_path_eq p q = p.module_uid == q.module_uid && path_eq p.path q.path

-- `other.path[:n]`
abbrev pub slice_to : ℕ → List PathEdge → List PathEdge
slice_to zero p = []
slice_to (suc n) [] = []
slice_to (suc n) (e ∷ p) = e ∷ slice_to n p

pub is_prefix : CtrlPath → CtrlPath → Bool
is_prefix p q =
    p.module_uid == q.module_uid
    && (leb (length p.path) (length q.path) && path_eq (slice_to (length p.path) q.path) p.path)

pub is_proper_prefix : CtrlPath → CtrlPath → Bool
unfolding is_prefix
is_proper_prefix p q = is_prefix p q && not (ctrl_path_eq p q)

-- The loop of `exclusive_with` over the zipped paths: `none` is its `return False`, and else the
-- result is `common_prefix` when the loop ends or breaks.
pub common_prefix : List PathEdge → List PathEdge → Option (List PathEdge)
common_prefix [] q = some []
common_prefix (a ∷ p) [] = some []
common_prefix (a ∷ p) (b ∷ q) =
    let rest = common_prefix p q in
    if edge_eq a b
    then Option.map (λ c. a ∷ c) rest
    else (if not (a.par == b.par) then none else some [])

unfoldable pub exclusive_with : CtrlPath → CtrlPath → Bool
unfolding common_prefix
exclusive_with p q = elim (common_prefix p.path q.path) [
  | none ↦ false
  | some c ↦
      p.module_uid == q.module_uid
      && (not (length c == length p.path) && not (length c == length q.path))
]

-- `longest_common_prefix` of two call paths.
pub longest_common_prefix : List CtrlPath → List CtrlPath → List CtrlPath
longest_common_prefix [] q = []
longest_common_prefix (a ∷ p) [] = []
longest_common_prefix (a ∷ p) (b ∷ q) =
    let rest = longest_common_prefix p q in if ctrl_path_eq a b then a ∷ rest else []

-- `path[i]`, read only in range.
abbrev pub get_path : List CtrlPath → ℕ → Option CtrlPath
get_path [] i = none
get_path (a ∷ p) zero = some a
get_path (a ∷ p) (suc i) = get_path p i

abbrev pub exclusive_at : Option CtrlPath → Option CtrlPath → Bool
exclusive_at none q = false
exclusive_at (some a) none = false
exclusive_at (some a) (some b) = exclusive_with a b

-- The test of `call_paths_exclusive`, at the length of the common prefix.
abbrev pub exclusive_from : ℕ → List CtrlPath → List CtrlPath → Bool
exclusive_from n p q =
    if n == length p
    then false
    else (if n == length q then false else exclusive_at (get_path p n) (get_path q n))

-- Of manager.py: are two calls, each under its chain of calling bodies' paths, exclusive?
unfoldable pub call_paths_exclusive : List CtrlPath → List CtrlPath → Bool
unfolding longest_common_prefix
call_paths_exclusive p q = exclusive_from (length (longest_common_prefix p q)) p q
