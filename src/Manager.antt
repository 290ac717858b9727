-- ===== src/Manager.antt =====
-- The data of transactron/core that the manager reads: bodies (body.py), relations
-- (transaction_base.py), and the transactions and methods of a design (manager.py).
-- A body is known by its number. A signal is a number too; the manager only passes signals on.
pub mod MethodMap
pub mod Conflicts
pub mod Elaborate
pub mod Simultaneous
mod Tests
use transactron.Prelude.{
  ℕ, Bool, true, false, not, ◌&&◌, ◌||◌, ◌++◌, List, [], ◌∷◌, ◌==◌, any, length, ltb, ◌+◌,
  if◌then◌else◌, Option, none, some,
}
use transactron.Ctrl.{CtrlPath}

pub data Priority : Type 0 where
  undefined left right : Priority

pub record RelationBase : Type 0 where
  pub end : ℕ
  pub priority : Priority
  pub conflict : Bool
  pub ready_dependent : Bool
  pub silence_warning : Bool

-- One element of `method_calls[method]`: the path, the argument and the enable signal.
pub record Call : Type 0 where
  pub ctrl_path : CtrlPath
  pub arg : ℕ
  pub enable : ℕ

-- `method_calls` is a dictionary from methods, each here by the body that it stands for.
pub record Body : Type 0 where
  pub def_order : ℕ
  pub owner : ℕ
  pub ctrl_path : CtrlPath
  pub method_calls : List (ℕ × List Call)
  pub nonexclusive : Bool
  pub single_caller : Bool
  pub relations : List RelationBase
  pub simultaneous_list : List ℕ
  pub independent_list : List ℕ

-- The bodies of all transactions and methods, and which are which.
pub record Design : Type 0 where
  pub body : ℕ → Body
  pub transactions : List ℕ
  pub methods : List ℕ

-- `TransactionBase`'s declarations; `different` is `self.owner != end.owner`.
abbrev different : Body → Body → Bool
different a b = not (a.owner == b.owner)

unfoldable pub add_conflict : Body → ℕ → Body → Priority → Body
add_conflict self end other priority = record self {
  relations =
      self.relations
      ++ record {
        end = end;
        priority = priority;
        conflict = true;
        ready_dependent = false;
        silence_warning = different self other;
      }
        ∷ [];
}

unfoldable pub schedule_before : Body → ℕ → Body → Bool → Body
schedule_before self end other ready_dependent = record self {
  relations =
      self.relations
      ++ record {
        end = end;
        priority = Priority.left;
        conflict = false;
        ready_dependent = ready_dependent;
        silence_warning = different self other;
      }
        ∷ [];
}

-- `self.simultaneous(*others)`, for bodies by their numbers: each of the others gets `self` too.
abbrev pub add_self : ℕ → List ℕ → ℕ → List ℕ → List ℕ
add_self self [] b sims = sims
add_self self (o ∷ others) b sims =
    add_self self others b (if o == b then sims ++ self ∷ [] else sims)

unfoldable pub simultaneous_with : (ℕ → Body) → ℕ → List ℕ → ℕ → Body
simultaneous_with body self others b =
    let sims = (body b).simultaneous_list in
    record (body b) {
      simultaneous_list = add_self self others b (if b == self then sims ++ others else sims);
    }

-- The others, and `others[0]._independent(*others[1:])`; with no others that is an IndexError.
unfoldable pub simultaneous_alternatives : (ℕ → Body) → ℕ → List ℕ → Option (ℕ → Body)
unfolding simultaneous_with
simultaneous_alternatives body self [] = none
simultaneous_alternatives body self (o ∷ others) = some λ b.
    let after = simultaneous_with body self (o ∷ others) b in
    if b == o then record after { independent_list = after.independent_list ++ others } else after

-- The methods that a body calls under some control structure of its own.
abbrev under_condition : ℕ → List Call → Bool
under_condition depth = any (λ call. ltb (depth + 1) (length call.ctrl_path.path))

abbrev conditional_in : ℕ → List (ℕ × List Call) → List ℕ
conditional_in depth [] = []
conditional_in depth ((m, calls) ∷ rest) = elim (under_condition depth calls) [
  | true ↦ m ∷ conditional_in depth rest
  | false ↦ conditional_in depth rest
]

unfoldable pub conditional_calls : Body → List ℕ
conditional_calls b = conditional_in (length b.ctrl_path.path) b.method_calls
