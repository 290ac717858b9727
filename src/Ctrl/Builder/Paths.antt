-- ===== src/Ctrl/Builder/Paths.antt =====
-- The paths that `CtrlPathBuilder` gives to the bodies of a program, by recursion on the program,
-- and the builder's agreement with them.
use transactron.Prelude.{ℕ, Option, none, some, List, [], ◌∷◌, ◌++◌, append-nil, ◌≡◌, refl}
use mathlib.Core.List.{reverse}
use transactron.Ctrl.{PathEdge}
use transactron.Ctrl.Builder.{
  EnterType, CtrlPathBuilder, new, enter, leave, build_ctrl_path, pushed, next_alt,
}
use transactron.Ctrl.Builder.Programs.{
  Block, done, body, chain, switch, Branches, last, branch, Named, Run, bind, within, run,
  run_branches,
}

-- The edge of the last alternative, from the edge before them.
abbrev pub last_alt : Branches → PathEdge → PathEdge
last_alt last e = e
last_alt (branch x bs) e = last_alt bs (next_alt e)

-- What `previous` is after a block.
abbrev after : Block → Option PathEdge → Option PathEdge
after done prev = prev
after (body l rest) prev = after rest prev
after (chain x bs rest) prev = after rest (some (last_alt bs (pushed prev)))
after (switch bs rest) prev = after rest (some (last_alt bs (pushed prev)))

abbrev after_cases : Branches → Option PathEdge → Option PathEdge
after_cases last prev = prev
after_cases (branch x bs) prev = after_cases bs (after x none)

bind_eq :
    {m : Run} (f : CtrlPathBuilder → Run) {o o' : Named} {b b' : CtrlPathBuilder}
    → m ≡ some (o, b)
    → f b ≡ some (o', b')
    → bind m f ≡ some (o ++ o', b')
bind_eq f p q = rw (p, bind, q) refl

within_eq :
    (t : EnterType) (f : CtrlPathBuilder → Run) {o : Named} (b : CtrlPathBuilder)
    {b1 b2 b3 : CtrlPathBuilder}
    → enter t b ≡ some b1
    → f b1 ≡ some (o, b2)
    → leave t b2 ≡ some b3
    → within t f b ≡ some (o, b3)
within_eq t f b p q r = rw (p, bind, q, r, append-nil)

module _ (uid : ℕ) where
  abbrev mutual
    -- The structures at one level are numbered from 0 by `par`. The branches of an `If` are its
    -- alternatives from 0, and the cases of a `Switch` are its alternatives from 1.
    pub paths : Block → List PathEdge → Option PathEdge → Named
    paths done st prev = []
    paths (body l rest) st prev =
        (l, record { module_uid = uid; path = reverse st }) ∷ paths rest st prev
    paths (chain x bs rest) st prev =
        paths x (pushed prev ∷ st) none
        ++ (alternatives bs st (pushed prev) ++ paths rest st (some (last_alt bs (pushed prev))))
    paths (switch bs rest) st prev =
        alternatives bs st (pushed prev) ++ paths rest st (some (last_alt bs (pushed prev)))

    pub alternatives : Branches → List PathEdge → PathEdge → Named
    alternatives last st e = []
    alternatives (branch x bs) st e =
        paths x (next_alt e ∷ st) none ++ alternatives bs st (next_alt e)

  abbrev state : List PathEdge → Option PathEdge → CtrlPathBuilder
  state st prev = record { module_uid = uid; ctrl_path = st; previous = prev }

  mutual
    unfolding run enter leave build_ctrl_path

    run_paths :
        (x : Block) (st : List PathEdge) (prev : Option PathEdge)
        → run x (state st prev) ≡ some (paths x st prev, state st (after x prev))
    run_paths done st prev = refl
    run_paths (body l rest) st prev =
        bind_eq (run rest) {o = (l, build_ctrl_path (state st prev)) ∷ []} refl
          (run_paths rest st prev)
    run_paths (chain x bs rest) st prev =
        let e = pushed prev in
        bind_eq (λ b1. bind (run_branches EnterType.add bs b1) (run rest))
          (within_eq EnterType.push (run x) (state st prev) refl (run_paths x (e ∷ st) none) refl)
          (bind_eq (run rest) (run_added bs st e) (run_paths rest st (some (last_alt bs e))))
    run_paths (switch bs rest) st prev =
        let e = pushed prev in
        bind_eq (run rest)
          (within_eq EnterType.push (run_branches EnterType.entry bs) (state st prev) refl
            (run_entered bs st e none) refl)
          (run_paths rest st (some (last_alt bs e)))

    run_added :
        (bs : Branches) (st : List PathEdge) (e : PathEdge)
        → run_branches EnterType.add bs (state st (some e))
          ≡ some (alternatives bs st e, state st (some (last_alt bs e)))
    run_added last st e = refl
    run_added (branch x bs) st e =
        bind_eq (run_branches EnterType.add bs)
          (within_eq EnterType.add (run x) (state st (some e)) refl
            (run_paths x (next_alt e ∷ st) none) refl)
          (run_added bs st (next_alt e))

    run_entered :
        (bs : Branches) (st : List PathEdge) (e : PathEdge) (prev : Option PathEdge)
        → run_branches EnterType.entry bs (state (e ∷ st) prev)
          ≡ some (alternatives bs st e, state (last_alt bs e ∷ st) (after_cases bs prev))
    run_entered last st e prev = refl
    run_entered (branch x bs) st e prev =
        bind_eq (run_branches EnterType.entry bs)
          (within_eq EnterType.entry (run x) (state (e ∷ st) prev) refl
            (run_paths x (next_alt e ∷ st) none) refl)
          (run_entered bs st (next_alt e) (after x none))

  -- On a fresh builder every program runs without a failed assertion or index, leaves the path
  -- empty again, and gives its bodies the paths of `paths`.
  pub run-eq-paths :
      (x : Block)
      → (b : CtrlPathBuilder) × (run x (new uid) ≡ some (paths x [] none, b)) × (b.ctrl_path ≡ [])
  unfolding new
  run-eq-paths x = (state [] (after x none), run_paths x [] none, refl)
