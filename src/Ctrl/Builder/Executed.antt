-- ===== src/Ctrl/Builder/Executed.antt =====
-- A body's path says when its code runs: under which choices of alternatives.
use transactron.Prelude.{
  ℕ, ◌+◌, Bool, true, false, ◌&&◌, Option, none, some, List, [], ◌∷◌, ◌++◌, ◌==◌, if◌then◌else◌,
  arith, ◌≡◌, refl,
}
use mathlib.Core.List.{reverse, reverse-append}
use transactron.Ctrl.{PathEdge}
use transactron.Ctrl.Exclusive.{Choice, inside, Runs}
use transactron.Ctrl.Builder.{CtrlPathBuilder, new, pushed, next_alt}
use transactron.Ctrl.Builder.Programs.{
  Block, done, body, chain, switch, Branches, last, branch, Named, run,
}
use transactron.Ctrl.Builder.Paths.{paths, alternatives, last_alt, run-eq-paths}

abbrev pub takes : Option ℕ → ℕ → Bool
takes none k = false
takes (some a) k = a == k

-- The bodies whose code runs under a choice: of each structure at most the chosen alternative.
-- `n` numbers the structures of a level, and `k` the alternatives of one.
abbrev mutual
  pub executed : Choice → Block → ℕ → List ℕ
  executed c done n = []
  executed c (body l rest) n = l ∷ executed c rest n
  executed c (chain x bs rest) n =
      let inner = executed (inside c (record { alt = 0; par = n })) x 0 in
      (if takes (c [] n) 0 then inner else []) ++ (executed_in c bs n 1 ++ executed c rest (n + 1))
  executed c (switch bs rest) n = executed_in c bs n 1 ++ executed c rest (n + 1)

  pub executed_in : Choice → Branches → ℕ → ℕ → List ℕ
  executed_in c last n k = []
  executed_in c (branch x bs) n k =
      let inner = executed (inside c (record { alt = k; par = n })) x 0 in
      (if takes (c [] n) k then inner else []) ++ executed_in c bs n (k + 1)

-- `Runs` as a test.
abbrev pub runs : Choice → List PathEdge → Bool
runs c [] = true
runs c (e ∷ p) = takes (c [] e.par) e.alt && runs (inside c e) p

pub runs_iff :
    (c : Choice) (p : List PathEdge) → (runs c p ≡ true → Runs c p) × (Runs c p → runs c p ≡ true)
runs_iff c [] = (λ h. tt, λ h. refl)
runs_iff c (e ∷ p) = ground (arith, runs_iff (inside c e) p)

-- The bodies at whose path the code runs.
abbrev pub running : Choice → Named → List ℕ
running c [] = []
running c ((l, p) ∷ rest) =
    let others = running c rest in if runs c p.path then l ∷ others else others

running-append : (c : Choice) (xs ys : Named) → running c (xs ++ ys) ≡ running c xs ++ running c ys
running-append c [] ys = refl
running-append c ((l, p) ∷ xs) ys = ground (arith, running-append c xs ys)

-- The choices below a stack of edges, innermost first.
abbrev below : Choice → List PathEdge → Choice
below c [] = c
below c (e ∷ st) = inside (below c st) e

-- The number of the next structure, from the edge of the one before.
abbrev following : Option PathEdge → ℕ
following none = 0
following (some e) = e.par + 1

pushed_lem : (prev : Option PathEdge) → pushed prev ≡ record { alt = 0; par = following prev }
pushed_lem none = refl
pushed_lem (some e) = refl

last_alt-par : (bs : Branches) (e : PathEdge) → (last_alt bs e).par ≡ e.par
last_alt-par last e = refl
last_alt-par (branch x bs) e = last_alt-par bs (next_alt e)

-- The choices at the end of a path.
abbrev down : Choice → List PathEdge → Choice
down c [] = c
down c (e ∷ p) = down (inside c e) p

runs-append :
    (c : Choice) (p : List PathEdge) (e : PathEdge)
    → runs c (p ++ e ∷ []) ≡ (runs c p && takes (down c p [] e.par) e.alt)
runs-append c [] e = ground arith
runs-append c (a ∷ p) e = ground (arith, runs-append (inside c a) p e)

down-append :
    (c : Choice) (p : List PathEdge) (e : PathEdge) → down c (p ++ e ∷ []) ≡ inside (down c p) e
down-append c [] e = refl
down-append c (a ∷ p) e = down-append (inside c a) p e

reverse_cons : (e : PathEdge) (st : List PathEdge) → reverse (e ∷ st) ≡ reverse st ++ e ∷ []
reverse_cons e st = reverse-append (e ∷ []) st

down-reverse : (c : Choice) (st : List PathEdge) → down c (reverse st) ≡ below c st
down-reverse c [] = refl
down-reverse c (e ∷ st) = rw (reverse_cons e st, down-append c (reverse st) e, down-reverse c st)

module _ (uid : ℕ) (c : Choice) where
  abbrev live : List PathEdge → Bool
  live st = runs c (reverse st)

  live_cons :
      (e : PathEdge) (st : List PathEdge)
      → live (e ∷ st) ≡ (live st && takes (below c st [] e.par) e.alt)
  live_cons e st = rw (reverse_cons e st, runs-append c (reverse st) e, down-reverse c st)

  mutual
    running_block :
        (x : Block) (st : List PathEdge) (prev : Option PathEdge)
        → running c (paths uid x st prev)
          ≡ (let on = executed (below c st) x (following prev) in if live st then on else [])
    running_block done st prev = ground arith
    running_block (body l rest) st prev = ground (arith, running_block rest st prev)
    running_block (chain x bs rest) st prev =
        let e = pushed prev in
        rw
          (
            running-append c (paths uid x (e ∷ st) none),
            running-append c (alternatives uid bs st e),
            running_block x (e ∷ st) none,
            running-alternatives bs st e,
            running_block rest st (some (last_alt bs e)),
            last_alt-par bs e,
            live_cons e st,
            pushed_lem prev,
          )
          (ground arith)
    running_block (switch bs rest) st prev =
        let e = pushed prev in
        rw
          (
            running-append c (alternatives uid bs st e),
            running-alternatives bs st e,
            running_block rest st (some (last_alt bs e)),
            last_alt-par bs e,
            pushed_lem prev,
          )
          (ground arith)

    running-alternatives :
        (bs : Branches) (st : List PathEdge) (e : PathEdge)
        → running c (alternatives uid bs st e)
          ≡ (let on = executed_in (below c st) bs e.par (e.alt + 1) in if live st then on else [])
    running-alternatives last st e = ground arith
    running-alternatives (branch x bs) st e =
        rw
          (
            running-append c (paths uid x (next_alt e ∷ st) none),
            running_block x (next_alt e ∷ st) none,
            running-alternatives bs st (next_alt e),
            live_cons (next_alt e) st,
          )
          (ground arith)

-- The builder records every body of a program under a path that tells when its code runs: under
-- each choice of alternatives the bodies at whose path the code runs are, in order, those that the
-- program executes. The run of the builder does not fail.
pub run-executed :
    (x : Block) (uid : ℕ)
    → (out : Named) × (b : CtrlPathBuilder) × (run x (new uid) ≡ some (out, b))
      × ((c : Choice) → running c out ≡ executed c x 0)
run-executed x uid =
    let (b, e, empty) = run-eq-paths uid x in
    (paths uid x [] none, b, e, λ c. running_block uid c x [] none)
