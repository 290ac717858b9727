-- ===== src/Hdl/Queue.antt =====
-- The queues and stacks that components are compared with: lists, with their methods called one
-- after the other. A method that is not ready is `none`.
use transactron.Prelude.{
  ℕ, Bool, true, false, Option, none, some, List, [], ◌∷◌, ◌++◌, length, ltb, if◌then◌else◌,
}
use transactron.Hdl.{Cycle}

module _ {ℓ} {A : Type ℓ} where
  -- The first element: what `peek` gives.
  abbrev pub head : List A → Option A
  head [] = none
  head (x ∷ q) = some x

  abbrev pub pop : Bool → List A → Option (List A)
  pop false q = some q
  pop true [] = none
  pop true (x ∷ q) = some q

  -- To the back of a queue with room for `depth` elements.
  abbrev pub enqueue : ℕ → Bool → A → List A → Option (List A)
  enqueue depth false a q = some q
  enqueue depth true a q = if ltb (length q) depth then some (q ++ a ∷ []) else none

  abbrev pub cleared : Bool → List A → List A
  cleared true q = []
  cleared false q = q

  -- A cycle of a queue that is read before it is written.
  abbrev pub read_write : ℕ → List A → Cycle A → Option (Option A × List A)
  read_write depth q c = elim (pop c.read q) [
    | none ↦ none
    | some q1 ↦ elim (enqueue depth c.write c.data_in q1) [
      | none ↦ none
      | some q2 ↦ some (head q, cleared c.clear q2)
    ]
  ]

  -- A cycle of a queue that is written before it is read: what is written can be read at once.
  abbrev pub write_read : ℕ → List A → Cycle A → Option (Option A × List A)
  write_read depth q c = elim (enqueue depth c.write c.data_in q) [
    | none ↦ none
    | some q1 ↦ elim (pop c.read q1) [ none ↦ none | some q2 ↦ some (head q1, cleared c.clear q2) ]
  ]

  -- On top of a stack, with room for `depth` elements at the start of the cycle, when it was `q`.
  abbrev pub push : ℕ → List A → Bool → A → List A → Option (List A)
  push depth q false a q1 = some q1
  push depth q true a q1 = if ltb (length q) depth then some (a ∷ q1) else none

  -- A cycle of a stack, as if `read` and `write` were called in sequence.
  abbrev pub pop_push : ℕ → List A → Cycle A → Option (Option A × List A)
  pop_push depth q c = elim (pop c.read q) [
    | none ↦ none
    | some q1 ↦ elim (push depth q c.write c.data_in q1) [
      | none ↦ none
      | some q2 ↦ some (head q, cleared c.clear q2)
    ]
  ]

  -- To the back of a queue with room for `depth` elements at the start of the cycle, when it was `q`.
  abbrev pub append : ℕ → List A → Bool → A → List A → Option (List A)
  append depth q false a q1 = some q1
  append depth q true a q1 = if ltb (length q) depth then some (q1 ++ a ∷ []) else none

  -- A cycle of a queue in which each method is ready by the state at the start of the cycle.
  abbrev pub pop_append : ℕ → List A → Cycle A → Option (Option A × List A)
  pop_append depth q c = elim (pop c.read q) [
    | none ↦ none
    | some q1 ↦ elim (append depth q c.write c.data_in q1) [
      | none ↦ none
      | some q2 ↦ some (head q, cleared c.clear q2)
    ]
  ]
