-- ===== src/Connectors/Buffers.antt =====
-- `Forwarder` and `Pipe` beside queues with room for one element.
use transactron.Prelude.{Bool, true, false, List, [], ◌∷◌, ◌≡◌, refl, sym, inl, inr}
use transactron.Hdl.{Cycle, trace}
use transactron.Hdl.Queue.{read_write, write_read}
use transactron.Hdl.Simulation.{Agree, trace-agree}
use transactron.Connectors.{Registers}
use transactron.Connectors.Forwarder.{forward}
use transactron.Connectors.Pipe.{pipe}

module _ {ℓ} {A : Type ℓ} where
  -- The element in the buffer, if it is valid.
  abbrev contents : A → Bool → List A
  contents a true = a ∷ []
  contents a false = []

  -- The signals of a cycle, one by one.
  abbrev signals : Bool → Bool → A → Bool → Cycle A
  signals read write d clear = record { read = read; write = write; data_in = d; clear = clear }

  abbrev Holds : Registers A → List A → Type ℓ
  Holds r q = contents r.reg r.reg_valid ≡ q

  forward-Agree :
      (a : A) (valid read write : Bool) (d : A) (clear : Bool)
      → Agree Holds
          (forward (record { reg = a; reg_valid = valid }) (signals read write d clear))
          (write_read 1 (contents a valid) (signals read write d clear))
  unfolding forward
  forward-Agree a true read true d clear = inl (refl, refl)
  forward-Agree a true true false d true = inr (_, _, _, refl, refl, refl)
  forward-Agree a true true false d false = inr (_, _, _, refl, refl, refl)
  forward-Agree a true false false d true = inr (_, _, _, refl, refl, refl)
  forward-Agree a true false false d false = inr (_, _, _, refl, refl, refl)
  forward-Agree a false true false d clear = inl (refl, refl)
  forward-Agree a false false false d true = inr (_, _, _, refl, refl, refl)
  forward-Agree a false false false d false = inr (_, _, _, refl, refl, refl)
  forward-Agree a false true true d true = inr (_, _, _, refl, refl, refl)
  forward-Agree a false true true d false = inr (_, _, _, refl, refl, refl)
  forward-Agree a false false true d true = inr (_, _, _, refl, refl, refl)
  forward-Agree a false false true d false = inr (_, _, _, refl, refl, refl)

  pipe-Agree :
      (a : A) (valid read write : Bool) (d : A) (clear : Bool)
      → Agree Holds
          (pipe (record { reg = a; reg_valid = valid }) (signals read write d clear))
          (read_write 1 (contents a valid) (signals read write d clear))
  unfolding pipe
  pipe-Agree a true false true d clear = inl (refl, refl)
  pipe-Agree a true false false d true = inr (_, _, _, refl, refl, refl)
  pipe-Agree a true false false d false = inr (_, _, _, refl, refl, refl)
  pipe-Agree a true true true d true = inr (_, _, _, refl, refl, refl)
  pipe-Agree a true true true d false = inr (_, _, _, refl, refl, refl)
  pipe-Agree a true true false d true = inr (_, _, _, refl, refl, refl)
  pipe-Agree a true true false d false = inr (_, _, _, refl, refl, refl)
  pipe-Agree a false true write d clear = inl (refl, refl)
  pipe-Agree a false false true d true = inr (_, _, _, refl, refl, refl)
  pipe-Agree a false false true d false = inr (_, _, _, refl, refl, refl)
  pipe-Agree a false false false d true = inr (_, _, _, refl, refl, refl)
  pipe-Agree a false false false d false = inr (_, _, _, refl, refl, refl)

  -- A Forwarder is a queue with room for one element that is written before it is read: on every
  -- sequence of cycles the same cycles are possible, and `read` and `peek` give the same elements.
  -- What the buffer holds at the start is `contents`: nothing if it is not valid.
  pub forward-queue :
      (reg : A) (valid : Bool) (cycles : List (Cycle A))
      → trace forward (record { reg = reg; reg_valid = valid }) cycles
        ≡ trace (write_read 1) (contents reg valid) cycles
  forward-queue reg valid cycles =
      trace-agree Holds forward (write_read 1)
        (λ r q c e. rw (sym e) (forward-Agree r.reg r.reg_valid c.read c.write c.data_in c.clear))
        (record { reg = reg; reg_valid = valid }) (contents reg valid) cycles refl

  -- A Pipe is a queue with room for one element that is read before it is written: on every sequence
  -- of cycles the same cycles are possible, and `read` and `peek` give the same elements. What the
  -- buffer holds at the start is `contents`: nothing if it is not valid.
  pub pipe-queue :
      (reg : A) (valid : Bool) (cycles : List (Cycle A))
      → trace pipe (record { reg = reg; reg_valid = valid }) cycles
        ≡ trace (read_write 1) (contents reg valid) cycles
  pipe-queue reg valid cycles =
      trace-agree Holds pipe (read_write 1)
        (λ r q c e. rw (sym e) (pipe-Agree r.reg r.reg_valid c.read c.write c.data_in c.clear))
        (record { reg = reg; reg_valid = valid }) (contents reg valid) cycles refl
