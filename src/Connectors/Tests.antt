-- ===== src/Connectors/Tests.antt =====
-- Runs of a Forwarder and a Pipe, empty at the start.
use transactron.Prelude.{ℕ, true, false, none, some, List, [], ◌∷◌, ◌≡◌, refl}
use transactron.Hdl.{Cycle, trace}
use transactron.Hdl.Queue.{read_write, write_read}
use transactron.Connectors.{Registers}
use transactron.Connectors.Forwarder.{forward}
use transactron.Connectors.Pipe.{pipe}
use transactron.Connectors.Buffers.{forward-queue, pipe-queue}

abbrev empty : Registers ℕ
empty = record { reg = 0; reg_valid = false }

abbrev writes : ℕ → Cycle ℕ
writes d = record { read = false; write = true; data_in = d; clear = false }

abbrev reads : Cycle ℕ
reads = record { read = true; write = false; data_in = 0; clear = false }

abbrev both : ℕ → Cycle ℕ
both d = record { read = true; write = true; data_in = d; clear = false }

-- 7 is forwarded, 8 is stored and read later.
abbrev forwarding : List (Cycle ℕ)
forwarding = both 7 ∷ writes 8 ∷ reads ∷ []

forwarding_results : trace forward empty forwarding ≡ some (some 7 ∷ some 8 ∷ some 8 ∷ [])
unfolding trace forward
forwarding_results = refl

forward-queue_example : trace forward empty forwarding ≡ trace (write_read 1) [] forwarding
forward-queue_example = forward-queue 0 false forwarding

-- 7 is read in the cycle in which 8 replaces it.
abbrev piping : List (Cycle ℕ)
piping = writes 7 ∷ both 8 ∷ reads ∷ []

piping_results : trace pipe empty piping ≡ some (none ∷ some 7 ∷ some 8 ∷ [])
unfolding trace pipe
piping_results = refl

pipe-queue_example : trace pipe empty piping ≡ trace (read_write 1) [] piping
pipe-queue_example = pipe-queue 0 false piping
