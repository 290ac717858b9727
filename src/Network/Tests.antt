-- ===== src/Network/Tests.antt =====
-- Five inputs, of which the second, the fourth and the fifth are valid.
use transactron.Prelude.{ℕ, Bool, true, false, some, List, [], ◌∷◌, length, ◌≡◌, refl, arith}
use transactron.Hdl.Instances.{unary, zero_past}
use transactron.Network.{network}
use transactron.Network.Stable.{kept, StartsWith, network-StartsWith}

abbrev inputs : List ℕ
inputs = 7 ∷ 8 ∷ 9 ∷ 10 ∷ 11 ∷ []

abbrev valids : List Bool
valids = false ∷ true ∷ false ∷ true ∷ true ∷ []

network-StartsWith_example :
    (outputs : List ℕ) × (network unary zero_past inputs valids
      ≡ some (outputs, length (kept inputs valids)))
    × StartsWith outputs (kept inputs valids)
network-StartsWith_example = network-StartsWith unary zero_past inputs valids (omega arith) refl
