-- ===== src/Network/Stable.antt =====
-- The network gives the valid inputs first, in their order.
use Prim.Native.Nat.{max}
use transactron.Prelude.{
  ℕ, zero, suc, ◌+◌, ◌-◌, ◌^◌, ◌≤◌, ◌<◌, Bool, true, false, some, List, [], ◌∷◌, ◌++◌, append_assoc,
  append-nil, leb, ltb, ltb→lt, bit, length, length-append, get_or, if◌then◌else◌, ◌≡◌, refl, sym,
  ap, subst, ◌∙◌, arith, inl, inr, Bool-cases,
}
use native.Mathlib.Nat.{mod-eq_of_lt}
use transactron.Hdl.Widths.{RangeShape, wrap, wrap_small}
use transactron.Hdl.Arrays.{ArrayRead, tabulate, length-tabulate, get_or-append, get_or-tabulate}
use transactron.Reduce.{layer, layers}
use transactron.Reduce.Folded.{length-layer}
use transactron.Network.{Group, start_level, merged_low, merged_high, merge, network}

-- The inputs whose valid bit is set.
abbrev pub kept : List ℕ → List Bool → List ℕ
kept [] valids = []
kept (x ∷ inputs) [] = []
kept (x ∷ inputs) (v ∷ valids) = if v then x ∷ kept inputs valids else kept inputs valids

-- A group has the values first.
abbrev pub StartsWith : List ℕ → List ℕ → Type 0
StartsWith slots vs =
    (length vs ≤ length slots) × ((i : ℕ) → i < length vs → get_or slots i 0 ≡ get_or vs i 0)

abbrev Holds : Group → List ℕ → Type 0
Holds g vs = (g.cnt ≡ length vs) × ((g.cnt < 2 ^ g.bits) × StartsWith g.slots vs)

power-le : (a b : ℕ) → a ≤ b → 2 ^ a ≤ 2 ^ b
power-le a zero h =
    let same : a ≡ 0 = omega arith in subst (λ n. 2 ^ n ≤ 2 ^ 0) (sym same) (omega arith)
power-le zero (suc b) h = omega (arith, power-le zero b)
power-le (suc a) (suc b) h = omega (arith, power-le a b)

double-power : (n : ℕ) → 2 ^ (n + 1) ≡ 2 ^ n + 2 ^ n
double-power n = let next : n + 1 ≡ suc n = omega arith in ap (λ k. 2 ^ k) next ∙ omega arith

module _ (array : ArrayRead) where
  -- Past the values of the first group come those of the second.
  second :
      (a b : Group) (vs ws : List ℕ) (i : ℕ)
      → Holds a vs
      → Holds b ws
      → length vs ≤ i
      → i < length (vs ++ ws)
      → array.at b.slots (i - a.cnt) ≡ get_or (vs ++ ws) i 0
  second a b vs ws i (ca, ra) (cb, (wb, (lb, gb))) h lt =
      let total : length (vs ++ ws) ≡ length vs + length ws = length-append vs ws in
      let within : i - a.cnt < length ws = omega (arith, ca, total) in
      let past : ltb i (length vs) ≡ false = ground arith in
      let there : get_or (vs ++ ws) i 0 ≡ get_or ws (i - length vs) 0 =
        get_or-append vs ws i ∙ rw past refl in
      array.inside b.slots (i - a.cnt) (omega (arith, within))
      ∙ gb (i - a.cnt) within
      ∙ ap (λ n. get_or ws (i - n) 0) ca
      ∙ sym there

  merge-StartsWith :
      (a b : Group) (vs ws : List ℕ)
      → Holds a vs
      → Holds b ws
      → StartsWith (merge array a b).slots (vs ++ ws)
  merge-StartsWith a b vs ws ha hb =
      let (ca, (wa, (la, ga))) = ha in
      let (cb, (wb, (lb, gb))) = hb in
      let low = tabulate (length a.slots) (merged_low array a b) in
      let high = tabulate (length b.slots) (merged_high array a b) in
      let low_length : length low ≡ length a.slots =
        length-tabulate (length a.slots) (merged_low array a b) in
      let high_length : length high ≡ length b.slots =
        length-tabulate (length b.slots) (merged_high array a b) in
      let total : length (vs ++ ws) ≡ length vs + length ws = length-append vs ws in
      (
        omega (arith, total, length-append low high, low_length, high_length),
        λ i h. get_or-append low high i ∙ elim (Bool-cases (ltb i (length low))) [
          | inl front ↦
              let lt : i < length a.slots = ground (arith, low_length) in
              rw (front, get_or-tabulate (length a.slots) i (merged_low array a b) lt)
                (elim (Bool-cases (ltb i (length vs))) [
                  | inl first ↦
                      let early : leb a.cnt i ≡ false = ground (arith, ca) in
                      let there : get_or (vs ++ ws) i 0 ≡ get_or vs i 0 =
                        get_or-append vs ws i ∙ rw first refl in
                      rw early (ga i (ltb→lt i (length vs) first) ∙ sym there)
                  | inr rest ↦
                      let late : leb a.cnt i ≡ true = ground (arith, ca) in
                      rw late (second a b vs ws i ha hb (ground arith) h)
                ])
          | inr back ↦
              let k : ℕ = i - length low in
              let far : length a.slots ≤ i = ground (arith, low_length) in
              let index : length a.slots + k - a.cnt ≡ i - a.cnt = omega (arith, low_length) in
              let lt : k < length b.slots = omega (arith, low_length, total) in
              let within : leb (length b.slots) (i - a.cnt) ≡ false = ground (arith, total) in
              let at_k : get_or high k 0 ≡ array.at b.slots (i - a.cnt) =
                get_or-tabulate (length b.slots) k (merged_high array a b) lt
                ∙ ap (λ n. if leb (length b.slots) n then 0 else array.at b.slots n) index
                ∙ rw within refl in
              rw back (at_k ∙ second a b vs ws i ha hb (omega arith) h)
        ],
      )

  merge-Holds :
      (a b : Group) (vs ws : List ℕ) → Holds a vs → Holds b ws → Holds (merge array a b) (vs ++ ws)
  merge-Holds a b vs ws ha hb =
      let left = power-le a.bits (max a.bits b.bits) (omega arith) in
      let right = power-le b.bits (max a.bits b.bits) (omega arith) in
      let fits : a.cnt + b.cnt < 2 ^ (max a.bits b.bits + 1) =
        omega (arith, ha.1.0, hb.1.0, left, right, double-power (max a.bits b.bits)) in
      let count = mod-eq_of_lt fits in
      (
        count ∙ omega (arith, ha.0, hb.0, length-append vs ws),
        (omega (arith, count, fits), merge-StartsWith a b vs ws ha hb),
      )

  -- Groups that hold the parts of a list.
  AllHold : List Group → List (List ℕ) → Type 0
  AllHold [] [] = Unit
  AllHold [] (vs ∷ vss) = ⊥
  AllHold (g ∷ gs) [] = ⊥
  AllHold (g ∷ gs) (vs ∷ vss) = Holds g vs × AllHold gs vss

  joined : List (List ℕ) → List ℕ
  joined [] = []
  joined (vs ∷ vss) = vs ++ joined vss

  layer-AllHold :
      (gs : List Group) (vss : List (List ℕ))
      → AllHold gs vss
      → (wss : List (List ℕ)) × AllHold (layer (merge array) gs) wss × (joined wss ≡ joined vss)
  unfolding AllHold joined
  layer-AllHold [] [] h = ([], tt, refl)
  layer-AllHold [] (vs ∷ vss) h = absurd h
  layer-AllHold (g ∷ gs) [] h = absurd h
  layer-AllHold (g ∷ []) (vs ∷ []) h = (vs ∷ [], h, refl)
  layer-AllHold (g ∷ []) (vs ∷ ws ∷ vss) h = absurd h.1
  layer-AllHold (g ∷ g' ∷ gs) (vs ∷ []) h = absurd h.1
  layer-AllHold (g ∷ g' ∷ gs) (vs ∷ ws ∷ vss) (hg, (hg', h)) =
      let (wss, all_hold, same) = layer-AllHold gs vss h in
      (
        (vs ++ ws) ∷ wss,
        (merge-Holds g g' vs ws hg hg', all_hold),
        ap (λ x. (vs ++ ws) ++ x) same ∙ append_assoc vs ws (joined vss),
      )

  abbrev Result : List Group → List ℕ → Type 0
  Result level vs = (g : Group) × (rest : List Group) × (level ≡ g ∷ rest) × Holds g vs

  layers-Result :
      (fuel : ℕ) (gs : List Group) (vss : List (List ℕ))
      → AllHold gs vss
      → 0 < length gs
      → length gs ≤ fuel
      → Result (layers (merge array) fuel gs) (joined vss)
  unfolding layers AllHold joined
  layers-Result zero gs vss h some_group fuel_left = absurd (omega arith)
  layers-Result (suc fuel) [] vss h some_group fuel_left = absurd (omega arith)
  layers-Result (suc fuel) (g ∷ []) [] h some_group fuel_left = absurd h
  layers-Result (suc fuel) (g ∷ []) (vs ∷ []) h some_group fuel_left =
      (g, [], refl, subst (Holds g) (sym (append-nil vs)) h.0)
  layers-Result (suc fuel) (g ∷ []) (vs ∷ ws ∷ vss) h some_group fuel_left = absurd h.1
  layers-Result (suc fuel) (g ∷ g' ∷ gs) vss h some_group fuel_left =
      let level : List Group = g ∷ g' ∷ gs in
      let (wss, all_hold, same) = layer-AllHold level vss h in
      let more : ltb 1 (length level) ≡ true = ground arith in
      rw (more, layers)
        (subst (Result (layers (merge array) fuel (layer (merge array) level))) same (
          layers-Result fuel (layer (merge array) level) wss all_hold (omega arith)
            (omega (arith, length-layer (merge array) level))))

  parts : List ℕ → List Bool → List (List ℕ)
  parts [] valids = []
  parts (x ∷ inputs) [] = []
  parts (x ∷ inputs) (v ∷ valids) = (if v then x ∷ [] else []) ∷ parts inputs valids

  joined-parts :
      (inputs : List ℕ) (valids : List Bool) → joined (parts inputs valids) ≡ kept inputs valids
  unfolding joined parts
  joined-parts [] valids = refl
  joined-parts (x ∷ inputs) [] = refl
  joined-parts (x ∷ inputs) (true ∷ valids) = ap (λ xs. x ∷ xs) (joined-parts inputs valids)
  joined-parts (x ∷ inputs) (false ∷ valids) = joined-parts inputs valids

  one-Holds :
      (x : ℕ) (v : Bool)
      → Holds (record { slots = x ∷ []; bits = 1; cnt = bit v }) (if v then x ∷ [] else [])
  one-Holds x true = (refl, (omega arith, (omega arith, λ i h. only i h)))
    where
      only : (i : ℕ) → i < 1 → get_or (x ∷ []) i 0 ≡ get_or (x ∷ []) i 0
      only i h = refl
  one-Holds x false = (refl, (omega arith, (omega arith, λ i h. absurd (omega arith))))

  start-AllHold :
      (inputs : List ℕ) (valids : List Bool)
      → AllHold (start_level inputs valids) (parts inputs valids)
  unfolding AllHold parts
  start-AllHold [] valids = tt
  start-AllHold (x ∷ inputs) [] = tt
  start-AllHold (x ∷ inputs) (v ∷ valids) = (one-Holds x v, start-AllHold inputs valids)

  length-start_level :
      (inputs : List ℕ) (valids : List Bool)
      → length inputs ≡ length valids
      → length (start_level inputs valids) ≡ length inputs
  length-start_level [] valids e = refl
  length-start_level (x ∷ inputs) [] e = absurd (omega arith)
  length-start_level (x ∷ inputs) (v ∷ valids) e =
      ap suc (length-start_level inputs valids (omega arith))

length-kept : (inputs : List ℕ) (valids : List Bool) → length (kept inputs valids) ≤ length inputs
length-kept [] valids = omega arith
length-kept (x ∷ inputs) [] = omega arith
length-kept (x ∷ inputs) (true ∷ valids) = omega (arith, length-kept inputs valids)
length-kept (x ∷ inputs) (false ∷ valids) = omega (arith, length-kept inputs valids)

-- A StableSelectingNetwork with at least one input and a valid bit for each gives the inputs whose
-- valid bit is set first, in their order, and counts them.
pub network-StartsWith :
    (shape : RangeShape) (array : ArrayRead) (inputs : List ℕ) (valids : List Bool)
    → 0 < length inputs
    → length inputs ≡ length valids
    → (outputs : List ℕ) × (network shape array inputs valids
        ≡ some (outputs, length (kept inputs valids)))
      × StartsWith outputs (kept inputs valids)
unfolding network
network-StartsWith shape array inputs valids some_input e =
    let size = length-start_level array inputs valids e in
    let (g, rest, level, (count, (narrow, starts))) =
      layers-Result array (length inputs) (start_level inputs valids) (parts array inputs valids)
        (start-AllHold array inputs valids) (omega (arith, size)) (omega (arith, size)) in
    let values = joined-parts array inputs valids in
    let counted : wrap shape (length inputs + 1) g.cnt ≡ length (kept inputs valids) =
      ap (wrap shape (length inputs + 1)) (count ∙ ap length values)
      ∙ wrap_small shape (length inputs + 1) (length (kept inputs valids))
          (omega (arith, length-kept inputs valids)) in
    (g.slots, rw (level, counted, network) refl, subst (StartsWith g.slots) values starts)
