-- ===== src/Select/Selected.antt =====
-- Which input `one_hot_mux` gives.
use Prim.Native.Nat.{bit_or, bit_or-bitwise, digits, max}
use transactron.Prelude.{
  ℕ, zero, suc, ◌≤◌, ◌<◌, ◌/◌, Bool, true, false, not, Option, none, some, List, [], ◌∷◌, length,
  map, any, get_or, ltb, ◌≡◌, refl, ap, sym, ◌∙◌, ◌⊎◌, inl, inr, arith,
}
use transactron.Reduce.{layer, layers, binary_tree_reduce}
use transactron.Reduce.Folded.{length-layer}
use transactron.Select.{
  increment, and_each, select_first, masked, or_value, value_combined, one_hot_mux,
}

zero-bit_or : (b : ℕ) → bit_or 0 b ≡ b
zero-bit_or b = bit_or-bitwise 0 b

or_digits-zero : (n a : ℕ) → a ≤ n → digits (λ b. b) max n a 0 ≡ a
or_digits-zero zero a h = omega arith
or_digits-zero (suc n) zero h = refl
or_digits-zero (suc n) (suc a) h = omega (arith, or_digits-zero n (suc a / 2) (omega arith))

bit_or-zero : (a : ℕ) → bit_or a 0 ≡ a
bit_or-zero a = bit_or-bitwise a 0 ∙ or_digits-zero a a (omega arith)

abbrev AllZero : List ℕ → Type 0
AllZero [] = Unit
AllZero (x ∷ xs) = (x ≡ 0) × AllZero xs

-- One value, and zeros.
abbrev IsSingle : ℕ → List ℕ → Type 0
IsSingle v [] = ⊥
IsSingle v (x ∷ xs) = ((x ≡ v) × AllZero xs) ⊎ ((x ≡ 0) × IsSingle v xs)

layer-AllZero : (xs : List ℕ) → AllZero xs → AllZero (layer bit_or xs)
layer-AllZero [] z = tt
layer-AllZero (a ∷ []) z = z
layer-AllZero (a ∷ b ∷ xs) (za, (zb, z)) =
    (ap (λ x. bit_or x b) za ∙ zero-bit_or b ∙ zb, layer-AllZero xs z)

layer-IsSingle : (v : ℕ) (xs : List ℕ) → IsSingle v xs → IsSingle v (layer bit_or xs)
layer-IsSingle v [] h = h
layer-IsSingle v (a ∷ []) h = h
layer-IsSingle v (a ∷ b ∷ xs) (inl (e, (zb, z))) =
    inl (ap (bit_or a) zb ∙ bit_or-zero a ∙ e, layer-AllZero xs z)
layer-IsSingle v (a ∷ b ∷ xs) (inr (za, inl (e, z))) =
    inl (ap (λ x. bit_or x b) za ∙ zero-bit_or b ∙ e, layer-AllZero xs z)
layer-IsSingle v (a ∷ b ∷ xs) (inr (za, inr (zb, h))) =
    inr (ap (λ x. bit_or x b) za ∙ zero-bit_or b ∙ zb, layer-IsSingle v xs h)

layers-IsSingle :
    (v fuel : ℕ) (xs : List ℕ)
    → length xs ≤ fuel
    → IsSingle v xs
    → get_or (layers bit_or fuel xs) 0 0 ≡ v
unfolding layers
layers-IsSingle v fuel [] h s = absurd s
layers-IsSingle v zero (a ∷ xs) h s = absurd (omega arith)
layers-IsSingle v (suc fuel) (a ∷ []) h (inl (e, z)) = e
layers-IsSingle v (suc fuel) (a ∷ []) h (inr (e, s)) = absurd s
layers-IsSingle v (suc fuel) (a ∷ b ∷ xs) h s =
    let shorter = length-layer bit_or (a ∷ b ∷ xs) in
    let more : ltb 1 (length (a ∷ b ∷ xs)) ≡ true = ground arith in
    rw (more, layers)
      (layers-IsSingle v fuel (layer bit_or (a ∷ b ∷ xs)) (omega (arith, shorter))
        (layer-IsSingle v (a ∷ b ∷ xs) s))

or_value-IsSingle : (v : ℕ) (xs : List ℕ) → IsSingle v xs → or_value xs ≡ v
unfolding binary_tree_reduce
or_value-IsSingle v [] s = absurd s
or_value-IsSingle v (x ∷ xs) s = layers-IsSingle v (length (x ∷ xs)) (x ∷ xs) (omega arith) s

-- The bit at a position is set, and it is the lowest, or the only one.
abbrev pub AllFalse : List Bool → Type 0
AllFalse [] = Unit
AllFalse (b ∷ bs) = (b ≡ false) × AllFalse bs

abbrev pub IsFirstAt : ℕ → List Bool → Type 0
IsFirstAt i [] = ⊥
IsFirstAt zero (b ∷ bs) = b ≡ true
IsFirstAt (suc i) (b ∷ bs) = (b ≡ false) × IsFirstAt i bs

abbrev pub IsOneHotAt : ℕ → List Bool → Type 0
IsOneHotAt i [] = ⊥
IsOneHotAt zero (b ∷ bs) = (b ≡ true) × AllFalse bs
IsOneHotAt (suc i) (b ∷ bs) = (b ≡ false) × IsOneHotAt i bs

and_each-AllFalse : (bs : List Bool) → AllFalse (and_each bs (map not bs))
and_each-AllFalse [] = tt
and_each-AllFalse (b ∷ bs) = (ground arith, and_each-AllFalse bs)

select_first-IsOneHotAt : (i : ℕ) (bs : List Bool) → IsFirstAt i bs → IsOneHotAt i (select_first bs)
select_first-IsOneHotAt i [] h = h
select_first-IsOneHotAt zero (true ∷ bs) h = (refl, and_each-AllFalse bs)
select_first-IsOneHotAt zero (false ∷ bs) h = absurd (cc)
select_first-IsOneHotAt (suc i) (true ∷ bs) h = absurd (cc)
select_first-IsOneHotAt (suc i) (false ∷ bs) (e, h) = (refl, select_first-IsOneHotAt i bs h)

IsOneHotAt-IsFirstAt : (i : ℕ) (bs : List Bool) → IsOneHotAt i bs → IsFirstAt i bs
IsOneHotAt-IsFirstAt i [] h = h
IsOneHotAt-IsFirstAt zero (b ∷ bs) h = h.0
IsOneHotAt-IsFirstAt (suc i) (b ∷ bs) h = (h.0, IsOneHotAt-IsFirstAt i bs h.1)

any-IsFirstAt : (i : ℕ) (bs : List Bool) → IsFirstAt i bs → any (λ b. b) bs ≡ true
any-IsFirstAt i [] h = absurd h
any-IsFirstAt zero (b ∷ bs) h = ground arith
any-IsFirstAt (suc i) (b ∷ bs) (e, h) = ground (arith, any-IsFirstAt i bs h)

masked-AllZero : (bs : List Bool) (xs : List ℕ) → AllFalse bs → AllZero (masked bs xs)
masked-AllZero bs [] h = tt
masked-AllZero [] (x ∷ xs) h = tt
masked-AllZero (b ∷ bs) (x ∷ xs) (e, h) = (rw e refl, masked-AllZero bs xs h)

masked-IsSingle :
    (i : ℕ) (bs : List Bool) (xs : List ℕ)
    → length bs ≡ length xs
    → IsOneHotAt i bs
    → IsSingle (get_or xs i 0) (masked bs xs)
masked-IsSingle i [] [] e h = absurd h
masked-IsSingle i [] (x ∷ xs) e h = absurd h
masked-IsSingle i (b ∷ bs) [] e h = absurd (omega arith)
masked-IsSingle zero (b ∷ bs) (x ∷ xs) e (s, h) = inl (rw s refl, masked-AllZero bs xs h)
masked-IsSingle (suc i) (b ∷ bs) (x ∷ xs) e (s, h) =
    inr (rw s refl, masked-IsSingle i bs xs (omega arith) h)

length-and_each :
    (as' bs : List Bool) → length as' ≡ length bs → length (and_each as' bs) ≡ length bs
length-and_each [] bs e = e
length-and_each (a ∷ as') [] e = absurd (omega arith)
length-and_each (a ∷ as') (b ∷ bs) e = ap suc (length-and_each as' bs (omega arith))

length-increment : (bs : List Bool) → length (increment bs) ≡ length bs
length-increment [] = refl
length-increment (true ∷ bs) = ap suc (length-increment bs)
length-increment (false ∷ bs) = refl

length-not : (bs : List Bool) → length (map not bs) ≡ length bs
length-not [] = refl
length-not (b ∷ bs) = ap suc (length-not bs)

length-select_first : (bs : List Bool) → length (select_first bs) ≡ length bs
length-select_first bs =
    length-and_each bs (increment (map not bs))
      (sym (length-increment (map not bs) ∙ length-not bs))
    ∙ length-increment (map not bs)
    ∙ length-not bs

-- The bit at `i` is set; without `priority` it is the only one, and with it the lowest one.
abbrev pub IsSelected : Bool → ℕ → List Bool → Type 0
IsSelected priority i select = elim priority [
  | true ↦ IsFirstAt i select
  | false ↦ IsOneHotAt i select
]

value_combined_lem :
    (priority : Bool) (i : ℕ) (select : List Bool) (inputs : List ℕ)
    → length select ≡ length inputs
    → IsSelected priority i select
    → value_combined priority select inputs ≡ get_or inputs i 0
value_combined_lem true i select inputs e h =
    or_value-IsSingle (get_or inputs i 0) (masked (select_first select) inputs) (
      masked-IsSingle i (select_first select) inputs (length-select_first select ∙ e)
        (select_first-IsOneHotAt i select h))
value_combined_lem false i select inputs e h =
    or_value-IsSingle (get_or inputs i 0) (masked select inputs)
      (masked-IsSingle i select inputs e h)

some_selected :
    (priority : Bool) (i : ℕ) (select : List Bool)
    → IsSelected priority i select
    → any (λ b. b) select ≡ true
some_selected true i select h = any-IsFirstAt i select h
some_selected false i select h = any-IsFirstAt i select (IsOneHotAt-IsFirstAt i select h)

IsFirstAt-lt : (i : ℕ) (bs : List Bool) → IsFirstAt i bs → i < length bs
IsFirstAt-lt i [] h = absurd h
IsFirstAt-lt zero (b ∷ bs) h = omega arith
IsFirstAt-lt (suc i) (b ∷ bs) (e, h) = omega (arith, IsFirstAt-lt i bs h)

IsSelected-lt :
    (priority : Bool) (i : ℕ) (select : List Bool)
    → IsSelected priority i select
    → i < length select
IsSelected-lt true i select h = IsFirstAt-lt i select h
IsSelected-lt false i select h = IsFirstAt-lt i select (IsOneHotAt-IsFirstAt i select h)

-- one_hot_mux, with one bit of selection for each input, gives the input whose bit is set if no
-- other bit is; with `priority`, the input of the lowest bit that is set. A default value does not
-- matter then.
pub one_hot_mux-IsSelected :
    (select : List Bool) (inputs : List ℕ) (default : Option ℕ) (priority : Bool) (i : ℕ)
    → length select ≡ length inputs
    → IsSelected priority i select
    → one_hot_mux select inputs default priority ≡ get_or inputs i 0
unfolding one_hot_mux
one_hot_mux-IsSelected select [] default priority i e h =
    absurd (omega (arith, IsSelected-lt priority i select h))
one_hot_mux-IsSelected select (x ∷ []) none priority i e h =
    let first : 0 ≡ i = omega (arith, IsSelected-lt priority i select h) in
    ap (λ k. get_or (x ∷ []) k 0) first
one_hot_mux-IsSelected select (x ∷ y ∷ xs) none priority i e h =
    value_combined_lem priority i select (x ∷ y ∷ xs) e h
one_hot_mux-IsSelected select (x ∷ xs) (some d) priority i e h =
    rw (some_selected priority i select h) (value_combined_lem priority i select (x ∷ xs) e h)
