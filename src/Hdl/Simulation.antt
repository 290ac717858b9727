-- ===== src/Hdl/Simulation.antt =====
-- Two stepped components with the same results on every run, by a relation between their registers.
use transactron.Prelude.{Option, none, some, List, [], ◌∷◌, ◌≡◌, refl, ◌⊎◌, inl, inr}
use transactron.Hdl.{trace}

module _ {ℓ} {S Q O : Type ℓ} (R : S → Q → Type ℓ) where
  -- Both steps fail, or both give the same result and related registers.
  abbrev pub Agree : Option (O × S) → Option (O × Q) → Type ℓ
  Agree x y =
      ((x ≡ none) × (y ≡ none))
      ⊎ ((o : O) × (s : S) × (q : Q) × (x ≡ some (o, s)) × (y ≡ some (o, q)) × R s q)

  module _ {I : Type ℓ} (step : S → I → Option (O × S)) (spec : Q → I → Option (O × Q))
      (agree : (s : S) (q : Q) (i : I) → R s q → Agree (step s i) (spec q i)) where
    pub trace-agree : (s : S) (q : Q) (is : List I) → R s q → trace step s is ≡ trace spec q is
    unfolding trace
    trace-agree s q [] r = refl
    trace-agree s q (i ∷ is) r = elim (agree s q i r) [
      | inl (e, e') ↦ rw (e, e', trace) refl
      | inr (o, s', q', e, e', r') ↦ rw (e, e', trace, trace-agree s' q' is r') refl
    ]
