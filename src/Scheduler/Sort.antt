-- ===== src/Scheduler/Sort.antt =====
-- The members of a sorted list, and their order.
use transactron.Prelude.{
  ℕ, ◌≤◌, true, ◌||◌, List, [], ◌∷◌, ◌==◌, leb, contains, In, arith, ◌≡◌, refl, ap, inl, inr,
  Bool-cases,
}
use transactron.Scheduler.{insert, sort}

contains-insert :
    (porder : ℕ → ℕ) (t : ℕ) (xs : List ℕ) (v : ℕ)
    → contains (insert porder t xs) v ≡ (t == v || contains xs v)
unfolding insert
contains-insert porder t [] v = refl
contains-insert porder t (x ∷ xs) v = ground (arith, contains-insert porder t xs v)

pub contains-sort :
    (porder : ℕ → ℕ) (xs : List ℕ) (v : ℕ) → contains (sort porder xs) v ≡ contains xs v
unfolding sort
contains-sort porder [] v = refl
contains-sort porder (x ∷ xs) v =
    ground (arith, contains-insert porder x (sort porder xs) v, contains-sort porder xs v)

-- No member is placed before one with a smaller key.
abbrev pub Ordered : (ℕ → ℕ) → List ℕ → Type 0
Ordered porder [] = Unit
Ordered porder (x ∷ xs) = ((v : ℕ) → In v xs → porder x ≤ porder v) × Ordered porder xs

insert-Ordered :
    (porder : ℕ → ℕ) (t : ℕ) (xs : List ℕ) → Ordered porder xs → Ordered porder (insert porder t xs)
unfolding insert
insert-Ordered porder t [] o = ((λ v m. cc), tt)
insert-Ordered porder t (x ∷ xs) o = elim (Bool-cases (leb (porder t) (porder x))) [
  | inl low ↦ rw (low, insert) ((λ v m. ground (arith, same_key porder x v, o.0 v)), o)
  | inr high ↦
      rw (high, insert)
        (
          (λ v m. ground (arith, same_key porder t v, o.0 v, contains-insert porder t xs v)),
          insert-Ordered porder t xs o.1,
        )
]
  where
    same_key : (porder : ℕ → ℕ) (x v : ℕ) → (x == v) ≡ true → porder x ≡ porder v
    same_key porder x v h = ap porder (ground arith)

pub sort-Ordered : (porder : ℕ → ℕ) (xs : List ℕ) → Ordered porder (sort porder xs)
unfolding sort
sort-Ordered porder [] = tt
sort-Ordered porder (x ∷ xs) = insert-Ordered porder x (sort porder xs) (sort-Ordered porder xs)
