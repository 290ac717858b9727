-- ===== src/Manager/Simultaneous/Independent.antt =====
-- Step 1, the independent transactions: two transactions are independent if some element, with the
-- elements that are independent of it, is called by both.
use transactron.Prelude.{
  ℕ, Bool, true, ◌||◌, ◌&&◌, List, [], ◌∷◌, ◌==◌, contains, any, In, ◌≡◌, refl, arith,
}
use transactron.Graph.{Graph}
use transactron.Manager.{Design}
use transactron.Manager.MethodMap.{MethodMap, targets, transactions_for}
use transactron.Manager.Elaborate.{methods_and_transactions, add_dependent}
use transactron.Manager.Elaborate.Ready.{targets-add_dependent}
use transactron.Manager.Simultaneous.{
  Group, transactions_of, add_row, add_product, independents_of, independents,
}
use transactron.Manager.Simultaneous.Sets.{any-In, contains-union}

-- The transactions of an element and of those that are independent of it.
abbrev pub reaching : Design → MethodMap → ℕ → Group
reaching d mm e = transactions_of mm (e ∷ (d.body e).independent_list)

targets-add_row :
    (g : Graph) (t : ℕ) (ts : List ℕ) (a b : ℕ)
    → contains (targets (add_row g t ts) a) b
      ≡ (contains (targets g a) b || (t == a && contains ts b))
targets-add_row g t [] a b = ground arith
targets-add_row g t (u ∷ ts) a b =
    ground (arith, targets-add_row (add_dependent g t u) t ts a b, targets-add_dependent g t u a b)

targets-add_product :
    (g : Graph) (us ts : List ℕ) (a b : ℕ)
    → contains (targets (add_product g us ts) a) b
      ≡ (contains (targets g a) b || (contains us a && contains ts b))
targets-add_product g [] ts a b = ground arith
targets-add_product g (u ∷ us) ts a b =
    ground (arith, targets-add_product (add_row g u ts) us ts a b, targets-add_row g u ts a b)

targets-independents_of :
    (d : Design) (mm : MethodMap) (es : List ℕ) (g : Graph) (a b : ℕ)
    → contains (targets (independents_of d mm es g) a) b ≡ (
        contains (targets g a) b
        || any (λ e. contains (reaching d mm e) a && contains (reaching d mm e) b) es)
targets-independents_of d mm [] g a b = ground arith
targets-independents_of d mm (e ∷ es) g a b = ground (
  arith,
  targets-independents_of d mm es (add_product g (reaching d mm e) (reaching d mm e)) a b,
  targets-add_product g (reaching d mm e) (reaching d mm e) a b,
)

-- Both are transactions of some element.
abbrev pub both_reach : Design → MethodMap → ℕ → ℕ → Bool
both_reach d mm a b =
    any (λ e. contains (reaching d mm e) a && contains (reaching d mm e) b)
      (methods_and_transactions mm)

pub targets-independents :
    (d : Design) (mm : MethodMap) (a b : ℕ)
    → contains (targets (independents d mm) a) b ≡ both_reach d mm a b
unfolding independents
targets-independents d mm a b = targets-independents_of d mm (methods_and_transactions mm) [] a b

any_swap : (p q : ℕ → Bool) (es : List ℕ) → any (λ e. p e && q e) es ≡ any (λ e. q e && p e) es
any_swap p q [] = refl
any_swap p q (e ∷ es) = ground (arith, any_swap p q es)

pub both_reach_comm :
    (d : Design) (mm : MethodMap) (a b : ℕ) → both_reach d mm a b ≡ both_reach d mm b a
both_reach_comm d mm a b =
    any_swap (λ e. contains (reaching d mm e) a) (λ e. contains (reaching d mm e) b)
      (methods_and_transactions mm)

pub reaching_self :
    (d : Design) (mm : MethodMap) (e a : ℕ) → In a (transactions_for mm e) → In a (reaching d mm e)
reaching_self d mm e a m = ground (
  arith,
  contains-union (transactions_of mm (d.body e).independent_list) (transactions_for mm e) a,
)

-- Two transactions of one element are independent.
pub both_reach_lem :
    (d : Design) (mm : MethodMap) (e a b : ℕ)
    → In e (methods_and_transactions mm)
    → In a (transactions_for mm e)
    → In b (transactions_for mm e)
    → both_reach d mm a b ≡ true
both_reach_lem d mm e a b m ma mb =
    let ra = reaching_self d mm e a ma in
    let rb = reaching_self d mm e b mb in
    any-In (λ f. contains (reaching d mm f) a && contains (reaching d mm f) b)
      (methods_and_transactions mm) e m (rw (ra, rb))
