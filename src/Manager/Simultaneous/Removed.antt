-- ===== src/Manager/Simultaneous/Removed.antt =====
-- The transactions that `_simultaneous` of transactron/core/manager.py leaves, where the simultaneity
-- constraints stand at both of their ends, as `TransactionBase.simultaneous` of
-- transactron/core/transaction_base.py puts them.
use transactron.Prelude.{
  ℕ, true, false, ◌||◌, ◌&&◌, List, [], ◌∷◌, ◌++◌, ◌==◌, ==_iff, ==_refl, contains, contains-append,
  any, In, ◌≡◌, refl, sym, ap, ◌∙◌, subst, arith, Bool-cases, ◌⊎◌, inl, inr,
}
use transactron.Manager.{Body, Design, add_self, simultaneous_with}
use transactron.Manager.MethodMap.{MethodMap, transactions_for}
use transactron.Manager.Elaborate.{methods_and_transactions}
use transactron.Manager.Simultaneous.{Group, union, SimultaneityError}
use transactron.Manager.Simultaneous.Sets.{Has, any-In, contains-union}
use transactron.Manager.Simultaneous.Pairs.{demanded, demanded_by, wanted_by}
use transactron.Manager.Simultaneous.Merge.{
  Merging, merging, simultaneous, sims_of, all_sims_of, all_simultaneous, without,
}
use transactron.Manager.Simultaneous.Outcome.{
  Course, merged, simultaneous-Course, simultaneous-Merges,
}

-- Every constraint stands at both ends.
abbrev pub Mutual : (ℕ → Body) → Type 0
Mutual body = (e s : ℕ) → In s (body e).simultaneous_list → In e (body s).simultaneous_list

-- The declared ends are elements of the design.
abbrev pub Declared : Design → MethodMap → Type 0
Declared d mm =
    (e s : ℕ)
    → In e (methods_and_transactions mm)
    → In s (d.body e).simultaneous_list
    → In s (methods_and_transactions mm)

contains-add_self :
    (self : ℕ) (others : List ℕ) (b : ℕ) (sims : List ℕ) (v : ℕ)
    → contains (add_self self others b sims) v
      ≡ (contains sims v || (contains others b && self == v))
contains-add_self self [] b sims v = ground arith
contains-add_self self (o ∷ others) b sims v = ground (
  arith,
  contains-add_self self others b sims v,
  contains-add_self self others b (sims ++ self ∷ []) v,
  contains-append sims (self ∷ []) v,
)

pub contains-simultaneous_with :
    (body : ℕ → Body) (self : ℕ) (others : List ℕ) (b v : ℕ)
    → contains (simultaneous_with body self others b).simultaneous_list v ≡ (
        contains (body b).simultaneous_list v
        || ((b == self && contains others v) || (contains others b && self == v)))
unfolding simultaneous_with
contains-simultaneous_with body self others b v = ground (
  arith,
  contains-add_self self others b (body b).simultaneous_list v,
  contains-add_self self others b ((body b).simultaneous_list ++ others) v,
  contains-append (body b).simultaneous_list others v,
)

-- `simultaneous` puts each constraint at both ends.
pub simultaneous_with-Mutual :
    (body : ℕ → Body) (self : ℕ) (others : List ℕ)
    → Mutual body
    → Mutual (simultaneous_with body self others)
simultaneous_with-Mutual body self others h e s m = ground (
  arith,
  h e s,
  contains-simultaneous_with body self others e s,
  contains-simultaneous_with body self others s e,
)

contains-sims_of :
    (mm : MethodMap) (ss : List ℕ) (all : Group) (v : ℕ)
    → contains (sims_of mm ss all) v
      ≡ (contains all v || any (λ s. contains (transactions_for mm s) v) ss)
contains-sims_of mm [] all v = ground arith
contains-sims_of mm (s ∷ ss) all v = ground (
  arith,
  contains-sims_of mm ss (union all (transactions_for mm s)) v,
  contains-union all (transactions_for mm s) v,
)

contains-all_sims_of :
    (d : Design) (mm : MethodMap) (es : List ℕ) (all : Group) (v : ℕ)
    → contains (all_sims_of d mm es all) v ≡ (
        contains all v
        || any (λ e. any (λ s. contains (transactions_for mm s) v) (d.body e).simultaneous_list) es)
contains-all_sims_of d mm [] all v = ground arith
contains-all_sims_of d mm (e ∷ es) all v = ground (
  arith,
  contains-all_sims_of d mm es (sims_of mm (d.body e).simultaneous_list all) v,
  contains-sims_of mm (d.body e).simultaneous_list all v,
)

-- A transaction of an element that some element is simultaneous with.
all_simultaneous-In :
    (d : Design) (mm : MethodMap) (e s v : ℕ)
    → In e (methods_and_transactions mm)
    → In s (d.body e).simultaneous_list
    → In v (transactions_for mm s)
    → In v (all_simultaneous d mm)
unfolding all_simultaneous
all_simultaneous-In d mm e s v me ms mv =
    contains-all_sims_of d mm (methods_and_transactions mm) [] v
    ∙ any-In (λ f. any (λ t. contains (transactions_for mm t) v) (d.body f).simultaneous_list)
        (methods_and_transactions mm) e me
        (any-In (λ t. contains (transactions_for mm t) v) (d.body e).simultaneous_list s ms mv)

wanted_by-ends :
    (mm : MethodMap) (e : ℕ) (ss : List ℕ) (a b : ℕ)
    → wanted_by mm e ss a b ≡ true
    → (s : ℕ) × In s ss × In a (transactions_for mm e) × In b (transactions_for mm s)
wanted_by-ends mm e [] a b w = cc
wanted_by-ends mm e (s ∷ ss) a b w =
    elim (Bool-cases (contains (transactions_for mm e) a && contains (transactions_for mm s) b)) [
      | inl h ↦ (s, ground (arith, ==_refl s), ground arith, ground arith)
      | inr h ↦
          let (t, m, ma, mb) = wanted_by-ends mm e ss a b (ground arith) in
          (t, ground arith, ma, mb)
    ]

demanded-ends :
    (d : Design) (mm : MethodMap) (es : List ℕ) (a b : ℕ)
    → demanded_by d mm es a b ≡ true
    → (e : ℕ) × (s : ℕ) × In e es
      × In s (d.body e).simultaneous_list
      × In a (transactions_for mm e)
      × In b (transactions_for mm s)
demanded-ends d mm [] a b w = cc
demanded-ends d mm (e ∷ es) a b w =
    elim (Bool-cases (wanted_by mm e (d.body e).simultaneous_list a b)) [
      | inl h ↦
          let (s, m, ma, mb) = wanted_by-ends mm e (d.body e).simultaneous_list a b h in
          (e, s, ground (arith, ==_refl e), m, ma, mb)
      | inr h ↦
          let (f, s, mf, m, ma, mb) = demanded-ends d mm es a b (ground arith) in
          (f, s, ground arith, m, ma, mb)
    ]

contains-without :
    (all : Group) (ts : List ℕ) (v : ℕ) → In v all → contains (without all ts) v ≡ false
contains-without all [] v m = refl
contains-without all (t ∷ ts) v m = elim (Bool-cases (t == v)) [
  | inl e ↦
      let there : contains all t ≡ true =
        subst (λ k. contains all k ≡ true) (sym ((==_iff t v).0 e)) m in
      rw there (contains-without all ts v m)
  | inr e ↦ ground (arith, contains-without all ts v m)
]

-- Where the constraints stand at both of their ends, which are elements of the design, a member of a
-- merged transaction is not among the transactions that _simultaneous leaves.
pub merged_transaction_removed :
    (d : Design) (mm : MethodMap) (out : Merging) (g : Group) (a : ℕ)
    → Mutual d.body
    → Declared d mm
    → simultaneous d mm ≡ inr out
    → Has out.groups g
    → In a g
    → contains out.transactions a ≡ false
merged_transaction_removed d mm out g a both_ends declared e m k =
    let (b, mb, ne, w) = (simultaneous-Merges d mm out e).linked g a m k in
    go (simultaneous d mm) (simultaneous-Course d mm) e (gone b w)
  where
    gone : (b : ℕ) → (demanded d mm a b || demanded d mm b a) ≡ true → In a (all_simultaneous d mm)
    gone b w = elim (Bool-cases (demanded d mm b a)) [
      | inl h ↦
          let (f, s, mf, ms, mb, ma) = demanded-ends d mm (methods_and_transactions mm) b a h in
          all_simultaneous-In d mm f s a mf ms ma
      | inr h ↦
          let (f, s, mf, ms, ma, mb) =
            demanded-ends d mm (methods_and_transactions mm) a b (ground arith) in
          all_simultaneous-In d mm s f a (declared f s mf ms) (both_ends f s ms) ma
    ]

    go :
        (r : SimultaneityError ⊎ Merging)
        → Course d mm r
        → r ≡ inr out
        → In a (all_simultaneous d mm)
        → contains out.transactions a ≡ false
    go (inl err) c h removed = cc
    go (inr result) (merged conditional sims groups pairs good) h removed =
        let same : merging d mm conditional groups ≡ out = cc in
        let eq : without (all_simultaneous d mm) d.transactions ≡ out.transactions =
          ap (λ o. o.transactions) same in
        subst (λ ts. contains ts a ≡ false) eq
          (contains-without (all_simultaneous d mm) d.transactions a removed)
