-- ===== src/Manager/MethodMap/Contents.antt =====
-- The constructor of `MethodMap`: when it succeeds, and the contents of its dictionaries.
use transactron.Prelude.{
  ℕ, zero, suc, Bool, true, false, ◌&&◌, ◌||◌, List, [], ◌∷◌, ◌++◌, append_assoc, append-nil, ◌==◌,
  if◌then◌else◌, contains, contains-append, In, arith, ◌≡◌, refl, ap, ◌∙◌, inl, inr, Bool-cases,
}
use transactron.Graph.{keys}
use transactron.Graph.Search.{distinct}
use transactron.Manager.{Call, Design}
use transactron.Manager.MethodMap.{
  CallInfo, ok, Visit, calls_of, info_at, root_info, fuel_of, validate_root_call_tree, validate_all,
  MethodMap, targets, record_visit, record_transactions, no_callers, method_map, calls_by, parents,
}
use transactron.Manager.MethodMap.Visits.{visits, visits_in, bind-eq-ok, traverse-eq-fold}
use transactron.Manager.MethodMap.Fuel.{KnownMethods, AllIn}
use transactron.Manager.MethodMap.Build.{
  targets-new_key, keys-new_key, visited, tagged, IsInverse, Records, fold-Records,
}

-- The calls of one method.
abbrev pub infos_of : List Visit → ℕ → List CallInfo
infos_of [] n = []
infos_of ((m, i) ∷ vs) n = let rest = infos_of vs n in if m == n then i ∷ rest else rest

calls_by-append :
    (xs ys : List (ℕ × Visit)) (t n : ℕ)
    → calls_by (xs ++ ys) t n ≡ calls_by xs t n ++ calls_by ys t n
calls_by-append [] ys t n = refl
calls_by-append ((u, (m, i)) ∷ xs) ys t n = ground (arith, calls_by-append xs ys t n)

calls_by-tagged :
    (u : ℕ) (vs : List Visit) (t n : ℕ)
    → calls_by (tagged u vs) t n ≡ (let all = infos_of vs n in if u == t then all else [])
calls_by-tagged u [] t n = ground arith
calls_by-tagged u ((m, i) ∷ vs) t n = ground (arith, calls_by-tagged u vs t n)

visited-append :
    (us vs : List Visit) (n : ℕ) → visited (us ++ vs) n ≡ (visited us n || visited vs n)
visited-append [] vs n = refl
visited-append ((m, i) ∷ us) vs n = ground (arith, visited-append us vs n)

module _ (d : Design) (known : KnownMethods d) where
  visits_in_known :
      (below : ℕ → CallInfo → List Visit) (above : CallInfo) (cs : List (ℕ × Call)) (n : ℕ)
      → ((m : ℕ) (i : CallInfo) → visited (below m i) n ≡ true → In n d.methods)
      → AllIn cs d.methods
      → visited (visits_in below above cs) n ≡ true
      → In n d.methods
  visits_in_known below above [] n ih a h = cc
  visits_in_known below above ((m, c) ∷ cs) n ih a h = elim (Bool-cases (m == n)) [
    | inl same ↦ let eq : n ≡ m = ground arith in rw eq a.0
    | inr other ↦ elim (Bool-cases (visited (below m (info_at above m c)) n)) [
      | inl deep ↦ ih m (info_at above m c) deep
      | inr not_deep ↦ visits_in_known below above cs n ih a.1 (
          ground (arith, visited-append (below m (info_at above m c)) (visits_in below above cs) n))
    ]
  ]

  pub visits_known :
      (fuel source : ℕ) (above : CallInfo) (n : ℕ)
      → visited (visits fuel d source above) n ≡ true
      → In n d.methods
  unfolding visits
  visits_known zero source above n h = cc
  visits_known (suc fuel) source above n h =
      visits_in_known (visits fuel d) above (calls_of (d.body source).method_calls) n
        (λ m i. visits_known fuel m i n) (known source) h

  abbrev pub tree : ℕ → List Visit
  tree t = visits (fuel_of d) d t root_info

  abbrev Valid : ℕ → Type 0
  Valid r = (out : List Visit) × (validate_root_call_tree d r ≡ ok out)

  pub validate_all-ok :
      (roots : List ℕ) → validate_all d roots ≡ ok tt → (r : ℕ) → In r roots → Valid r
  unfolding validate_all
  validate_all-ok [] h r m = cc
  validate_all-ok (x ∷ roots) h r m =
      let (out, e, h') = bind-eq-ok (validate_root_call_tree d x) _ h in
      elim (Bool-cases (x == r)) [
        | inl same ↦ let eq : r ≡ x = ground arith in rw eq (out, e)
        | inr other ↦ validate_all-ok roots h' r (ground arith)
      ]

  record Filled (ts : List ℕ) (mm out : MethodMap) : Type 0 where
    calls :
        (u n : ℕ)
        → contains (targets out.methods_by_transaction u) n ≡ (
            contains (targets mm.methods_by_transaction u) n
            || (contains ts u && visited (tree u) n))
    infos :
        (u n : ℕ)
        → calls_by out.info_by_call u n
          ≡ calls_by mm.info_by_call u n ++ (if contains ts u then infos_of (tree u) n else [])
    inverse : IsInverse out
    same_transactions : keys out.methods_by_transaction ≡ keys mm.methods_by_transaction ++ ts
    same_methods : keys out.transactions_by_method ≡ keys mm.transactions_by_method

  filled_calls :
      (t : ℕ) (ts : List ℕ) (mm : MethodMap) {mid out : Bool} (u n : ℕ)
      → mid ≡ (
          contains (targets (mm.methods_by_transaction ++ (t, []) ∷ []) u) n
          || (t == u && visited (tree t) n))
      → out ≡ (mid || (contains ts u && visited (tree u) n))
      → out ≡ (
          contains (targets mm.methods_by_transaction u) n
          || (contains (t ∷ ts) u && visited (tree u) n))
  filled_calls t ts mm u n p q = elim (Bool-cases (t == u)) [
    | inl same ↦
        let eq : t ≡ u = ground arith in
        let p' = rw (eq, targets-new_key mm.methods_by_transaction u u n) at p in
        ground (arith, p', q)
    | inr other ↦ ground (arith, p, q, targets-new_key mm.methods_by_transaction t u n)
  ]

  filled_infos :
      (t : ℕ) (ts : List ℕ) (infos : List (ℕ × Visit)) (u n : ℕ)
      → distinct (t ∷ ts) ≡ true
      → calls_by (infos ++ tagged t (tree t)) u n
          ++ (if contains ts u then infos_of (tree u) n else [])
        ≡ calls_by infos u n ++ (if contains (t ∷ ts) u then infos_of (tree u) n else [])
  filled_infos t ts infos u n once =
      rw
        (
          calls_by-append infos (tagged t (tree t)) u n,
          calls_by-tagged t (tree t) u n,
          append_assoc,
        )
        (elim (Bool-cases (t == u)) [
          | inl same ↦
              let eq : t ≡ u = ground arith in
              let new : contains ts u ≡ false = rw eq at (new_of t ts once) in
              rw (same, new, eq, append-nil)
          | inr other ↦ rw other
        ])
    where
      new_of : (t : ℕ) (ts : List ℕ) → distinct (t ∷ ts) ≡ true → contains ts t ≡ false
      new_of t ts h = ground arith

  join-Filled :
      (t : ℕ) (ts : List ℕ) (mm mid out : MethodMap)
      → distinct (t ∷ ts) ≡ true
      → Records t
          (tree t)
          (record mm { methods_by_transaction = mm.methods_by_transaction ++ (t, []) ∷ [] })
          mid
      → Filled ts mid out
      → Filled (t ∷ ts) mm out
  join-Filled t ts mm mid out once r f = record {
    calls = λ u n. filled_calls t ts mm u n (r.calls u n) (f.calls u n);
    infos = λ u n. rw (f.infos u n, r.infos) (filled_infos t ts mm.info_by_call u n once);
    inverse = f.inverse;
    same_transactions =
        rw
          (
            f.same_transactions,
            r.same_transactions,
            keys-new_key mm.methods_by_transaction t,
            append_assoc,
          )
          refl;
    same_methods = f.same_methods ∙ r.same_methods;
  }

  transactions_fill :
      (ts : List ℕ) (mm : MethodMap)
      → ((t : ℕ) → In t ts → Valid t)
      → distinct ts ≡ true
      → keys mm.transactions_by_method ≡ d.methods
      → IsInverse mm
      → (out : MethodMap) × (record_transactions d ts mm ≡ ok out) × Filled ts mm out
  unfolding record_transactions validate_root_call_tree
  transactions_fill [] mm valid once ms inv = (
    mm,
    refl,
    record {
      calls = λ u n. ground arith;
      infos = λ u n. rw append-nil;
      inverse = inv;
      same_transactions = rw append-nil;
      same_methods = refl;
    },
  )
  transactions_fill (t ∷ ts) mm valid once ms inv =
      let (sights, checked) = valid t (ground arith) in
      let start = record mm {
        methods_by_transaction = mm.methods_by_transaction ++ (t, []) ∷ [];
      } in
      let inv0 : IsInverse start =
        λ u n. targets-new_key mm.methods_by_transaction t u n ∙ inv u n in
      let (mid, e, r) =
        fold-Records t (tree t) start
          (rw
            (
              keys-new_key mm.methods_by_transaction t,
              contains-append (keys mm.methods_by_transaction) (t ∷ []) t,
            )
            (ground arith))
          (λ m h. rw ms (visits_known (fuel_of d) t root_info m h)) inv0 in
      let (out, e', f) =
        transactions_fill ts mid (λ u m. valid u (ground arith)) (ground arith)
          (r.same_methods ∙ ms) r.inverse in
      (
        out,
        rw (traverse-eq-fold (record_visit t) d (fuel_of d) t root_info sights checked start, e) e',
        join-Filled t ts mm mid out once r f,
      )

abbrev empty_map : Design → MethodMap
empty_map d = record {
  methods_by_transaction = [];
  transactions_by_method = no_callers d.methods;
  info_by_call = [];
  method_parents = [];
}

targets-no_callers : (ms : List ℕ) (m : ℕ) → targets (no_callers ms) m ≡ []
targets-no_callers [] m = refl
targets-no_callers (n ∷ ms) m = ground (arith, targets-no_callers ms m)

keys-no_callers : (ms : List ℕ) → keys (no_callers ms) ≡ ms
keys-no_callers [] = refl
keys-no_callers (n ∷ ms) = ap (λ ks. n ∷ ks) (keys-no_callers ms)

empty-IsInverse : (d : Design) → IsInverse (empty_map d)
empty-IsInverse d t m = rw (targets-no_callers d.methods m)

-- What a `MethodMap` knows of a design.
pub record Describes (d : Design) (mm : MethodMap) : Type 0 where
  pub calls :
      (t m : ℕ)
      → contains (targets mm.methods_by_transaction t) m
        ≡ (contains d.transactions t && visited (visits (fuel_of d) d t root_info) m)
  pub inverse : IsInverse mm
  pub infos :
      (t m : ℕ)
      → In t d.transactions
      → calls_by mm.info_by_call t m ≡ infos_of (visits (fuel_of d) d t root_info) m
  pub transactions : keys mm.methods_by_transaction ≡ d.transactions
  pub methods : keys mm.transactions_by_method ≡ d.methods
  pub parents_lem : mm.method_parents ≡ parents d (d.methods ++ d.transactions)

-- If the checks pass, the constructor succeeds. Then `methods_by_transaction` and
-- `transactions_by_method` are inverse to each other, have the transactions and the methods for
-- keys, and hold exactly the calls of the call trees; `info_by_call` lists the calls that a
-- transaction makes to a method in the order of the recursion.
pub method_map-Describes :
    (d : Design)
    → KnownMethods d
    → distinct d.transactions ≡ true
    → validate_all d (d.methods ++ d.transactions) ≡ ok tt
    → (mm : MethodMap) × (method_map d ≡ ok mm) × Describes d mm
unfolding method_map
method_map-Describes d known once valid =
    let (mm, e, f) =
      transactions_fill d known d.transactions (empty_map d)
        (λ t m.
          validate_all-ok d known (d.methods ++ d.transactions) valid t
            (ground (arith, contains-append d.methods d.transactions t)))
        once (keys-no_callers d.methods) (empty-IsInverse d) in
    (
      record mm { method_parents = parents d (d.methods ++ d.transactions) },
      rw (valid, e),
      record {
        calls = f.calls;
        inverse = f.inverse;
        infos = λ t m h. rw (f.infos t m, h);
        transactions = f.same_transactions;
        methods = f.same_methods ∙ keys-no_callers d.methods;
        parents_lem = refl;
      },
    )

-- What the constructor returns describes the design.
pub method_map-ok :
    (d : Design) (mm : MethodMap)
    → KnownMethods d
    → distinct d.transactions ≡ true
    → method_map d ≡ ok mm
    → (validate_all d (d.methods ++ d.transactions) ≡ ok tt) × Describes d mm
unfolding method_map
method_map-ok d mm known once h =
    let (u, valid, h') = bind-eq-ok (validate_all d (d.methods ++ d.transactions)) _ h in
    let (out, e, desc) = method_map-Describes d known once valid in
    let same : mm ≡ out = cc in (valid, rw same desc)
