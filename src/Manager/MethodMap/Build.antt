-- ===== src/Manager/MethodMap/Build.antt =====
-- What the dictionaries of a `MethodMap` hold.
use transactron.Prelude.{
  ℕ, Bool, true, false, ◌&&◌, ◌||◌, List, [], ◌∷◌, ◌++◌, append_assoc, append-nil, ◌==◌, contains,
  contains-append, In, arith, ◌≡◌, refl, ap, ◌∙◌, inl, inr, Bool-cases,
}
use transactron.Graph.{Graph, keys}
use transactron.Manager.MethodMap.{CallInfo, ok, Visit, MethodMap, targets, append_at, record_visit}
use transactron.Manager.MethodMap.Visits.{fold}

pub targets-append_at :
    (g : Graph) (k v j x : ℕ)
    → contains (targets (append_at g k v) j) x
      ≡ (contains (targets g j) x || (contains (keys g) k && (k == j && v == x)))
targets-append_at [] k v j x = refl
targets-append_at ((i, ns) ∷ g) k v j x =
    ground (arith, targets-append_at g k v j x, contains-append ns (v ∷ []) x)

pub keys-append_at : (g : Graph) (k v : ℕ) → keys (append_at g k v) ≡ keys g
keys-append_at [] k v = refl
keys-append_at ((i, ns) ∷ g) k v = ground (arith, keys-append_at g k v)

pub targets-new_key :
    (g : Graph) (t j x : ℕ) → contains (targets (g ++ (t, []) ∷ []) j) x ≡ contains (targets g j) x
targets-new_key [] t j x = ground arith
targets-new_key ((i, ns) ∷ g) t j x = ground (arith, targets-new_key g t j x)

pub keys-new_key : (g : Graph) (t : ℕ) → keys (g ++ (t, []) ∷ []) ≡ keys g ++ t ∷ []
keys-new_key [] t = refl
keys-new_key ((i, ns) ∷ g) t = ap (λ ks. i ∷ ks) (keys-new_key g t)

-- The method is called in the list.
abbrev pub visited : List Visit → ℕ → Bool
visited [] n = false
visited ((m, i) ∷ vs) n = m == n || visited vs n

abbrev pub tagged : ℕ → List Visit → List (ℕ × Visit)
tagged t [] = []
tagged t (v ∷ vs) = (t, v) ∷ tagged t vs

-- The two dictionaries between transactions and methods are inverse to each other.
abbrev pub IsInverse : MethodMap → Type 0
IsInverse mm =
    (t m : ℕ)
    → contains (targets mm.methods_by_transaction t) m
      ≡ contains (targets mm.transactions_by_method m) t

pub record Records (t : ℕ) (vs : List Visit) (mm out : MethodMap) : Type 0 where
  pub infos : out.info_by_call ≡ mm.info_by_call ++ tagged t vs
  pub calls :
      (u n : ℕ)
      → contains (targets out.methods_by_transaction u) n
        ≡ (contains (targets mm.methods_by_transaction u) n || (t == u && visited vs n))
  pub inverse : IsInverse out
  pub same_transactions : keys out.methods_by_transaction ≡ keys mm.methods_by_transaction
  pub same_methods : keys out.transactions_by_method ≡ keys mm.transactions_by_method

visit-Records :
    (t m : ℕ) (i : CallInfo) (mm : MethodMap)
    → In t (keys mm.methods_by_transaction)
    → In m (keys mm.transactions_by_method)
    → IsInverse mm
    → (out : MethodMap) × (record_visit t (m, i) mm ≡ ok out) × Records t ((m, i) ∷ []) mm out
unfolding record_visit
visit-Records t m i mm kt km inv =
    elim (Bool-cases (contains (targets mm.methods_by_transaction t) m)) [
      | inl old ↦ (
        record mm { info_by_call = mm.info_by_call ++ (t, (m, i)) ∷ [] },
        rw old,
        record {
          infos = refl;
          calls = λ u n. elim (Bool-cases (t == u && m == n)) [
            | inl same ↦
                let eu : u ≡ t = ground arith in
                let en : n ≡ m = ground arith in rw (eu, en) (ground arith)
            | inr other ↦ ground arith
          ];
          inverse = inv;
          same_transactions = refl;
          same_methods = refl;
        },
      )
      | inr new ↦ (
        record mm {
          methods_by_transaction = append_at mm.methods_by_transaction t m;
          transactions_by_method = append_at mm.transactions_by_method m t;
          info_by_call = mm.info_by_call ++ (t, (m, i)) ∷ [];
        },
        rw (new, km),
        record {
          infos = refl;
          calls = λ u n. ground (arith, targets-append_at mm.methods_by_transaction t m u n);
          inverse = λ u n. ground (
            arith,
            targets-append_at mm.methods_by_transaction t m u n,
            targets-append_at mm.transactions_by_method m t n u,
            inv u n,
          );
          same_transactions = keys-append_at mm.methods_by_transaction t m;
          same_methods = keys-append_at mm.transactions_by_method m t;
        },
      )
    ]

pub fold-Records :
    (t : ℕ) (vs : List Visit) (mm : MethodMap)
    → In t (keys mm.methods_by_transaction)
    → ((m : ℕ) → visited vs m ≡ true → In m (keys mm.transactions_by_method))
    → IsInverse mm
    → (out : MethodMap) × (fold (record_visit t) vs mm ≡ ok out) × Records t vs mm out
fold-Records t [] mm kt km inv = (
  mm,
  refl,
  record {
    infos = rw append-nil;
    calls = λ u n. ground arith;
    inverse = inv;
    same_transactions = refl;
    same_methods = refl;
  },
)
fold-Records t ((m, i) ∷ vs) mm kt km inv =
    let (mid, e, r) = visit-Records t m i mm kt (km m (ground arith)) inv in
    let (out, e', r') =
      fold-Records t vs mid (rw r.same_transactions kt)
        (λ n h. rw r.same_methods (km n (ground arith))) r.inverse in
    (
      out,
      rw e e',
      record {
        infos = rw (r'.infos, r.infos, append_assoc) refl;
        calls = λ u n. ground (arith, r.calls u n, r'.calls u n);
        inverse = r'.inverse;
        same_transactions = r'.same_transactions ∙ r.same_transactions;
        same_methods = r'.same_methods ∙ r.same_methods;
      },
    )
