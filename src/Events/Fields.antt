-- ===== src/Events/Fields.antt =====
-- The fields of one event: what `from_raw` makes of the raw values.
use transactron.Prelude.{
  ℕ, zero, suc, ◌<◌, bit, Bool, true, false, some, List, [], ◌∷◌, ◌++◌, map, length, get_or, ◌==◌,
  contains, In, ◌≡◌, refl, sym, ap, ◌∙◌, arith, inl, inr, Bool-cases,
}
use transactron.Graph.Search.{distinct}
use transactron.Dependencies.Entries.{lookup}
use transactron.Events.{
  Raw, int, truth, FieldType, other, boolean, enumeration, Value, plain, member, EventClass, done,
  index_of, convert_field, static_to_raw, convert_all, from_raw,
}

-- A signal with the number `raw` shows the value.
abbrev pub Shows : FieldType → Value → ℕ → Type 0
Shows other v raw = v ≡ plain (int raw)
Shows boolean v raw = (b : Bool) × (v ≡ plain (truth b)) × (raw ≡ bit b)
Shows (enumeration vs) v raw =
    (k : ℕ) × (v ≡ member vs k) × (raw ≡ get_or vs k 0) × (k < length vs) × (distinct vs ≡ true)

-- The value is one of the type.
abbrev pub IsOf : FieldType → Value → Type 0
IsOf other v = (raw : Raw) × (v ≡ plain raw)
IsOf boolean v = (b : Bool) × (v ≡ plain (truth b))
IsOf (enumeration vs) v = (k : ℕ) × (v ≡ member vs k) × (k < length vs) × (distinct vs ≡ true)

contains-get_or : (vs : List ℕ) (k : ℕ) → k < length vs → contains vs (get_or vs k 0) ≡ true
contains-get_or [] k h = absurd (omega arith)
contains-get_or (x ∷ vs) zero h = ground arith
contains-get_or (x ∷ vs) (suc k) h = ground (arith, contains-get_or vs k)

index_of-get_or :
    (vs : List ℕ) (k : ℕ)
    → k < length vs
    → distinct vs ≡ true
    → index_of (get_or vs k 0) vs ≡ some k
index_of-get_or [] k h d = absurd (omega arith)
index_of-get_or (x ∷ vs) zero h d = ground arith
index_of-get_or (x ∷ vs) (suc k) h d = ground (arith, index_of-get_or vs k, contains-get_or vs k)

convert_field-member :
    (vs : List ℕ) (k : ℕ)
    → k < length vs
    → distinct vs ≡ true
    → convert_field (enumeration vs) (int (get_or vs k 0)) ≡ done (member vs k)
convert_field-member vs k h d = let found = index_of-get_or vs k h d in cc

convert_field-Shows :
    (type : FieldType) (v : Value) (raw : ℕ)
    → Shows type v raw
    → convert_field type (int raw) ≡ done v
convert_field-Shows other v raw e = ap done (sym e)
convert_field-Shows boolean v raw (true, e, r) = rw (e, r) refl
convert_field-Shows boolean v raw (false, e, r) = rw (e, r) refl
convert_field-Shows (enumeration vs) v raw (k, e, r, lt, d) =
    ap (λ n. convert_field (enumeration vs) (int n)) r
    ∙ convert_field-member vs k lt d
    ∙ ap done (sym e)

convert_field-IsOf :
    (type : FieldType) (v : Value) → IsOf type v → convert_field type (static_to_raw v) ≡ done v
convert_field-IsOf other v (raw, e) = rw e refl
convert_field-IsOf boolean v (b, e) = rw e refl
convert_field-IsOf (enumeration vs) v (k, e, lt, d) =
    ap (λ x. convert_field (enumeration vs) (static_to_raw x)) e
    ∙ convert_field-member vs k lt d
    ∙ ap done (sym e)

lookup-table :
    {A : Type 0} (f : ℕ → A) (names : List ℕ) (name : ℕ)
    → In name names
    → lookup name (map (λ n. (n, f n)) names) ≡ some (f name)
lookup-table f [] name m = cc
lookup-table f (n ∷ names) name m = elim (Bool-cases (n == name)) [
  | inl same ↦ let eq : n ≡ name = ground arith in rw same (ap (λ k. some (f k)) eq)
  | inr later ↦ rw later (lookup-table f names name (ground arith))
]

convert_all_lem :
    (cls : EventClass) (raw : ℕ → Raw) (value : ℕ → Value) (all_names names : List ℕ)
    → ((name : ℕ) → In name names → In name all_names)
    → ((name : ℕ)
        → In name names
        → convert_field (cls.field_types name) (raw name) ≡ done (value name))
    → convert_all cls names (map (λ n. (n, raw n)) all_names) ≡ done (map (λ n. (n, value n)) names)
convert_all_lem cls raw value all_names [] inside typed = refl
convert_all_lem cls raw value all_names (name ∷ names) inside typed =
    rw
      (
        lookup-table raw all_names name (inside name (ground arith)),
        typed name (ground arith),
        convert_all_lem cls raw value all_names names (λ n m. inside n (ground (arith, m)))
            (λ n m. typed n (ground (arith, m))),
        convert_all,
      )
      refl

-- What `from_raw` gives back, from a signal for each dynamic field and the raw static fields.
pub from_raw_lem :
    (cls : EventClass) (raw : ℕ → ℕ) (shown statics : ℕ → Value)
    → ((name : ℕ)
        → In name cls.dynamic_fields
        → Shows (cls.field_types name) (shown name) (raw name))
    → ((name : ℕ) → In name cls.static_fields → IsOf (cls.field_types name) (statics name))
    → from_raw cls
        (map (λ n. (n, int (raw n))) cls.dynamic_fields)
        (map (λ n. (n, static_to_raw (statics n))) cls.static_fields)
      ≡ done (record {
        cls = cls;
        fields =
            map (λ n. (n, shown n)) cls.dynamic_fields
            ++ map (λ n. (n, statics n)) cls.static_fields;
      })
unfolding from_raw
from_raw_lem cls raw shown statics shows of_type =
    rw
      (
        convert_all_lem cls (λ n. int (raw n)) shown cls.dynamic_fields cls.dynamic_fields
            (λ n m. m)
            (λ n m. convert_field-Shows (cls.field_types n) (shown n) (raw n) (shows n m)),
        convert_all_lem cls (λ n. static_to_raw (statics n)) statics cls.static_fields
            cls.static_fields (λ n m. m)
            (λ n m. convert_field-IsOf (cls.field_types n) (statics n) (of_type n m)),
        from_raw,
      )
      refl
