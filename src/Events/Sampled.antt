-- ===== src/Events/Sampled.antt =====
-- From the emission sites of a design through the sampled records back to the events.
use transactron.Prelude.{
  ℕ, suc, ◌+◌, ◌/◌, ◌%◌, ◌^◌, bit, Bool, true, not, Option, none, some, List, [], ◌∷◌, ◌++◌, map,
  length, ◌==◌, ==_refl, if◌then◌else◌, In, ◌≡◌, refl, sym, ap, subst, ◌∙◌, arith, inl, inr,
  Bool-cases,
}
use native.Mathlib.Nat.{zero-div}
use transactron.Events.{
  int, Value, EventClass, Event, done, HwEvent, EmittedEvent, top_emit, EventSiteSchema,
  site_schema, schema_from_records, sample_sites, sample, DecodedEvent, get_elem?, get_event_class,
  zip_values, site_classes, decode, decode_all, decoded,
}
use transactron.Events.Fields.{Shows, IsOf, from_raw_lem}

-- An event at its source, with the values that the dynamic fields show in the cycle.
pub record Emission : Type 0 where
  pub source_name : ℕ
  pub hw : HwEvent
  pub trigger : ℕ
  pub shown : ℕ → Value

abbrev pub emitted : Emission → EmittedEvent
emitted e = top_emit e.source_name e.hw e.trigger

-- The event with its values.
abbrev pub event_of : Emission → Event
event_of e = record {
  cls = e.hw.cls;
  fields =
      map (λ n. (n, e.shown n)) e.hw.cls.dynamic_fields
      ++ map (λ n. (n, e.hw.statics n)) e.hw.cls.static_fields;
}

-- The events of the sites whose trigger is set, in the order of the sites.
abbrev pub fired : ℕ → (ℕ → ℕ) → List Emission → List DecodedEvent
fired cycle signal [] = []
fired cycle signal (e ∷ es) =
    let rest = fired cycle signal es in
    if signal e.trigger == 0
    then rest
    else record { cycle = cycle; site = site_schema (emitted e); event = event_of e } ∷ rest

-- Each class is registered under its name, the signals show the values of the dynamic fields, and
-- the static fields have values of their types.
abbrev pub Faithful : (ℕ → Option EventClass) → (ℕ → ℕ) → List Emission → Type 0
Faithful registry signal [] = Unit
Faithful registry signal (e ∷ es) =
    (registry e.hw.cls.event_name ≡ some e.hw.cls)
    × (((n : ℕ)
          → In n e.hw.cls.dynamic_fields
          → Shows (e.hw.cls.field_types n) (e.shown n) (signal (e.hw.dynamics n)))
        × (((n : ℕ) → In n e.hw.cls.static_fields → IsOf (e.hw.cls.field_types n) (e.hw.statics n))
            × Faithful registry signal es))

abbrev classes_of : List Emission → List EventClass
classes_of [] = []
classes_of (e ∷ es) = e.hw.cls ∷ classes_of es

abbrev sites_of : List Emission → List EventSiteSchema
sites_of es = schema_from_records (map emitted es)

site_classes-sites_of :
    (registry : ℕ → Option EventClass) (signal : ℕ → ℕ) (es : List Emission)
    → Faithful registry signal es
    → site_classes registry (sites_of es) ≡ done (classes_of es)
site_classes-sites_of registry signal [] f = refl
site_classes-sites_of registry signal (e ∷ es) (known, (shows, (of_type, f))) =
    rw (known, site_classes-sites_of registry signal es f, site_classes, get_event_class) refl

names_back :
    {A : Type 0} (f : ℕ → A) (names : List ℕ)
    → map (λ (field : ℕ × A). field.0) (map (λ n. (n, f n)) names) ≡ names
names_back f [] = refl
names_back f (n ∷ names) = ap (λ ns. n ∷ ns) (names_back f names)

zip_back :
    (f signal : ℕ → ℕ) (names : List ℕ)
    → zip_values names (map (λ (field : ℕ × ℕ). signal field.1) (map (λ n. (n, f n)) names))
      ≡ map (λ n. (n, int (signal (f n)))) names
zip_back f signal [] = refl
zip_back f signal (n ∷ names) = ap (λ d. (n, int (signal (f n))) ∷ d) (zip_back f signal names)

length_back :
    (f signal : ℕ → ℕ) (names : List ℕ)
    → length (map (λ (field : ℕ × ℕ). signal field.1) (map (λ n. (n, f n)) names)) ≡ length names
length_back f signal [] = refl
length_back f signal (n ∷ names) = ap suc (length_back f signal names)

-- The trigger of each site fires as the sampler reads it.
abbrev FiresAs : (ℕ → ℕ) → (ℕ → ℕ → Bool) → ℕ → List Emission → Type 0
FiresAs signal fires i [] = Unit
FiresAs signal fires i (e ∷ es) =
    (fires i (signal e.trigger) ≡ not (signal e.trigger == 0)) × FiresAs signal fires (i + 1) es

-- The packed vector has the triggers as its bits.
abbrev pub IsPacked : ℕ → (ℕ → ℕ) → ℕ → List Emission → Type 0
IsPacked packed signal i [] = Unit
IsPacked packed signal i (e ∷ es) =
    (packed / 2 ^ i % 2 ≡ bit (not (signal e.trigger == 0))) × IsPacked packed signal (i + 1) es

module _ (registry : ℕ → Option EventClass) (cycle : ℕ) (signal : ℕ → ℕ) where
  module _ (sites : List EventSiteSchema) (classes : List EventClass) where
    decode-emitted :
        (i : ℕ) (e : Emission) (es : List Emission)
        → Faithful registry signal (e ∷ es)
        → get_elem? sites i ≡ some (site_schema (emitted e))
        → get_elem? classes i ≡ some e.hw.cls
        → decode sites classes (record {
          cycle = cycle;
          site = i;
          values = map (λ (field : ℕ × ℕ). signal field.1) (emitted e).fields;
        })
          ≡ done (record { cycle = cycle; site = site_schema (emitted e); event = event_of e })
    unfolding decode
    decode-emitted i e es (known, (shows, (of_type, f))) site cls =
        let names : List ℕ = e.hw.cls.dynamic_fields in
        let same_length : (length (map (λ (field : ℕ × ℕ). signal field.1) (emitted e).fields)
              == length (site_schema (emitted e)).fields)
            ≡ true =
          rw (length_back e.hw.dynamics signal names, ap length (names_back e.hw.dynamics names))
            (==_refl (length names)) in
        rw
          (
            site,
            cls,
            same_length,
            names_back e.hw.dynamics names,
            zip_back e.hw.dynamics signal names,
            from_raw_lem e.hw.cls (λ n. signal (e.hw.dynamics n)) e.shown e.hw.statics shows
                of_type,
            decode,
          )
          refl

    abbrev At : ℕ → List Emission → Type 0
    At i es =
        ((j : ℕ) → get_elem? sites (i + j) ≡ get_elem? (sites_of es) j)
        × ((j : ℕ) → get_elem? classes (i + j) ≡ get_elem? (classes_of es) j)

    decode-sampled :
        (fires : ℕ → ℕ → Bool) (i : ℕ) (es : List Emission)
        → Faithful registry signal es
        → FiresAs signal fires i es
        → At i es
        → decode_all sites classes (sample_sites cycle signal fires i (map emitted es))
          ≡ done (fired cycle signal es)
    decode-sampled fires i [] f agrees at_i = refl
    decode-sampled fires i (e ∷ es) f (agree, agrees) (site, cls) =
        let here : i + 0 ≡ i = omega arith in
        let next : (j : ℕ) → i + 1 + j ≡ i + suc j = λ j. omega arith in
        let rest = decode-sampled fires (i + 1) es f.1.1.1 agrees (
          λ j. ap (get_elem? sites) (next j) ∙ site (suc j),
          λ j. ap (get_elem? classes) (next j) ∙ cls (suc j),
        ) in
        let first =
          decode-emitted i e es f (ap (get_elem? sites) (sym here) ∙ site 0)
            (ap (get_elem? classes) (sym here) ∙ cls 0) in
        elim (Bool-cases (signal e.trigger == 0)) [
          | inl quiet ↦ rw (agree, quiet, sample_sites) rest
          | inr fire ↦ rw (agree, fire, sample_sites, first, rest, decode_all) refl
        ]

At-start :
    (registry : ℕ → Option EventClass) (cycle : ℕ) (signal : ℕ → ℕ) (es : List Emission)
    → At registry cycle signal (sites_of es) (classes_of es) 0 es
At-start registry cycle signal es = (
  λ j. let same : 0 + j ≡ j = omega arith in ap (get_elem? (sites_of es)) same,
  λ j. let same : 0 + j ≡ j = omega arith in ap (get_elem? (classes_of es)) same,
)

trigger_read :
    (signal : ℕ → ℕ) (i : ℕ) (es : List Emission)
    → FiresAs signal (λ k trigger. not (trigger == 0)) i es
trigger_read signal i [] = tt
trigger_read signal i (e ∷ es) = (refl, trigger_read signal (i + 1) es)

bit_read :
    (packed : ℕ) (signal : ℕ → ℕ) (i : ℕ) (es : List Emission)
    → IsPacked packed signal i es
    → FiresAs signal (λ k trigger. packed / 2 ^ k % 2 == 1) i es
bit_read packed signal i [] p = tt
bit_read packed signal i (e ∷ es) (here, p) =
    (ground (arith, here), bit_read packed signal (i + 1) es p)

none_fired :
    (cycle : ℕ) (signal : ℕ → ℕ) (i : ℕ) (es : List Emission)
    → IsPacked 0 signal i es
    → fired cycle signal es ≡ []
none_fired cycle signal i [] p = refl
none_fired cycle signal i (e ∷ es) (here, p) =
    let zero_bit : 0 / 2 ^ i ≡ 0 = zero-div (2 ^ i) in
    let quiet : (signal e.trigger == 0) ≡ true = ground (arith, here, zero_bit) in
    rw quiet (none_fired cycle signal (i + 1) es p)

-- A packed vector of the triggers, if the design has one.
abbrev pub IsVector : Option ℕ → (ℕ → ℕ) → List Emission → Type 0
IsVector none signal es = Unit
IsVector (some packed) signal es = IsPacked packed signal 0 es

-- The records that the sampler takes in a cycle decode to the events of the sites whose trigger is
-- set, in the order of the sites, with the values that the signals show and the values of the static
-- fields. Every class is registered under its name, the signals show values of the fields' types, and
-- a packed vector of triggers has them as its bits.
pub decoded-sample :
    (registry : ℕ → Option EventClass) (cycle : ℕ) (signal : ℕ → ℕ) (packed : Option ℕ)
    (es : List Emission)
    → Faithful registry signal es
    → IsVector packed signal es
    → decoded registry
        (schema_from_records (map emitted es))
        (sample cycle signal packed (map emitted es))
      ≡ done (fired cycle signal es)
unfolding decoded sample
decoded-sample registry cycle signal none es f p = rw (site_classes-sites_of registry signal es f) (
    decode-sampled registry cycle signal (sites_of es) (classes_of es)
      (λ i trigger. not (trigger == 0)) 0 es f (trigger_read signal 0 es)
      (At-start registry cycle signal es))
decoded-sample registry cycle signal (some packed) es f p = elim (Bool-cases (packed == 0)) [
  | inl quiet ↦
      let zero_packed : packed ≡ 0 = ground arith in
      rw (site_classes-sites_of registry signal es f, quiet)
        (ap done
          (sym (none_fired cycle signal 0 es (subst (λ n. IsPacked n signal 0 es) zero_packed p))))
  | inr some_fire ↦
      rw (site_classes-sites_of registry signal es f, some_fire)
        (decode-sampled registry cycle signal (sites_of es) (classes_of es)
          (λ i trigger. packed / 2 ^ i % 2 == 1) 0 es f (bit_read packed signal 0 es p)
          (At-start registry cycle signal es))
]
