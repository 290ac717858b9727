-- ===== src/Events.antt =====
-- Hardware events, of transactron/evlog: event.py (classes of events), emit.py (EventSource.top_emit),
-- schema.py (schema_from_records), sampler.py (GeneratedEvLogSampler) and log.py (EventDecoder).
-- Names and signals are numbers; the signals of a cycle are given by their values. Widths, signs and
-- source locations, which decoding does not read, are left out, and so are the files.
pub mod Fields
pub mod Sampled
mod Tests
use transactron.Prelude.{
  ℕ, zero, suc, ◌+◌, ◌/◌, ◌%◌, ◌^◌, Bool, true, false, not, Option, none, some, List, [], ◌∷◌, ◌++◌,
  map, length, get_or, ◌==◌, if◌then◌else◌,
}
use transactron.Dependencies.Entries.{Dict, lookup}

-- What is stored of a field: an integer, or a truth value in JSON.
pub data Raw : Type 0 where
  int : ℕ → Raw
  truth : Bool → Raw

-- A class of `enum.Enum` is the list of its members' values, which are distinct.
pub data FieldType : Type 0 where
  other boolean : FieldType
  enumeration : List ℕ → FieldType

pub data Value : Type 0 where
  plain : Raw → Value
  member : List ℕ → ℕ → Value

pub record EventClass : Type 0 where
  pub event_name : ℕ
  pub dynamic_fields : List ℕ
  pub static_fields : List ℕ
  pub field_types : ℕ → FieldType

pub record Event : Type 0 where
  pub cls : EventClass
  pub fields : Dict Value

-- The exceptions of decoding; `no_member` is what an Enum raises.
pub data DecodeError : Type 0 where
  unknown_event missing_field no_site : ℕ → DecodeError
  wrong_length no_member : DecodeError

pub data Attempt {ℓ} (A : Type ℓ) : Type ℓ where
  done : A → Attempt A
  failed : DecodeError → Attempt A

abbrev pub and_then {ℓ κ} : {A : Type ℓ} {B : Type κ} → Attempt A → (A → Attempt B) → Attempt B
and_then (done a) f = f a
and_then (failed e) f = failed e

-- The member with a value.
abbrev pub index_of : ℕ → List ℕ → Option ℕ
index_of v [] = none
index_of v (x ∷ xs) =
    let rest = index_of v xs in
    if x == v then some 0 else (elim rest [ none ↦ none | some k ↦ some (suc k) ])

-- Python's `True` is 1.
abbrev pub as_int : Raw → ℕ
as_int (int n) = n
as_int (truth b) = if b then 1 else 0

abbrev pub convert_field : FieldType → Raw → Attempt Value
convert_field other raw = done (plain raw)
convert_field boolean (int n) = done (plain (truth (not (n == 0))))
convert_field boolean (truth b) = done (plain (truth b))
convert_field (enumeration vs) raw = elim (index_of (as_int raw) vs) [
  | none ↦ failed no_member
  | some k ↦ done (member vs k)
]

abbrev pub static_to_raw : Value → Raw
static_to_raw (plain raw) = raw
static_to_raw (member vs k) = int (get_or vs k 0)

-- One of the loops of `from_raw`.
abbrev pub convert_all : EventClass → List ℕ → Dict Raw → Attempt (Dict Value)
convert_all cls [] raws = done []
convert_all cls (name ∷ names) raws =
    let rest = convert_all cls names raws in
    elim (lookup name raws) [
      | none ↦ failed (missing_field name)
      | some raw ↦
          and_then (convert_field (cls.field_types name) raw)
            (λ v. and_then rest (λ fields. done ((name, v) ∷ fields)))
    ]

unfoldable pub from_raw : EventClass → Dict Raw → Dict Raw → Attempt Event
from_raw cls dynamics statics = and_then (convert_all cls cls.dynamic_fields dynamics) (λ ds.
    and_then (convert_all cls cls.static_fields statics)
      (λ ss. done (record { cls = cls; fields = ds ++ ss })))

-- An instance made by `hw`: signals in the dynamic fields, values in the static ones.
pub record HwEvent : Type 0 where
  pub cls : EventClass
  pub dynamics : ℕ → ℕ
  pub statics : ℕ → Value

pub record EmittedEvent : Type 0 where
  pub source_name : ℕ
  pub event_type : EventClass
  pub trigger : ℕ
  pub fields : Dict ℕ
  pub statics : Dict Raw

-- `top_emit` of an event whose fields are of the right kind, with event logging enabled.
abbrev pub top_emit : ℕ → HwEvent → ℕ → EmittedEvent
top_emit source ev trigger = record {
  source_name = source;
  event_type = ev.cls;
  trigger = trigger;
  fields = map (λ name. (name, ev.dynamics name)) ev.cls.dynamic_fields;
  statics = map (λ name. (name, static_to_raw (ev.statics name))) ev.cls.static_fields;
}

pub record EventSiteSchema : Type 0 where
  pub source_name : ℕ
  pub event_name : ℕ
  pub fields : List ℕ
  pub statics : Dict Raw

abbrev pub site_schema : EmittedEvent → EventSiteSchema
site_schema rec = record {
  source_name = rec.source_name;
  event_name = rec.event_type.event_name;
  fields = map (λ field. field.0) rec.fields;
  statics = rec.statics;
}

abbrev pub schema_from_records : List EmittedEvent → List EventSiteSchema
schema_from_records = map site_schema

-- A raw record: the cycle, the number of the site and the values.
pub record RawEvent : Type 0 where
  pub cycle : ℕ
  pub site : ℕ
  pub values : List ℕ

-- Both loops of `sample`, from the site `i` on: `fires` reads a bit of the packed triggers or the
-- trigger of the site. The readers give the signals of the sites.
abbrev pub sample_sites : ℕ → (ℕ → ℕ) → (ℕ → ℕ → Bool) → ℕ → List EmittedEvent → List RawEvent
sample_sites cycle signal fires i [] = []
sample_sites cycle signal fires i (rec ∷ recs) =
    let rest = sample_sites cycle signal fires (i + 1) recs in
    if fires i (signal rec.trigger)
    then record { cycle = cycle; site = i; values = map (λ field. signal field.1) rec.fields }
      ∷ rest
    else rest

unfoldable pub sample : ℕ → (ℕ → ℕ) → Option ℕ → List EmittedEvent → List RawEvent
sample cycle signal none recs = sample_sites cycle signal (λ i trigger. not (trigger == 0)) 0 recs
sample cycle signal (some packed) recs =
    if packed == 0
    then []
    else sample_sites cycle signal (λ i trigger. packed / 2 ^ i % 2 == 1) 0 recs

pub record DecodedEvent : Type 0 where
  pub cycle : ℕ
  pub site : EventSiteSchema
  pub event : Event

abbrev pub get_elem? {ℓ} : {A : Type ℓ} → List A → ℕ → Option A
get_elem? [] i = none
get_elem? (x ∷ xs) zero = some x
get_elem? (x ∷ xs) (suc i) = get_elem? xs i

-- `get_event_class`, by the registry.
abbrev pub get_event_class : (ℕ → Option EventClass) → ℕ → Attempt EventClass
get_event_class registry name = elim (registry name) [
  | none ↦ failed (unknown_event name)
  | some cls ↦ done cls
]

abbrev pub zip_values : List ℕ → List ℕ → Dict Raw
zip_values [] values = []
zip_values (name ∷ names) [] = []
zip_values (name ∷ names) (value ∷ values) = (name, int value) ∷ zip_values names values

-- The constructor of `EventDecoder`: the class of each site.
abbrev pub site_classes : (ℕ → Option EventClass) → List EventSiteSchema → Attempt (List EventClass)
site_classes registry [] = done []
site_classes registry (site ∷ sites) =
    and_then (get_event_class registry site.event_name)
      (λ cls. and_then (site_classes registry sites) (λ classes. done (cls ∷ classes)))

unfoldable pub decode : List EventSiteSchema → List EventClass → RawEvent → Attempt DecodedEvent
unfolding from_raw
decode sites classes raw = elim (get_elem? sites raw.site) [
  | none ↦ failed (no_site raw.site)
  | some site ↦
      if length raw.values == length site.fields
      then (elim (get_elem? classes raw.site) [
        | none ↦ failed (no_site raw.site)
        | some cls ↦
            and_then (from_raw cls (zip_values site.fields raw.values) site.statics)
              (λ event. done (record { cycle = raw.cycle; site = site; event = event }))
      ])
      else failed wrong_length
]

abbrev pub decode_all :
    List EventSiteSchema → List EventClass → List RawEvent → Attempt (List DecodedEvent)
decode_all sites classes [] = done []
decode_all sites classes (raw ∷ raws) =
    and_then (decode sites classes raw)
      (λ event. and_then (decode_all sites classes raws) (λ events. done (event ∷ events)))

-- `EventLog.decoded`
unfoldable pub decoded :
    (ℕ → Option EventClass) → List EventSiteSchema → List RawEvent → Attempt (List DecodedEvent)
unfolding decode
decoded registry sites raws =
    and_then (site_classes registry sites) (λ classes. decode_all sites classes raws)
