-- ===== src/Events/Tests.antt =====
-- Two sites of one class with an Enum field, of which the second one fires.
use transactron.Prelude.{
  ℕ, Option, none, some, List, [], ◌∷◌, map, ◌==◌, if◌then◌else◌, In, ◌≡◌, refl, arith,
}
use transactron.Events.{
  int, other, enumeration, plain, member, EventClass, done, schema_from_records, sample, decoded,
}
use transactron.Events.Fields.{Shows, IsOf}
use transactron.Events.Sampled.{Emission, emitted, fired, Faithful, decoded-sample}

-- The field 0 is an Enum with the values 4 and 6, and the field 1 is a static number.
abbrev stage : EventClass
stage = record {
  event_name = 7;
  dynamic_fields = 0 ∷ [];
  static_fields = 1 ∷ [];
  field_types = λ n. if n == 0 then enumeration (4 ∷ 6 ∷ []) else other;
}

abbrev registry : ℕ → Option EventClass
registry name = if name == 7 then some stage else none

abbrev at_lane : ℕ → ℕ → Emission
at_lane lane trigger = record {
  source_name = 3;
  hw = record { cls = stage; dynamics = λ n. 20; statics = λ n. plain (int lane) };
  trigger = trigger;
  shown = λ n. member (4 ∷ 6 ∷ []) 1;
}

abbrev sites : List Emission
sites = at_lane 0 10 ∷ at_lane 1 11 ∷ []

abbrev signal : ℕ → ℕ
signal s = if s == 20 then 6 else (if s == 11 then 1 else 0)

shows :
    (lane trigger n : ℕ)
    → In n (0 ∷ [])
    → Shows (stage.field_types n) ((at_lane lane trigger).shown n) (signal 20)
shows lane trigger n m =
    let first : n ≡ 0 = ground arith in rw first (1, refl, refl, omega arith, refl)

statics-IsOf :
    (lane trigger n : ℕ)
    → In n (1 ∷ [])
    → IsOf (stage.field_types n) ((at_lane lane trigger).hw.statics n)
statics-IsOf lane trigger n m = let second : n ≡ 1 = ground arith in rw second (int lane, refl)

sites-Faithful : Faithful registry signal sites
sites-Faithful =
    (refl, (shows 0 10, (statics-IsOf 0 10, (refl, (shows 1 11, (statics-IsOf 1 11, tt))))))

decoded-sample_example :
    decoded registry
      (schema_from_records (map emitted sites))
      (sample 5 signal (some 2) (map emitted sites))
    ≡ done (fired 5 signal sites)
decoded-sample_example =
    decoded-sample registry 5 signal (some 2) sites sites-Faithful (refl, (refl, tt))
