-- ===== src/Ingestion/Admission/Storable.antt =====
-- What an event is that every check of its fields let through.
use counted.Base.{
  ℕ, ◌≤◌, true, false, List, Option, none, some, String, ◌≡◌, refl, arith, length, All, is_empty,
}
use counted.Base.Int.{◌≤ℤ◌, ◌-ℤ◌, pos, -ℤ_parts}
use counted.Base.Units.{units}
use counted.Kernel.Ids.{is_id_shape}
use counted.Kernel.Instant.{Instant, between}
use counted.Kernel.Result.{Result, ok}
use counted.Kernel.Result.Laws.{bind_ok, ok_injective}
use counted.Ingestion.Errors.{EventAdmissionError}
use counted.Ingestion.SystemProperties.{normalise_system_properties}
use counted.Ingestion.Batch.{
  Value, PropertyValue, of_text, Fields, no_fields, field, IngestBatch, Platform, field_count, get,
}
use counted.Ingestion.EventName.{check_event_name, check_agent_vocabulary, is_unusable}
use counted.Ingestion.Person.{admit_optional_person}
use counted.Ingestion.Person.Laws.{IsPerson, admit_optional_person-IsPerson}
use counted.Ingestion.Admission.{
  AdmissionPolicy, AdmittedEvent, check_skew, parse_occurred_at, admit_value, admit_entries,
  admit_properties,
}
use counted.Ingestion.Admission.Event.{
  unless, key_field, name_field, visit_field, admit_fields, admit_event,
}

pub check_skew_within :
    (at received : Instant) (policy : AdmissionPolicy)
    → check_skew at received policy ≡ none
    → (at -ℤ received ≤ℤ policy.max_future_skew) × (received -ℤ at ≤ℤ policy.max_age)
unfolding check_skew between
check_skew_within at received policy h =
    ground (arith, -ℤ_parts at received, -ℤ_parts received at, -ℤ_parts (pos 0) (at -ℤ received))

module _ (policy : AdmissionPolicy) where
  abbrev pub IsBounded : PropertyValue → Type 0
  IsBounded (of_text s) = units s ≤ policy.max_property_value_length
  IsBounded value = Unit

  pub record IsProperty (entry : String × PropertyValue) : Type 0 where
    pub named : is_empty entry.0 ≡ false
    pub short : units entry.0 ≤ policy.max_property_key_length
    pub bounded : IsBounded entry.1

  admit_value-IsBounded :
      (index : ℕ) (key : String) (raw : Value) (value : PropertyValue)
      → admit_value policy index key raw ≡ ok value
      → IsBounded value
  unfolding admit_value
  admit_value-IsBounded index key Value.undefined value h = ground arith
  admit_value-IsBounded index key Value.null value h = ground arith
  admit_value-IsBounded index key Value.array value h = ground arith
  admit_value-IsBounded index key (Value.boolean b) value h = ground arith
  admit_value-IsBounded index key (Value.finite n) value h = ground arith
  admit_value-IsBounded index key Value.not_finite value h = ground arith
  admit_value-IsBounded index key (Value.text s) value h = ground arith
  admit_value-IsBounded index key (Value.object o) value h = ground arith

  admit_entries-IsProperty :
      (index : ℕ) (entries : Fields) (properties : List (String × PropertyValue))
      → admit_entries policy index entries ≡ ok properties
      → All IsProperty properties × (length properties ≤ field_count entries)
  unfolding admit_entries
  admit_entries-IsProperty index no_fields properties h = ground arith
  admit_entries-IsProperty index (field key raw rest) properties h =
      grind (arith, admit_value-IsBounded index key raw, admit_entries-IsProperty index rest)

  admit_properties-IsProperty :
      (index : ℕ) (raw : Value) (properties : List (String × PropertyValue))
      → admit_properties raw index policy ≡ ok properties
      → All IsProperty properties × (length properties ≤ policy.max_properties)
  unfolding admit_properties
  admit_properties-IsProperty index Value.undefined properties h = ground arith
  admit_properties-IsProperty index Value.null properties h = ground arith
  admit_properties-IsProperty index Value.array properties h = ground arith
  admit_properties-IsProperty index (Value.boolean b) properties h = ground arith
  admit_properties-IsProperty index (Value.finite n) properties h = ground arith
  admit_properties-IsProperty index Value.not_finite properties h = ground arith
  admit_properties-IsProperty index (Value.text s) properties h = ground arith
  admit_properties-IsProperty index (Value.object o) properties h =
      grind (arith, admit_entries-IsProperty index o)

abbrev pub IsPersonOrNone : Option String → Type 0
IsPersonOrNone none = Unit
IsPersonOrNone (some person) = IsPerson person

pub record IsName (name : String) : Type 0 where
  pub present : is_empty name ≡ false
  pub bounded : units name ≤ 128
  pub usable : is_unusable name ≡ false

-- What the store may rely on.
pub record IsStorable (policy : AdmissionPolicy) (batch : IngestBatch) (e : AdmittedEvent)
    : Type 0 where
  pub named : IsName e.name
  pub visit : is_id_shape e.visit ≡ true
  pub person : IsPersonOrNone e.person
  pub not_ahead : e.occurred_at -ℤ batch.received_at ≤ℤ policy.max_future_skew
  pub not_old : batch.received_at -ℤ e.occurred_at ≤ℤ policy.max_age
  pub stamped : e.received_at ≡ batch.received_at
  pub properties : All (IsProperty policy) e.properties
  pub few : length e.properties ≤ policy.max_properties
  pub country : e.system.country ≡ batch.country

name_field-IsName :
    (raw : Value) (index : ℕ) (name : String) → name_field raw index ≡ ok name → IsName name
unfolding check_event_name
name_field-IsName raw index name h = ground arith

visit_field-is_id_shape :
    (raw : Value) (index : ℕ) (visit : String)
    → visit_field raw index ≡ ok visit
    → is_id_shape visit ≡ true
visit_field-is_id_shape raw index visit h = ground arith

person_field :
    (raw : Value) (person : Option String)
    → admit_optional_person raw ≡ ok person
    → IsPersonOrNone person
person_field raw none h = tt
person_field raw (some person) h = admit_optional_person-IsPerson raw person h

unless_ok :
    {T : Type 0} (problem : Option EventAdmissionError) (next : Result T EventAdmissionError)
    (t : T)
    → unless problem next ≡ ok t
    → (problem ≡ none) × (next ≡ ok t)
unless_ok none next t h = (refl, h)
unless_ok (some problem) next t h = absurd (ground arith)

module _ (p : Platform) (policy : AdmissionPolicy) where
  admit_fields-IsStorable :
      (raw : Fields) (index : ℕ) (batch : IngestBatch) (e : AdmittedEvent)
      → admit_fields p policy raw index batch ≡ ok e
      → IsStorable policy batch e
  unfolding admit_fields normalise_system_properties
  admit_fields-IsStorable raw index batch e h =
      let (name, named, h1) = bind_ok (name_field (get raw "name") index) _ _ h in
      let (visit, shaped, h2) = bind_ok (visit_field (get raw "visitId") index) _ _ h1 in
      let (person, identified, h3) = bind_ok (admit_optional_person (get raw "userId")) _ _ h2 in
      let (at, timed, h4) =
        bind_ok (parse_occurred_at p (get raw "occurredAt") batch.received_at index) _ _ h3 in
      let (skew, h5) = unless_ok (check_skew at batch.received_at policy) _ _ h4 in
      let (properties, checked, h6) =
        bind_ok (admit_properties (get raw "properties") index policy) _ _ h5 in
      let (spoken, h7) = unless_ok (check_agent_vocabulary p name properties index) _ _ h6 in
      let (key, keyed, h8) = bind_ok (key_field (get raw "idempotencyKey") index) _ _ h7 in
      let within = check_skew_within at batch.received_at policy skew in
      let fields =
        admit_properties-IsProperty policy index (get raw "properties") properties checked in
      let storable : IsStorable policy batch _ = record {
        named = name_field-IsName (get raw "name") index name named;
        visit = visit_field-is_id_shape (get raw "visitId") index visit shaped;
        person = person_field (get raw "userId") person identified;
        not_ahead = within.0;
        not_old = within.1;
        stamped = refl;
        properties = fields.0;
        few = fields.1;
        country = refl;
      } in
      rw (← ok_injective _ _ h8) storable

  -- `kind` by kind: only an object has fields to admit.
  pub admit_event-IsStorable :
      (raw : Value) (index : ℕ) (batch : IngestBatch) (e : AdmittedEvent)
      → admit_event p policy raw index batch ≡ ok e
      → IsStorable policy batch e
  unfolding admit_event
  admit_event-IsStorable (Value.object raw) index batch e h =
      admit_fields-IsStorable raw index batch e h
  admit_event-IsStorable Value.undefined index batch e h = absurd (ground arith)
  admit_event-IsStorable Value.null index batch e h = absurd (ground arith)
  admit_event-IsStorable Value.array index batch e h = absurd (ground arith)
  admit_event-IsStorable (Value.boolean b) index batch e h = absurd (ground arith)
  admit_event-IsStorable (Value.finite n) index batch e h = absurd (ground arith)
  admit_event-IsStorable Value.not_finite index batch e h = absurd (ground arith)
  admit_event-IsStorable (Value.text s) index batch e h = absurd (ground arith)
