-- ===== src/Ingestion/Admission.antt =====
-- packages/ingestion/domain/src/admission.ts: untrusted events become events that are stored. The
-- checks of a field stand here, and those of an event and a batch in the child Event.
pub mod Event
pub mod Storable
pub mod Laws
use Prim.Native.Char.{code}
use counted.Base.{
  ℕ, ◌+◌, Bool, true, false, not, ◌&&◌, ◌||◌, List, [], ◌∷◌, Option, none, some, String, ltb, leb,
  is_empty, length, if◌then◌else◌, ◌==◌, text_equality,
}
use counted.Base.Int.{ℤ, pos, ltb_ℤ, leb_ℤ, ◌-ℤ◌}
use counted.Base.Units.{units}
use counted.Kernel.Ids.{is_id_shape}
use counted.Kernel.Instant.{Instant, Duration, between, days}
use counted.Kernel.Result.{Result, ok, err, ◌>>=◌}
use counted.Ingestion.Errors
use counted.Ingestion.Errors.{
  BatchAdmissionError, EventAdmissionError, RejectedEvent, Detail, batch_too_large,
  payload_too_large, malformed, clock_skew,
}
use counted.Ingestion.Batch.{
  Value, undefined, null, array, boolean, finite, not_finite, text, object, Fields, no_fields,
  field, field_count, PropertyValue, of_text, of_number, of_boolean, of_null, IngestBatch, Platform,
  get,
}
use counted.Ingestion.Dedup.Key.{DedupKey}
use counted.Ingestion.EventName.{check_event_name, check_agent_vocabulary}
use counted.Ingestion.Person.{admit_optional_person}
use counted.Ingestion.SystemProperties.{SystemProperties, normalise_system_properties}

pub record AdmittedEvent : Type 0 where
  pub name : String
  pub visit : String
  pub person : Option String
  pub occurred_at : Instant
  pub received_at : Instant
  pub dedup_key : Option DedupKey
  pub properties : List (String × PropertyValue)
  pub system : SystemProperties

pub record AdmissionPolicy : Type 0 where
  pub max_events_per_batch : ℕ
  pub max_body_bytes : ℕ
  pub max_properties : ℕ
  pub max_property_key_length : ℕ
  pub max_property_value_length : ℕ
  pub max_future_skew : Duration
  pub max_age : Duration

abbrev pub default_admission_policy : AdmissionPolicy
default_admission_policy = record {
  max_events_per_batch = 250;
  max_body_bytes = 1048576;
  max_properties = 64;
  max_property_key_length = 64;
  max_property_value_length = 1024;
  max_future_skew = pos 300000;
  max_age = days 30;
}

pub record AdmissionOutcome : Type 0 where
  pub admitted : List AdmittedEvent
  pub rejected : List RejectedEvent
  pub duplicates : ℕ

abbrev pub fail : {T : Type 0} → ℕ → Detail → Result T EventAdmissionError
fail index detail = err (malformed index detail)

-- `Instant.fromISO`: an instant is at most `MAX_EPOCH_MILLIS` away from the epoch.
abbrev pub from_iso : ℕ → Option ℤ → Result Instant EventAdmissionError
from_iso index none = fail index Errors.not_a_timestamp
from_iso index (some at) =
    if leb_ℤ at (pos 8640000000000000) && leb_ℤ (pos 0 -ℤ pos 8640000000000000) at
    then ok at
    else fail index Errors.not_a_timestamp

unfoldable pub parse_occurred_at :
    Platform → Value → Instant → ℕ → Result Instant EventAdmissionError
parse_occurred_at p undefined received_at index = ok received_at
parse_occurred_at p null received_at index = ok received_at
parse_occurred_at p (finite at) received_at index = ok at
parse_occurred_at p not_finite received_at index = fail index Errors.not_a_timestamp
parse_occurred_at p (text raw) received_at index = from_iso index (p.parse_date raw)
parse_occurred_at p raw received_at index = fail index Errors.timestamp_type

-- The second test is of the skew's opposite.
unfoldable pub check_skew : Instant → Instant → AdmissionPolicy → Option EventAdmissionError
unfolding between
check_skew occurred_at received_at policy =
    let skew = between received_at occurred_at in
    if ltb_ℤ policy.max_future_skew skew
    then some (clock_skew skew policy.max_future_skew)
    else if ltb_ℤ policy.max_age (pos 0 -ℤ skew)
    then some (clock_skew skew policy.max_age)
    else none

-- `properties[key] = value`, of a key that was not set before: a value that is no object leaves a
-- plain object as it was when it is assigned to `__proto__`, but for its prototype.
abbrev pub assign :
    String → PropertyValue → List (String × PropertyValue) → List (String × PropertyValue)
assign key value rest = if key == "__proto__" then rest else (key, value) ∷ rest

-- What one property becomes, or the error that names it.
unfoldable pub admit_value :
    AdmissionPolicy → ℕ → String → Value → Result PropertyValue EventAdmissionError
admit_value policy index key null = ok of_null
admit_value policy index key (boolean b) = ok (of_boolean b)
admit_value policy index key (finite n) = ok (of_number n)
admit_value policy index key not_finite = fail index (Errors.property_not_finite key)
admit_value policy index key (text s) =
    if leb (units s) policy.max_property_value_length
    then ok (of_text s)
    else fail index (Errors.property_too_long key policy.max_property_value_length)
admit_value policy index key raw = fail index (Errors.property_type key)

-- The loop over the entries.
unfoldable pub admit_entries :
    AdmissionPolicy → ℕ → Fields → Result (List (String × PropertyValue)) EventAdmissionError
unfolding admit_value
admit_entries policy index no_fields = ok []
admit_entries policy index (field key raw rest) =
    let others = admit_entries policy index rest in
    if is_empty key || not (leb (units key) policy.max_property_key_length)
    then fail index (Errors.property_name_length policy.max_property_key_length)
    else admit_value policy index key raw >>= λ value.
        others >>= λ properties. ok (assign key value properties)

unfoldable pub admit_properties :
    Value → ℕ → AdmissionPolicy → Result (List (String × PropertyValue)) EventAdmissionError
unfolding admit_entries
admit_properties undefined index policy = ok []
admit_properties null index policy = ok []
admit_properties (object entries) index policy =
    if leb (field_count entries) policy.max_properties
    then admit_entries policy index entries
    else fail index (Errors.too_many_properties policy.max_properties (field_count entries))
admit_properties raw index policy = fail index Errors.properties_not_an_object
