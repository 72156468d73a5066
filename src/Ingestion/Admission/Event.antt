-- ===== src/Ingestion/Admission/Event.antt =====
-- `admitEvent` and `admit` of packages/ingestion/domain/src/admission.ts.
use counted.Base.{
  ℕ, ◌+◌, Bool, false, not, List, [], ◌∷◌, Option, none, some, String, leb, is_empty, length,
  if◌then◌else◌,
}
use counted.Kernel.Ids.{is_id_shape}
use counted.Kernel.Instant.{Instant}
use counted.Kernel.Result.{Result, ok, err, ◌>>=◌}
use counted.Ingestion.Errors
use counted.Ingestion.Errors.{
  BatchAdmissionError, EventAdmissionError, RejectedEvent, batch_too_large, payload_too_large,
}
use counted.Ingestion.Batch.{
  Value, undefined, null, text, object, Fields, IngestBatch, Platform, get,
}
use counted.Ingestion.Dedup.{collapse_duplicates}
use counted.Ingestion.Dedup.Key.{DedupKey, dedup_key, key_equality}
use counted.Ingestion.EventName.{check_event_name, check_agent_vocabulary}
use counted.Ingestion.Person.{admit_optional_person}
use counted.Ingestion.SystemProperties.{normalise_system_properties}
use counted.Ingestion.Admission.{
  AdmittedEvent, AdmissionPolicy, AdmissionOutcome, fail, parse_occurred_at, check_skew,
  admit_properties,
}

-- `if (problem !== null) return err(problem)`
abbrev pub unless :
    {T : Type 0}
    → Option EventAdmissionError
    → Result T EventAdmissionError
    → Result T EventAdmissionError
unless none next = next
unless (some problem) next = err problem

abbrev pub name_field : Value → ℕ → Result String EventAdmissionError
name_field (text name) index = unless (check_event_name name index) (ok name)
name_field raw index = fail index Errors.name_required

abbrev pub visit_field : Value → ℕ → Result String EventAdmissionError
visit_field (text visit) index =
    if is_id_shape visit then ok visit else fail index Errors.visit_required
visit_field raw index = fail index Errors.visit_required

-- An empty key counts as none.
abbrev pub key_field : Value → ℕ → Result (Option String) EventAdmissionError
key_field undefined index = ok none
key_field null index = ok none
key_field (text key) index = ok (if is_empty key then none else some key)
key_field raw index = fail index Errors.key_type

abbrev pub keyed_by : Option String → Instant → Option DedupKey
keyed_by none occurred_at = none
keyed_by (some key) occurred_at = some (dedup_key key occurred_at)

module _ (p : Platform) (policy : AdmissionPolicy) where
  unfoldable pub admit_fields : Fields → ℕ → IngestBatch → Result AdmittedEvent EventAdmissionError
  unfolding check_event_name is_id_shape
  admit_fields raw index batch = name_field (get raw "name") index >>= λ name.
      visit_field (get raw "visitId") index >>= λ visit.
      admit_optional_person (get raw "userId") >>= λ person.
      parse_occurred_at p (get raw "occurredAt") batch.received_at index >>= λ occurred_at.
      unless (check_skew occurred_at batch.received_at policy) (
        admit_properties (get raw "properties") index policy >>= λ properties.
        unless (check_agent_vocabulary p name properties index) (
          key_field (get raw "idempotencyKey") index >>= λ key. ok (record {
            name = name;
            visit = visit;
            person = person;
            occurred_at = occurred_at;
            received_at = batch.received_at;
            dedup_key = keyed_by key occurred_at;
            properties = properties;
            system = normalise_system_properties p (get raw "systemProperties") batch.country;
          })))

  unfoldable pub admit_event : Value → ℕ → IngestBatch → Result AdmittedEvent EventAdmissionError
  unfolding admit_fields
  admit_event (object raw) index batch = admit_fields raw index batch
  admit_event raw index batch = fail index Errors.event_not_an_object

  -- What the loop of `admit` gathers from the index on.
  pub record Sorted : Type 0 where
    pub passed : List AdmittedEvent
    pub rejected : List RejectedEvent

  abbrev pub sorted_into : ℕ → Result AdmittedEvent EventAdmissionError → Sorted → Sorted
  sorted_into index (ok event) s = record s { passed = event ∷ s.passed }
  sorted_into index (err error) s = record s {
    rejected = record { index = index; error = error } ∷ s.rejected;
  }

  unfoldable pub admit_each : IngestBatch → ℕ → List Value → Sorted
  unfolding admit_event
  admit_each batch index [] = record { passed = []; rejected = [] }
  admit_each batch index (raw ∷ rest) =
      sorted_into index (admit_event raw index batch) (admit_each batch (index + 1) rest)

  abbrev pub exceeds : Option ℕ → ℕ → Bool
  exceeds none max = false
  exceeds (some bytes) max = not (leb bytes max)

  abbrev pub bytes_of : Option ℕ → ℕ
  bytes_of none = 0
  bytes_of (some bytes) = bytes

  unfoldable pub admit : IngestBatch → Result AdmissionOutcome BatchAdmissionError
  unfolding admit_each collapse_duplicates
  admit batch =
      let sorted = admit_each batch 0 batch.events in
      let kept = collapse_duplicates (λ event. event.dedup_key) sorted.passed [] in
      if not (leb (length batch.events) policy.max_events_per_batch)
      then err (batch_too_large (length batch.events) policy.max_events_per_batch)
      else if exceeds batch.bytes policy.max_body_bytes
      then err (payload_too_large (bytes_of batch.bytes) policy.max_body_bytes)
      else ok (record {
        admitted = kept.unique;
        rejected = sorted.rejected;
        duplicates = kept.duplicates;
      })
