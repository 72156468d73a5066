-- ===== src/Ingestion/AdmissionTests.antt =====
-- A batch of three events: one is admitted, one has no visit, and one repeats the first.
use counted.Base.{
  ◌==◌, text_equality, false, [], ◌∷◌, none, some, ◌≡◌, refl, arith, All, is_space, trim,
}
use counted.Base.Int.{pos}
use counted.Base.Units.{units, has_space}
use counted.Ingestion.EventName.{is_unusable, check_agent_vocabulary}
use counted.Ingestion.Person.{admit_optional_person}
use counted.Kernel.Result.{ok}
use counted.Ingestion.Batch.{
  Value, text, object, no_fields, field, finite, of_number, IngestBatch, Platform, get,
}
use counted.Ingestion.Errors
use counted.Ingestion.Errors.{malformed}
use counted.Ingestion.SystemProperties.{normalise_system_properties}
use counted.Ingestion.OsName.{
  canonical_os_name, canonical_text, drop_separators, alias_in, inherited, fold, listed, macos,
}
use counted.Ingestion.Admission.{
  AdmissionOutcome, AdmittedEvent, default_admission_policy, parse_occurred_at, check_skew,
  admit_properties,
}
use counted.Ingestion.Admission.Event.{admit}
use counted.Ingestion.Admission.Storable.{IsStorable}
use counted.Ingestion.Admission.Laws.{admit-IsStorable, admit-reported, reported, error_at}

abbrev pub platform : Platform
platform = record {
  parse_date = λ raw. none;
  lower_case = λ raw. raw;
  is_inherited = λ name. name == "constructor";
  lead = λ c. "x";
  lead_small = λ c. omega arith;
  claims_agent_vocabulary = λ name. false;
  is_agent_event_name = λ name. false;
  is_context_key = λ key. false;
  validate_agent_event = λ name properties. none;
}

abbrev sent : Value
sent = object (
    field "name" (text "open") (
      field "visitId" (text "v1") (
        field "idempotencyKey" (text "k1") (
          field "properties" (object (field "size" (finite (pos 3)) no_fields)) (
            field "systemProperties" (object (field "os_name" (text "macos") no_fields))
              no_fields)))))

abbrev unvisited : Value
unvisited = object (field "name" (text "open") no_fields)

abbrev pub batch : IngestBatch
batch = record {
  workspace = "w1";
  project = "p1";
  received_at = pos 1000;
  events = sent ∷ unvisited ∷ sent ∷ [];
  country = some "FR";
  bytes = none;
}

abbrev pub event : AdmittedEvent
event = record {
  name = "open";
  visit = "v1";
  person = none;
  occurred_at = pos 1000;
  received_at = pos 1000;
  dedup_key = some (record { idempotency_key = "k1"; occurred_at = pos 1000 });
  properties = ("size", of_number (pos 3)) ∷ [];
  system = record {
    os_name = listed macos;
    os_name_raw = none;
    os_version = none;
    locale = none;
    app_version = none;
    device_model = none;
    sdk_version = none;
    country = some "FR";
  };
}

abbrev pub outcome : AdmissionOutcome
outcome = record {
  admitted = event ∷ [];
  rejected = record { index = 1; error = malformed 1 Errors.visit_required } ∷ [];
  duplicates = 1;
}

batch_runs : admit platform default_admission_policy batch ≡ ok outcome
unfolding admit get units is_unusable is_space has_space admit_optional_person parse_occurred_at
    check_skew admit_properties check_agent_vocabulary normalise_system_properties trim
batch_runs = refl

admit-IsStorable_example : All (IsStorable default_admission_policy batch) outcome.admitted
admit-IsStorable_example =
    admit-IsStorable platform default_admission_policy batch outcome batch_runs

admit-reported_example :
    reported outcome.rejected 1 ≡ error_at platform default_admission_policy batch 0 batch.events 1
admit-reported_example = admit-reported platform default_admission_policy batch outcome 1 batch_runs

-- A text of the client that is the name of an inherited member yields that member.
inherited_runs : (canonical_os_name platform (some "con-structor")).os_name ≡ inherited
unfolding canonical_os_name canonical_text fold drop_separators alias_in is_space trim
inherited_runs = refl
