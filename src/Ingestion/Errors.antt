-- ===== src/Ingestion/Errors.antt =====
-- packages/ingestion/domain/src/errors.ts: how a batch or an event is refused. A detail is the case
-- that its text is about, with the values that the text quotes.
use counted.Base.{ℕ, List, String}
use counted.Kernel.Instant.{Duration}

pub data BatchAdmissionError : Type 0 where
  batch_too_large : (count max : ℕ) → BatchAdmissionError
  payload_too_large : (bytes max : ℕ) → BatchAdmissionError
  plan_exceeded : (limit used : ℕ) → BatchAdmissionError
  rate_limited : (retry_after_ms : Duration) → BatchAdmissionError
  sink_unavailable : (detail : String) → BatchAdmissionError

pub data Detail : Type 0 where
  event_not_an_object name_required name_not_usable visit_required : Detail
  name_too_long : (max : ℕ) → Detail
  not_a_timestamp timestamp_type key_type : Detail
  properties_not_an_object : Detail
  too_many_properties : (max got : ℕ) → Detail
  property_name_length : (max : ℕ) → Detail
  property_too_long : (property : String) (max : ℕ) → Detail
  property_not_finite property_type : (property : String) → Detail
  vocabulary_problems : List String → Detail

pub data EventAdmissionError : Type 0 where
  malformed : (index : ℕ) → Detail → EventAdmissionError
  unknown_event_name : (name : String) → EventAdmissionError
  clock_skew : (skew max : Duration) → EventAdmissionError
  person_id_required person_id_looks_like_email : EventAdmissionError
  person_id_too_long : (length max : ℕ) → EventAdmissionError

pub record RejectedEvent : Type 0 where
  pub index : ℕ
  pub error : EventAdmissionError
