-- ===== src/Ingestion/Admission/Laws.antt =====
-- What is admitted, and what becomes of the rest.
use counted.Base.{
  ℕ, zero, suc, All, ◌+◌, ◌<◌, List, [], ◌∷◌, Option, none, some, ◌≡◌, refl, arith, length, nat_beq,
  if◌then◌else◌,
}
use counted.Kernel.Result.{Result, ok, err}
use counted.Ingestion.Batch.{Value, IngestBatch, Platform}
use counted.Ingestion.Errors.{EventAdmissionError, RejectedEvent}
use counted.Ingestion.Dedup.Key.{key_equality}
use counted.Ingestion.Dedup.Laws.{collapse_conserves, collapse-All}
use counted.Ingestion.Admission.{AdmissionPolicy, AdmissionOutcome, AdmittedEvent}
use counted.Ingestion.Admission.Storable.{IsStorable, admit_event-IsStorable}
use counted.Ingestion.Admission.Event.{admit_event, admit_each, admit}

abbrev pub error_of : Result AdmittedEvent EventAdmissionError → Option EventAdmissionError
error_of (ok event) = none
error_of (err error) = some error

abbrev pub reported : List RejectedEvent → ℕ → Option EventAdmissionError
reported [] i = none
reported (r ∷ rest) i = if nat_beq r.index i then some r.error else reported rest i

module _ (p : Platform) (policy : AdmissionPolicy) where
  admit_each_conserves :
      (batch : IngestBatch) (index : ℕ) (events : List Value)
      → length (admit_each p policy batch index events).passed
          + length (admit_each p policy batch index events).rejected
        ≡ length events
  unfolding admit_each
  admit_each_conserves batch index [] = omega arith
  admit_each_conserves batch index (raw ∷ rest) =
      grind (arith, admit_each_conserves batch (index + 1) rest)

  -- The receipt of a batch accounts for every event that was sent: it is admitted, named as
  -- rejected, or counted as a repeat.
  pub admit_conserves :
      (batch : IngestBatch) (o : AdmissionOutcome)
      → admit p policy batch ≡ ok o
      → length o.admitted + length o.rejected + o.duplicates ≡ length batch.events
  unfolding admit
  admit_conserves batch o h = ground (
    arith,
    admit_each_conserves batch 0 batch.events,
    collapse_conserves (λ (e : AdmittedEvent). e.dedup_key)
        (admit_each p policy batch 0 batch.events).passed [],
  )

  admit_each-All :
      (batch : IngestBatch) (index : ℕ) (events : List Value)
      → All (IsStorable policy batch) (admit_each p policy batch index events).passed
  unfolding admit_each
  admit_each-All batch index [] = tt
  admit_each-All batch index (raw ∷ rest) = grind (
    arith,
    admit_each-All batch (index + 1) rest,
    admit_event-IsStorable p policy raw index batch,
  )

  -- Every event that a batch admits may be stored: its name, its properties and its person keep
  -- their limits, the person is no email address, it happened neither too long before nor too far
  -- ahead of the arrival, and its country is the batch's, whatever the client wrote.
  pub admit-IsStorable :
      (batch : IngestBatch) (o : AdmissionOutcome)
      → admit p policy batch ≡ ok o
      → All (IsStorable policy batch) o.admitted
  unfolding admit
  admit-IsStorable batch o h = ground (
    arith,
    collapse-All (λ (e : AdmittedEvent). e.dedup_key) (IsStorable policy batch)
        (admit_each p policy batch 0 batch.events).passed [] (admit_each-All batch 0 batch.events),
  )

  -- What is wrong with the event at a position of a batch.
  abbrev pub error_at : IngestBatch → ℕ → List Value → ℕ → Option EventAdmissionError
  error_at batch index [] i = none
  error_at batch index (raw ∷ rest) zero = error_of (admit_event p policy raw index batch)
  error_at batch index (raw ∷ rest) (suc i) = error_at batch (suc index) rest i

  reported_later :
      (batch : IngestBatch) (index : ℕ) (events : List Value) (i : ℕ)
      → i < index
      → reported (admit_each p policy batch index events).rejected i ≡ none
  unfolding admit_each
  reported_later batch index [] i h = refl
  reported_later batch index (raw ∷ rest) i h =
      grind (arith, reported_later batch (index + 1) rest i)

  reported_lem :
      (batch : IngestBatch) (index : ℕ) (events : List Value) (i : ℕ)
      → reported (admit_each p policy batch index events).rejected (index + i)
        ≡ error_at batch index events i
  unfolding admit_each
  reported_lem batch index [] i = refl
  reported_lem batch index (raw ∷ rest) zero =
      grind (arith, reported_later batch (index + 1) rest index)
  reported_lem batch index (raw ∷ rest) (suc i) =
      grind (arith, reported_lem batch (index + 1) rest i)

  -- The receipt names an event, by its position in the batch, exactly when the event fails a check,
  -- and with the error of that check.
  pub admit-reported :
      (batch : IngestBatch) (o : AdmissionOutcome) (i : ℕ)
      → admit p policy batch ≡ ok o
      → reported o.rejected i ≡ error_at batch 0 batch.events i
  unfolding admit
  admit-reported batch o i h = ground (arith, reported_lem batch 0 batch.events i)
