-- ===== src/Ingestion/GroupCommit/Steps.antt =====
-- What can happen to the group commit, one stretch of code at a time. Between two steps anything may
-- be awaited; the clock, the quota and the sink answer as they like.
use counted.Base.{ℕ, List, [], ◌∷◌, ◌++◌, ◌≡◌}
use counted.Kernel.Instant.{Instant}
use counted.Ingestion.Batch.{IngestBatch}
use counted.Ingestion.Admission.{AdmissionOutcome}
use counted.Ingestion.Policy.{GroupCommitPolicy}
use counted.Ingestion.GroupCommit.{State, Group, Commit, writing, over, pump}
use counted.Ingestion.GroupCommit.Submit.{QuotaVerdict, resume, begin_drain}
use counted.Ingestion.GroupCommit.Settle.{SinkAnswer, Recorded, finish, release}

module _ (policy : GroupCommitPolicy) where
  pub data Step : State → State → Type 0 where
    resumes :
        (s : State) (batch : IngestBatch) (o : AdmissionOutcome) (v : QuotaVerdict) (ticket : ℕ)
        (now : Instant)
        → Step s (resume policy s batch o v ticket now)
    ticks : (s : State) (now : Instant) → Step s (pump policy now s)
    -- `drain` sets its flag; the pump that follows is a tick
    drains : (s : State) → Step s (begin_drain s)
    finishes :
        (s : State) (before after : List Commit) (g : Group) (answer : SinkAnswer)
        (usage : Recorded)
        → s.commits ≡ before ++ writing g ∷ after
        → Step s (finish before g after answer usage s)
    releases :
        (s : State) (before after : List Commit) (now : Instant)
        → s.commits ≡ before ++ over ∷ after
        → Step s (release policy before after now s)

  -- What a step submits.
  abbrev pub tickets : {s t : State} → Step s t → List ℕ
  tickets (resumes s batch o v ticket now) = ticket ∷ []
  tickets (ticks s now) = []
  tickets (drains s) = []
  tickets (finishes s before after g answer usage h) = []
  tickets (releases s before after now h) = []

  -- A run, with the tickets of the requests that were submitted in it.
  pub data Run (s : State) : List ℕ → State → Type 0 where
    here : Run s [] s
    next :
        {t u : State} {submitted : List ℕ}
        → Run s submitted t
        → (st : Step t u) → Run s (tickets st ++ submitted) u
