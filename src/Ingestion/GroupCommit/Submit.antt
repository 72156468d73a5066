-- ===== src/Ingestion/GroupCommit/Submit.antt =====
-- `submit` and `drain` of packages/ingestion/app/src/group-commit.ts.
use counted.Base.{
  ℕ, ◌+◌, true, List, [], ◌∷◌, ◌++◌, Option, none, some, length, find, nat_beq, if◌then◌else◌, ◌==◌,
  text_equality,
}
use counted.Base.Int.{int_equality}
use counted.Kernel.Instant.{Instant, Duration}
use counted.Kernel.Result.{ok, err}
use counted.Ingestion.Errors.{plan_exceeded, sink_unavailable}
use counted.Ingestion.Batch.{IngestBatch, Platform}
use counted.Ingestion.Dedup.{Deduplicated, collapse_duplicates}
use counted.Ingestion.Dedup.Key.{DedupKey, key_equality}
use counted.Ingestion.Admission.{AdmittedEvent, AdmissionPolicy, AdmissionOutcome}
use counted.Ingestion.Admission.Event.{admit}
use counted.Ingestion.Policy.{GroupCommitPolicy, accept, refuse, receive}
use counted.Ingestion.GroupCommit.{
  Ack, committed, refused, Waiter, Group, State, backpressure, is_of, pump,
}

-- What `quota.check` answers.
pub data QuotaVerdict : Type 0 where
  allowed : Option ℕ → QuotaVerdict
  exceeded : (limit used : ℕ) → QuotaVerdict
  limited : (retry_after : Duration) → QuotaVerdict

-- `submit` up to the await: the answer, or the outcome of the admission for which the quota is asked.
pub data Started : Type 0 where
  answers : Ack → Started
  asks_quota : AdmissionOutcome → Started

-- `this.#draining = true`
abbrev pub begin_drain : State → State
begin_drain s = record s { draining = true }

abbrev pub settle : ℕ → Ack → State → State
settle ticket ack s = record s { settled = (ticket, ack) ∷ s.settled }

-- `#groupFor`
abbrev pub opened : IngestBatch → Instant → Group
opened batch now = record {
  project = batch.project;
  workspace = batch.workspace;
  events = [];
  keys = [];
  waiters = [];
  opened_at = now;
}

abbrev pub group_for : List Group → IngestBatch → Instant → Group
group_for groups batch now = elim (find (is_of batch.project) groups) [
  | none ↦ opened batch now
  | some g ↦ g
]

-- The map with the group at its project: in its place, or after the others.
unfoldable pub put : Group → List Group → List Group
put g [] = g ∷ []
put g (h ∷ groups) =
    let rest = put g groups in if h.project == g.project then g ∷ groups else h ∷ rest

abbrev pub keys_of : List AdmittedEvent → List DedupKey
keys_of [] = []
keys_of (event ∷ events) = elim event.dedup_key [
  | none ↦ keys_of events
  | some key ↦ key ∷ keys_of events
]

-- What a request adds to a group: the events whose keys the group does not hold yet.
unfoldable pub kept : Group → AdmissionOutcome → Deduplicated AdmittedEvent
unfolding collapse_duplicates
kept g o = collapse_duplicates (λ (event : AdmittedEvent). event.dedup_key) o.admitted g.keys

abbrev pub waiter_of : Group → AdmissionOutcome → ℕ → Waiter
waiter_of g o ticket = record {
  contributed = length (kept g o).unique;
  offset = length g.events;
  duplicates = o.duplicates + (kept g o).duplicates;
  rejected = o.rejected;
  ticket = ticket;
}

-- A group with the events of one more request, which waits for it.
unfoldable pub joined_by : Group → AdmissionOutcome → ℕ → Group
unfolding kept
joined_by g o ticket = record g {
  events = g.events ++ (kept g o).unique;
  keys = keys_of (kept g o).unique ++ g.keys;
  waiters = g.waiters ++ waiter_of g o ticket ∷ [];
}

-- The request joins the group of its project, and the commits are looked at again.
unfoldable pub join : State → IngestBatch → AdmissionOutcome → ℕ → Instant → State
unfolding joined_by put
join s batch o ticket now =
    let g = group_for s.groups batch now in
    record s {
      groups = put (joined_by g o ticket) s.groups;
      buffered = s.buffered + length (kept g o).unique;
    }

module _ (policy : GroupCommitPolicy) where
  unfoldable pub offer : State → AdmissionOutcome → Started
  unfolding receive
  offer s o =
      if nat_beq (length o.admitted) 0
      then answers (committed 0 o.duplicates o.rejected none)
      else if s.draining
      then answers (refused (sink_unavailable "the server is shutting down") o.rejected)
      else elim (receive s.buffered (length o.admitted) policy) [
        | accept ↦ asks_quota o
        | refuse retry_after ↦ answers (backpressure retry_after o.rejected)
      ]

  unfoldable pub submit : Platform → AdmissionPolicy → State → IngestBatch → Started
  unfolding offer admit
  submit p admission s batch = elim (admit p admission batch) [
    | ok o ↦ offer s o
    | err error ↦ answers (refused error [])
  ]

  -- `submit` after the await. Room is asked for again.
  unfoldable pub resume :
      State → IngestBatch → AdmissionOutcome → QuotaVerdict → ℕ → Instant → State
  unfolding join receive pump
  resume s batch o (exceeded limit used) ticket now =
      settle ticket (refused (plan_exceeded limit used) o.rejected) s
  resume s batch o (limited retry_after) ticket now =
      settle ticket (backpressure retry_after o.rejected) s
  resume s batch o (allowed remaining) ticket now =
      elim (receive s.buffered (length o.admitted) policy) [
        | accept ↦ pump policy now (join s batch o ticket now)
        | refuse retry_after ↦ settle ticket (backpressure retry_after o.rejected) s
      ]
