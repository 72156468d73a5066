-- ===== src/Ingestion/GroupCommit.antt =====
-- packages/ingestion/app/src/group-commit.ts: requests wait for the commit that their events ride
-- on. The state of the class is a record, a promise that a request holds is a ticket, and each
-- stretch of code between two awaits is a function; what an await yields is an argument.
pub mod Submit
pub mod Settle
pub mod Steps
pub mod Pump
pub mod Joining
pub mod Account
pub mod Bounds
pub mod Receipt
pub mod Memory
pub mod Drain
use counted.Base.{
  ℕ, ◌+◌, ◌-◌, Bool, true, false, List, [], ◌∷◌, ◌++◌, Option, none, some, String, length, find,
  filter, not, if◌then◌else◌, ◌==◌, text_equality,
}
use counted.Kernel.Instant.{Instant, Duration, is_before}
use counted.Ingestion.Errors.{BatchAdmissionError, RejectedEvent, rate_limited}
use counted.Ingestion.Admission.{AdmittedEvent}
use counted.Ingestion.Dedup.Key.{DedupKey}
use counted.Ingestion.Policy.{GroupCommitPolicy, PendingGroup, Decision, flush, decide, deadline}

pub record CommitSummary : Type 0 where
  pub size : ℕ
  pub written : ℕ
  pub deduplicated : ℕ

pub data Ack : Type 0 where
  committed :
      (accepted deduplicated : ℕ) (rejected : List RejectedEvent) (commit : Option CommitSummary)
      → Ack
  refused : BatchAdmissionError → (rejected : List RejectedEvent) → Ack

-- `settle` is the ticket.
pub record Waiter : Type 0 where
  pub contributed : ℕ
  pub offset : ℕ
  pub duplicates : ℕ
  pub rejected : List RejectedEvent
  pub ticket : ℕ

pub record Group : Type 0 where
  pub project : String
  pub workspace : String
  pub events : List AdmittedEvent
  pub keys : List DedupKey
  pub waiters : List Waiter
  pub opened_at : Instant

-- A member of `#commits`: its group is being written, or its waiters have their answers and the
-- promise has not been taken out of the set yet.
pub data Commit : Type 0 where
  writing : Group → Commit
  over : Commit

pub data CommitProblem : Type 0 where
  quota_not_recorded sink_threw : (project : String) (events : ℕ) (detail : String) → CommitProblem

-- The fields of the class, with the answers given and the problems reported so far.
pub record State : Type 0 where
  pub groups : List Group
  pub commits : List Commit
  pub buffered : ℕ
  pub draining : Bool
  pub settled : List (ℕ × Ack)
  pub problems : List CommitProblem

abbrev pub initial : State
initial = record {
  groups = [];
  commits = [];
  buffered = 0;
  draining = false;
  settled = [];
  problems = [];
}

-- `waiting`
unfoldable pub waiting : List Group → ℕ
waiting [] = 0
waiting (g ∷ groups) = length g.waiters + waiting groups

abbrev pub pending : Group → PendingGroup
pending g = record { events = length g.events; waiters = length g.waiters; opened_at = g.opened_at }

-- `Instant.min`
abbrev pub earlier : Instant → Instant → Instant
earlier a b = if is_before b a then b else a

abbrev pub sooner : Option Instant → Instant → Option Instant
sooner none at = some at
sooner (some earliest) at = some (earlier earliest at)

-- `#backpressure`
abbrev pub backpressure : Duration → List RejectedEvent → Ack
backpressure retry_after rejected = refused (rate_limited retry_after) rejected

abbrev pub is_of : String → Group → Bool
is_of project g = g.project == project

-- `#groups.delete(key)`
abbrev pub without : String → List Group → List Group
without project groups = filter (λ g. not (is_of project g)) groups

-- A flushed group leaves the map before it is written.
unfoldable pub start : Group → State → State
start g s = record s {
  groups = without g.project s.groups;
  commits = s.commits ++ writing g ∷ [];
  buffered = s.buffered - length g.events;
}

module _ (policy : GroupCommitPolicy) where
  -- The loop of `nextDeadlineAt`.
  unfoldable pub next_deadline_from : Option Instant → List Group → Option Instant
  next_deadline_from earliest [] = earliest
  next_deadline_from earliest (g ∷ groups) =
      next_deadline_from (sooner earliest (deadline (pending g) policy)) groups

  unfoldable pub next_deadline_at : State → Option Instant
  unfolding next_deadline_from
  next_deadline_at s = next_deadline_from none s.groups

  abbrev pub decision : Instant → Group → State → Decision
  decision at g s =
      decide
        (record { group = some (pending g); in_flight = length s.commits; draining = s.draining })
        policy at

  abbrev pub is_flush : Decision → Bool
  is_flush (flush reason) = true
  is_flush d = false

  -- One round of the loop of `#pump`, and the loop over the groups that there were at its start.
  unfoldable pub consider : Instant → Group → State → State
  unfolding start decide
  consider at g s = if is_flush (decision at g s) then start g s else s

  unfoldable pub pump_over : Instant → List Group → State → State
  unfolding consider
  pump_over at [] s = s
  pump_over at (g ∷ groups) s = pump_over at groups (consider at g s)

  -- `#pump`, which `tick` calls too
  unfoldable pub pump : Instant → State → State
  unfolding pump_over
  pump at s = pump_over at s.groups s
