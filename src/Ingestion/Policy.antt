-- ===== src/Ingestion/Policy.antt =====
-- packages/ingestion/app/src/policy.ts: when a group commits, and whether a request is taken in.
use counted.Base.{ℕ, ◌+◌, Bool, Option, none, some, leb, if◌then◌else◌}
use counted.Base.Int.{pos}
use counted.Kernel.Instant.{Instant, Duration, plus, is_before}

pub record GroupCommitPolicy : Type 0 where
  pub linger : Duration
  pub max_events : ℕ
  pub max_waiters : ℕ
  pub max_buffered : ℕ
  pub max_in_flight : ℕ
  pub retry_after : Duration

abbrev pub default_policy : GroupCommitPolicy
default_policy = record {
  linger = pos 20;
  max_events = 500;
  max_waiters = 64;
  max_buffered = 50000;
  max_in_flight = 4;
  retry_after = pos 1000;
}

pub record PendingGroup : Type 0 where
  pub events : ℕ
  pub waiters : ℕ
  pub opened_at : Instant

pub record CommitState : Type 0 where
  pub group : Option PendingGroup
  pub in_flight : ℕ
  pub draining : Bool

pub data FlushReason : Type 0 where
  by_size by_waiters by_linger by_drain : FlushReason

pub data Decision : Type 0 where
  flush : FlushReason → Decision
  wait : Instant → Decision
  blocked idle : Decision

unfoldable pub deadline : PendingGroup → GroupCommitPolicy → Instant
unfolding plus
deadline group policy = plus group.opened_at policy.linger

unfoldable pub flush_reason :
    PendingGroup → CommitState → GroupCommitPolicy → Instant → Option FlushReason
unfolding deadline
flush_reason group state policy at =
    if state.draining
    then some by_drain
    else if leb policy.max_events group.events
    then some by_size
    else if leb policy.max_waiters group.waiters
    then some by_waiters
    else if is_before at (deadline group policy)
    then none
    else some by_linger

-- The decision on a group that is there.
unfoldable pub decide_on : PendingGroup → CommitState → GroupCommitPolicy → Instant → Decision
unfolding flush_reason
decide_on group state policy at = elim (flush_reason group state policy at) [
  | none ↦ wait (deadline group policy)
  | some reason ↦ if leb policy.max_in_flight state.in_flight then blocked else flush reason
]

unfoldable pub decide : CommitState → GroupCommitPolicy → Instant → Decision
unfolding decide_on
decide state policy at = elim state.group [
  | none ↦ idle
  | some group ↦ decide_on group state policy at
]

pub data Reception : Type 0 where
  accept : Reception
  refuse : Duration → Reception

unfoldable pub receive : ℕ → ℕ → GroupCommitPolicy → Reception
receive buffered arriving policy =
    if leb (buffered + arriving) policy.max_buffered then accept else refuse policy.retry_after
