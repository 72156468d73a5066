-- ===== src/Ingestion/GroupCommit/Drain.antt =====
-- `drain` of packages/ingestion/app/src/group-commit.ts. What comes after its first await is up to the
-- sink, the clock and the other requests: the steps of Steps, of which a further round is a tick.
pub mod Pumps
pub mod Work
pub mod Answers
use counted.Base.{ℕ, ◌+◌, Bool, nat_beq, length, if◌then◌else◌}
use counted.Kernel.Instant.{Instant}
use counted.Ingestion.Policy.{GroupCommitPolicy}
use counted.Ingestion.GroupCommit.{State, pump}
use counted.Ingestion.GroupCommit.Submit.{begin_drain}

-- Groups and commits that are still there.
abbrev pub load : State → ℕ
load s = length s.groups + length s.commits

-- The loop ends where its condition fails, and then `drain` returns.
abbrev pub is_drained : State → Bool
is_drained s = nat_beq (load s) 0

-- A round of the loop up to the await of the commits.
unfoldable pub drain_round : GroupCommitPolicy → Instant → State → State
unfolding pump
drain_round policy now s = if is_drained s then s else pump policy now s

-- `drain` up to its first await.
unfoldable pub drain : GroupCommitPolicy → Instant → State → State
unfolding drain_round
drain policy now s = drain_round policy now (begin_drain s)
