-- ===== src/Ingestion/GroupCommit/Memory.antt =====
-- How many events the process holds.
use counted.Base.{ℕ, ◌+◌, ◌*◌, ◌≤◌, List, [], ◌∷◌, arith, length, sum, All}
use counted.Ingestion.Policy.{GroupCommitPolicy}
use counted.Ingestion.GroupCommit.{State, Commit, writing, over, initial}
use counted.Ingestion.GroupCommit.Bounds.{size, IsWriting, Run-IsValid}
use counted.Ingestion.GroupCommit.Steps.{Run}

abbrev pub writing_size : Commit → ℕ
writing_size (writing g) = size g
writing_size over = 0

module _ (policy : GroupCommitPolicy) where
  sum-writing_size-le :
      (cs : List Commit)
      → All (IsWriting policy) cs
      → sum writing_size cs ≤ length cs * policy.max_buffered
  sum-writing_size-le [] h = omega arith
  sum-writing_size-le (writing g ∷ cs) h = grind (arith, h.0.1, sum-writing_size-le cs h.1)
  sum-writing_size-le (over ∷ cs) h = grind (arith, sum-writing_size-le cs h.1)

  -- The events that wait and those that are being written are together at most what may be buffered,
  -- once and once more for each commit that may be in flight.
  pub Run-memory :
      {submitted : List ℕ} {s : State}
      → Run policy initial submitted s
      → s.buffered + sum writing_size s.commits
        ≤ policy.max_buffered + policy.max_in_flight * policy.max_buffered
  Run-memory {s = s} r =
      let v = (Run-IsValid policy r).within in
      grind (arith, v.bounded, v.in_flight, sum-writing_size-le s.commits v.writes)
