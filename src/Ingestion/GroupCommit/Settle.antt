-- ===== src/Ingestion/GroupCommit/Settle.antt =====
-- `#commit` of packages/ingestion/app/src/group-commit.ts: what the sink answers is told to the
-- waiters of the group.
use counted.Base.{
  ℕ, zero, suc, ◌+◌, ◌-◌, Bool, ◌&&◌, List, [], ◌∷◌, ◌++◌, some, String, length, all, includes,
  nat_beq, if◌then◌else◌,
}
use counted.Base.Int.{ℤ, pos, leb_ℤ, ltb_ℤ, int_equality}
use counted.Kernel.Instant.{Instant}
use counted.Ingestion.Errors.{BatchAdmissionError, sink_unavailable}
use counted.Ingestion.Policy.{GroupCommitPolicy}
use counted.Ingestion.GroupCommit.{
  CommitSummary, Ack, committed, refused, Waiter, Group, State, Commit, CommitProblem, over,
  quota_not_recorded, sink_threw, pump,
}

pub data WriteFailure : Type 0 where
  unavailable : (detail : String) → WriteFailure
  timeout : WriteFailure

-- An index is an integer; a count that is written or repeated is not negative.
pub record WriteReceipt : Type 0 where
  pub written : ℕ
  pub written_indices : List ℤ
  pub deduplicated : ℕ

-- What `sink.writeBatch` does.
pub data SinkAnswer : Type 0 where
  threw : (detail : String) → SinkAnswer
  failed : WriteFailure → SinkAnswer
  wrote : WriteReceipt → SinkAnswer

-- What `quota.record` does.
pub data Recorded : Type 0 where
  recorded : Recorded
  unrecorded : (detail : String) → Recorded

unfoldable pub sink_refusal : WriteFailure → BatchAdmissionError
sink_refusal (unavailable detail) = sink_unavailable detail
sink_refusal timeout = sink_unavailable "the sink did not answer in time"

-- `new Set(indices).size`
unfoldable pub distinct_count : List ℤ → ℕ
distinct_count [] = 0
distinct_count (i ∷ indices) =
    let rest = distinct_count indices in if includes indices i then rest else suc rest

abbrev pub in_range : ℕ → ℤ → Bool
in_range n i = leb_ℤ (pos 0) i && ltb_ℤ i (pos n)

unfoldable pub is_consistent : ℕ → WriteReceipt → Bool
unfolding distinct_count
is_consistent size r =
    nat_beq (distinct_count r.written_indices) r.written
    && nat_beq (r.written + r.deduplicated) size
    && all (in_range size) r.written_indices

-- How many of the `count` positions from `index` on were newly written.
unfoldable pub accepted_from : List ℤ → ℕ → ℕ → ℕ
accepted_from indices index zero = 0
accepted_from indices index (suc count) =
    let rest = accepted_from indices (suc index) count in
    if includes indices (pos index) then suc rest else rest

abbrev pub refuse_all : BatchAdmissionError → List Waiter → List (ℕ × Ack)
refuse_all error [] = []
refuse_all error (w ∷ waiters) = (w.ticket, refused error w.rejected) ∷ refuse_all error waiters

abbrev pub commit_ack : List ℤ → CommitSummary → Waiter → Ack
commit_ack indices summary w =
    let accepted = accepted_from indices w.offset w.contributed in
    committed accepted (w.duplicates + w.contributed - accepted) w.rejected (some summary)

abbrev pub commit_all : List ℤ → CommitSummary → List Waiter → List (ℕ × Ack)
commit_all indices summary [] = []
commit_all indices summary (w ∷ waiters) =
    (w.ticket, commit_ack indices summary w) ∷ commit_all indices summary waiters

pub record Settlement : Type 0 where
  pub acks : List (ℕ × Ack)
  pub problems : List CommitProblem

-- The `catch`: nothing was written, and the waiters are told so.
abbrev pub broken : Group → String → Settlement
broken g detail = record {
  acks = refuse_all (sink_unavailable detail) g.waiters;
  problems = sink_threw g.project (length g.events) detail ∷ [];
}

abbrev pub record_problems : Group → ℕ → Recorded → List CommitProblem
record_problems g written recorded = []
record_problems g written (unrecorded detail) = quota_not_recorded g.project written detail ∷ []

abbrev pub summary_of : Group → WriteReceipt → CommitSummary
summary_of g r = record {
  size = length g.events;
  written = r.written;
  deduplicated = r.deduplicated;
}

unfoldable pub commit : Group → SinkAnswer → Recorded → Settlement
unfolding sink_refusal is_consistent accepted_from
commit g (threw detail) usage = broken g detail
commit g (failed failure) usage = record {
  acks = refuse_all (sink_refusal failure) g.waiters;
  problems = [];
}
commit g (wrote r) usage =
    if is_consistent (length g.events) r
    then record {
      acks = commit_all r.written_indices (summary_of g r) g.waiters;
      problems = record_problems g r.written usage;
    }
    else broken g "the sink returned an inconsistent write receipt"

-- The promise of a commit settles: the waiters have their answers.
unfoldable pub finish : List Commit → Group → List Commit → SinkAnswer → Recorded → State → State
unfolding commit
finish before g after answer usage s = record s {
  commits = before ++ over ∷ after;
  settled = (commit g answer usage).acks ++ s.settled;
  problems = (commit g answer usage).problems ++ s.problems;
}

-- Its `finally`: the promise leaves the set, and a group that was blocked can go.
unfoldable pub release : GroupCommitPolicy → List Commit → List Commit → Instant → State → State
unfolding pump
release policy before after at s = pump policy at (record s { commits = before ++ after })
