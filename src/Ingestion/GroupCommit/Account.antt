-- ===== src/Ingestion/GroupCommit/Account.antt =====
-- Where the ticket of a request is: held by a waiter of a group or of a commit, or answered.
use counted.Base.{
  ℕ, suc, ◌+◌, ◌≤◌, Option, List, [], ◌∷◌, ◌++◌, ◌≡◌, refl, ap, arith, length, nat_beq, sum,
  sum-append, if◌then◌else◌, inl, inr,
}
use counted.Kernel.Instant.{Instant}
use counted.Ingestion.Batch.{IngestBatch}
use counted.Ingestion.Admission.{AdmissionOutcome}
use counted.Ingestion.Errors.{BatchAdmissionError}
use counted.Base.Int.{ℤ}
use counted.Ingestion.Policy.{GroupCommitPolicy}
use counted.Ingestion.GroupCommit.{
  State, Group, Waiter, Ack, Commit, CommitSummary, writing, over, pump, initial,
}
use counted.Ingestion.GroupCommit.Submit.{
  QuotaVerdict, allowed, resume, join, joined_by, group_for, waiter_of,
}
use counted.Ingestion.GroupCommit.Settle.{
  SinkAnswer, Recorded, threw, failed, wrote, finish, release, commit, refuse_all, commit_all,
}
use counted.Ingestion.GroupCommit.Pump.{AreDistinct, IsKept, pump_rule}
use counted.Ingestion.GroupCommit.Joining.{
  group_for-project, sum-put, join-AreDistinct, join-settled, resume_room, resume-cases,
}
use counted.Ingestion.GroupCommit.Bounds.{Run-IsValid}
use counted.Ingestion.GroupCommit.Steps.{
  Step, Run, tickets, resumes, ticks, drains, finishes, releases, here, next,
}

module _ (t : ℕ) where
  abbrev pub one_if : ℕ → ℕ
  one_if n = if nat_beq n t then 1 else 0

  abbrev pub in_waiters : Group → ℕ
  in_waiters g = sum (λ (w : Waiter). one_if w.ticket) g.waiters

  abbrev pub in_commit : Commit → ℕ
  in_commit (writing g) = in_waiters g
  in_commit over = 0

  abbrev pub in_acks : List (ℕ × Ack) → ℕ
  in_acks = sum (λ (entry : ℕ × Ack). one_if entry.0)

  -- How often a ticket is held by a waiter, how often it was answered, and how often it is in a list.
  abbrev pub held : State → ℕ
  held s = sum in_waiters s.groups + sum in_commit s.commits

  abbrev pub answered : State → ℕ
  answered s = in_acks s.settled

  abbrev pub times : List ℕ → ℕ
  times = sum one_if

  refuse_all-in_acks :
      (error : BatchAdmissionError) (ws : List Waiter)
      → in_acks (refuse_all error ws) ≡ sum (λ (w : Waiter). one_if w.ticket) ws
  refuse_all-in_acks error [] = refl
  refuse_all-in_acks error (w ∷ ws) = omega (arith, refuse_all-in_acks error ws)

  commit_all-in_acks :
      (indices : List ℤ) (summary : CommitSummary) (ws : List Waiter)
      → in_acks (commit_all indices summary ws) ≡ sum (λ (w : Waiter). one_if w.ticket) ws
  commit_all-in_acks indices summary [] = refl
  commit_all-in_acks indices summary (w ∷ ws) = omega (arith, commit_all-in_acks indices summary ws)

  -- Whatever the sink does, each waiter of the group is told once.
  commit-in_acks :
      (g : Group) (answer : SinkAnswer) (usage : Recorded)
      → in_acks (commit g answer usage).acks ≡ in_waiters g
  unfolding commit
  commit-in_acks g (threw detail) usage = refuse_all-in_acks _ g.waiters
  commit-in_acks g (failed failure) usage = refuse_all-in_acks _ g.waiters
  commit-in_acks g (wrote r) usage = grind (arith, refuse_all-in_acks, commit_all-in_acks)

  abbrev all_of : State → ℕ
  all_of s = held s + answered s

  module _ (policy : GroupCommitPolicy) (n : ℕ) where
    flush-keeps : IsKept policy (λ s. all_of s ≡ n)
    flush-keeps s kept g rest e room h =
        let groups : sum in_waiters s.groups ≡ sum in_waiters (kept ++ g ∷ rest) =
          ap (sum in_waiters) e in
        let all = sum-append in_waiters kept (g ∷ rest) in
        let fewer = sum-append in_waiters kept rest in
        let more = sum-append in_commit s.commits (writing g ∷ []) in
        omega (arith, groups, all, fewer, more, h)

    pump-keeps :
        (at : Instant) (s : State)
        → AreDistinct s.groups
        → all_of s ≡ n
        → all_of (pump policy at s) ≡ n
    pump-keeps at s d h = (pump_rule policy _ flush-keeps at s d h).kept

  module _ (policy : GroupCommitPolicy) where
    join-holds :
        (s : State) (batch : IngestBatch) (o : AdmissionOutcome) (ticket : ℕ) (now : Instant)
        → all_of (join s batch o ticket now) ≡ all_of s + one_if ticket
    unfolding join joined_by
    join-holds s batch o ticket now =
        let g = group_for s.groups batch now in
        let put_lem =
          sum-put batch now in_waiters (joined_by g o ticket) s.groups
            (group_for-project batch now s.groups) refl in
        let more =
          sum-append (λ (w : Waiter). one_if w.ticket) g.waiters (waiter_of g o ticket ∷ []) in
        omega (arith, put_lem, more)

    resume-holds :
        (s : State) (batch : IngestBatch) (o : AdmissionOutcome) (v : QuotaVerdict) (ticket : ℕ)
        (now : Instant)
        → AreDistinct s.groups
        → all_of (resume policy s batch o v ticket now) ≡ all_of s + one_if ticket
    resume-holds s batch o v ticket now d = elim (resume-cases policy s batch o v ticket now) [
      | inl (ack, e) ↦ rw e (omega arith)
      | inr (room, e) ↦ rw e (
          pump-keeps policy _ now (join s batch o ticket now)
            (join-AreDistinct s batch o ticket now d) (join-holds s batch o ticket now))
    ]

    finish-holds :
        (s : State) (before after : List Commit) (g : Group) (answer : SinkAnswer)
        (usage : Recorded)
        → s.commits ≡ before ++ writing g ∷ after
        → all_of (finish before g after answer usage s) ≡ all_of s
    unfolding finish
    finish-holds s before after g answer usage e =
        let commits : sum in_commit s.commits ≡ sum in_commit (before ++ writing g ∷ after) =
          ap (sum in_commit) e in
        let all = sum-append in_commit before (writing g ∷ after) in
        let fewer = sum-append in_commit before (over ∷ after) in
        let told =
          sum-append (λ (entry : ℕ × Ack). one_if entry.0) (commit g answer usage).acks s.settled in
        omega (arith, commits, all, fewer, told, commit-in_acks g answer usage)

    release-holds :
        (s : State) (before after : List Commit) (now : Instant)
        → s.commits ≡ before ++ over ∷ after
        → AreDistinct s.groups
        → all_of (release policy before after now s) ≡ all_of s
    unfolding release
    release-holds s before after now e d =
        let commits : sum in_commit s.commits ≡ sum in_commit (before ++ over ∷ after) =
          ap (sum in_commit) e in
        let all = sum-append in_commit before (over ∷ after) in
        let fewer = sum-append in_commit before after in
        pump-keeps policy _ now (record s { commits = before ++ after }) d
          (omega (arith, commits, all, fewer))

    Step-holds :
        {s u : State} (st : Step policy s u)
        → AreDistinct s.groups
        → all_of u ≡ times (tickets policy st) + all_of s
    Step-holds (resumes s batch o v ticket now) d =
        omega (arith, resume-holds s batch o v ticket now d)
    Step-holds (ticks s now) d = omega (arith, pump-keeps policy (all_of s) now s d refl)
    Step-holds (drains s) d = omega arith
    Step-holds (finishes s before after g answer usage e) d =
        omega (arith, finish-holds s before after g answer usage e)
    Step-holds (releases s before after now e) d =
        omega (arith, release-holds s before after now e d)

  Run-holds :
      (policy : GroupCommitPolicy) {submitted : List ℕ} {s : State}
      → Run policy initial submitted s
      → all_of s ≡ times submitted
  Run-holds policy here = refl
  Run-holds policy (next {submitted = submitted} r st) = omega (
    arith,
    Run-holds policy r,
    Step-holds policy st (Run-IsValid policy r).distinct,
    sum-append one_if (tickets policy st) submitted,
  )

  -- In every run, the ticket of a request is held by a waiter or was answered, and as often, both
  -- together, as it was submitted: no request is lost, and none is answered twice.
  pub Run-account :
      (policy : GroupCommitPolicy) {submitted : List ℕ} {s : State}
      → Run policy initial submitted s
      → held s + answered s ≡ times submitted
  Run-account policy r = Run-holds policy r

module _ (policy : GroupCommitPolicy) where
  settled-keeps : (told : List (ℕ × Ack)) → IsKept policy (λ s. s.settled ≡ told)
  settled-keeps told s kept g rest e room h = h

  -- A request that the quota allows, and for which there is room, waits: it is not answered before
  -- the commit that it rides on, also when the server is shutting down.
  pub resume-waits :
      {submitted : List ℕ} {s : State} (batch : IngestBatch) (o : AdmissionOutcome)
      (remaining : Option ℕ) (ticket : ℕ) (now : Instant)
      → Run policy initial submitted s
      → s.buffered + length o.admitted ≤ policy.max_buffered
      → (held ticket (resume policy s batch o (allowed remaining) ticket now) ≡ suc (held ticket s))
        × ((resume policy s batch o (allowed remaining) ticket now).settled ≡ s.settled)
  resume-waits {s = s} batch o remaining ticket now r room =
      let d = (Run-IsValid policy r).distinct in
      let same : (resume policy s batch o (allowed remaining) ticket now).settled ≡ s.settled =
        rw (resume_room policy s batch o remaining ticket now room)
          (pump_rule policy _ (settled-keeps s.settled) now (join s batch o ticket now)
            (join-AreDistinct s batch o ticket now d) (join-settled s batch o ticket now)).kept in
      let told = ap (in_acks ticket) same in
      (
        ground (arith, told, resume-holds ticket policy s batch o (allowed remaining) ticket now d),
        same,
      )
