-- ===== src/Ingestion/GroupCommit/Drain/Work.antt =====
-- How much is left to do: a group has to be written and released, a commit that is written has to be
-- released, and each step of a commit is one less.
use counted.Base.{
  ℕ, ◌+◌, ◌*◌, ◌≤◌, inl, inr, List, [], ◌∷◌, ◌++◌, ◌≡◌, refl, ap, arith, length, sum, length-append,
  sum-append,
}
use counted.Kernel.Instant.{Instant}
use counted.Ingestion.Batch.{IngestBatch}
use counted.Ingestion.Policy.{GroupCommitPolicy}
use counted.Ingestion.GroupCommit.{State, Group, Commit, writing, over, pump}
use counted.Ingestion.Admission.{AdmissionOutcome}
use counted.Ingestion.GroupCommit.Settle.{SinkAnswer, Recorded, finish, release}
use counted.Ingestion.GroupCommit.Submit.{QuotaVerdict, resume, join, put, joined_by}
use counted.Ingestion.GroupCommit.Joining.{resume-cases, join-AreDistinct}
use counted.Ingestion.GroupCommit.Pump.{AreDistinct, IsKept, pump_rule}
use counted.Ingestion.GroupCommit.Steps.{
  Step, resumes, ticks, drains, finishes, releases, tickets, Run, here, next,
}

abbrev weight : Commit → ℕ
weight (writing g) = 2
weight over = 1

abbrev pub work : State → ℕ
work s = 2 * length s.groups + sum weight s.commits

pub weight_le : (cs : List Commit) → sum weight cs ≤ 2 * length cs
weight_le [] = omega arith
weight_le (c ∷ cs) = ground (arith, weight_le cs)

module _ (policy : GroupCommitPolicy) where
  -- The steps of a commit: its settling and its release.
  abbrev pub commits_moved : {s t : State} → Step policy s t → ℕ
  commits_moved (resumes s batch o v ticket now) = 0
  commits_moved (ticks s now) = 0
  commits_moved (drains s) = 0
  commits_moved (finishes s before after g answer usage h) = 1
  commits_moved (releases s before after now h) = 1

  abbrev pub moved : {s t : State} {submitted : List ℕ} → Run policy s submitted t → ℕ
  moved here = 0
  moved (next r st) = commits_moved st + moved r

  work-keeps : (n : ℕ) → IsKept policy (λ s. work s ≡ n)
  work-keeps n s kept g rest e room h =
      let count : length s.groups ≡ length (kept ++ g ∷ rest) = ap length e in
      omega (
        arith,
        h,
        count,
        length-append kept (g ∷ rest),
        length-append kept rest,
        sum-append weight s.commits (writing g ∷ []),
      )

  pub pump-work :
      (at : Instant) (s : State) → AreDistinct s.groups → work (pump policy at s) ≡ work s
  pump-work at s d = (pump_rule policy _ (work-keeps (work s)) at s d refl).kept

  length-put : (g : Group) (gs : List Group) → length (put g gs) ≤ 1 + length gs
  unfolding put
  length-put g [] = omega arith
  length-put g (h ∷ gs) = ground (arith, length-put g gs)

  join-work :
      (s : State) (batch : IngestBatch) (o : AdmissionOutcome) (ticket : ℕ) (now : Instant)
      → work (join s batch o ticket now) ≤ work s + 2
  unfolding join
  join-work s batch o ticket now = omega (arith, length-put (joined_by _ o ticket) s.groups)

  resume-work :
      (s : State) (batch : IngestBatch) (o : AdmissionOutcome) (v : QuotaVerdict) (ticket : ℕ)
      (now : Instant)
      → AreDistinct s.groups
      → work (resume policy s batch o v ticket now) ≤ work s + 2
  resume-work s batch o v ticket now d = elim (resume-cases policy s batch o v ticket now) [
    | inl (ack, e) ↦ rw e (omega arith)
    | inr (room, e) ↦ rw e (
        omega (
          arith,
          join-work s batch o ticket now,
          pump-work now (join s batch o ticket now) (join-AreDistinct s batch o ticket now d),
        ))
  ]

  release-work :
      (s : State) (before after : List Commit) (now : Instant)
      → s.commits ≡ before ++ over ∷ after
      → AreDistinct s.groups
      → 1 + work (release policy before after now s) ≡ work s
  unfolding release
  release-work s before after now e d =
      let left : sum weight s.commits ≡ sum weight (before ++ over ∷ after) = ap (sum weight) e in
      omega (
        arith,
        left,
        pump-work now (record s { commits = before ++ after }) d,
        sum-append weight before after,
        sum-append weight before (over ∷ after),
      )

  finish-work :
      (s : State) (before after : List Commit) (g : Group) (answer : SinkAnswer) (usage : Recorded)
      → s.commits ≡ before ++ writing g ∷ after
      → 1 + work (finish before g after answer usage s) ≡ work s
  unfolding finish
  finish-work s before after g answer usage e =
      let left : sum weight s.commits ≡ sum weight (before ++ writing g ∷ after) =
        ap (sum weight) e in
      omega (
        arith,
        left,
        sum-append weight before (over ∷ after),
        sum-append weight before (writing g ∷ after),
      )

  -- A step of a commit takes one off, and a request adds two at most.
  pub Step-work :
      {s t : State} (st : Step policy s t)
      → AreDistinct s.groups
      → work t + commits_moved st ≤ work s + 2 * length (tickets policy st)
  Step-work (resumes s batch o v ticket now) d = omega (arith, resume-work s batch o v ticket now d)
  Step-work (ticks s now) d = omega (arith, pump-work now s d)
  Step-work (drains s) d = omega arith
  Step-work (finishes s before after g answer usage e) d =
      omega (arith, finish-work s before after g answer usage e)
  Step-work (releases s before after now e) d = omega (arith, release-work s before after now e d)
