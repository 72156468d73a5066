-- ===== src/Ingestion/GroupCommit/Drain/Answers.antt =====
-- What a shutdown does, whatever the sink, the clock and the other requests do meanwhile.
use mathlib.Core.List.{append_assoc}
use counted.Base.{
  ℕ, ◌+◌, ◌*◌, ◌≤◌, ◌<◌, ◌⊎◌, inl, inr, true, List, [], ◌∷◌, ◌++◌, ◌≡◌, refl, ap, arith, length,
  length-append, sum-none, nat_beq, Bool-cases,
}
use counted.Kernel.Instant.{Instant}
use counted.Ingestion.Batch.{IngestBatch}
use counted.Ingestion.Admission.{AdmissionOutcome}
use counted.Ingestion.Policy.{GroupCommitPolicy}
use counted.Ingestion.GroupCommit.{State, Group, over, initial}
use counted.Ingestion.GroupCommit.Settle.{finish, release}
use counted.Ingestion.GroupCommit.Submit.{begin_drain, join}
use counted.Ingestion.GroupCommit.Joining.{resume-cases, join-AreDistinct}
use counted.Ingestion.GroupCommit.Pump.{AreDistinct}
use counted.Ingestion.GroupCommit.Bounds.{Run-IsValid}
use counted.Ingestion.GroupCommit.Account.{in_waiters, in_commit, answered, times, Run-account}
use counted.Ingestion.GroupCommit.Steps.{
  Step, resumes, ticks, drains, finishes, releases, tickets, Run, here, next,
}
use counted.Ingestion.GroupCommit.Drain.{load, is_drained, drain_round, drain}
use counted.Ingestion.GroupCommit.Drain.Pumps.{IsMoving, pump-IsMoving}
use counted.Ingestion.GroupCommit.Drain.Work.{work, moved, weight_le, pump-work, Step-work}

module _ (policy : GroupCommitPolicy) (room : 0 < policy.max_in_flight) where
  join-draining :
      (s : State) (batch : IngestBatch) (o : AdmissionOutcome) (ticket : ℕ) (now : Instant)
      → s.draining ≡ true
      → (join s batch o ticket now).draining ≡ true
  unfolding join
  join-draining s batch o ticket now h = h

  Step-IsMoving : {s t : State} → Step policy s t → IsMoving s → IsMoving t
  unfolding finish release
  Step-IsMoving (resumes s batch o v ticket now) h =
      elim (resume-cases policy s batch o v ticket now) [
        | inl (ack, e) ↦
            rw e (record { flagged = h.flagged; distinct = h.distinct; moving = h.moving })
        | inr (fits, e) ↦ rw e (
            pump-IsMoving policy now (join s batch o ticket now) room
              (join-draining s batch o ticket now h.flagged)
              (join-AreDistinct s batch o ticket now h.distinct))
      ]
  Step-IsMoving (ticks s now) h = pump-IsMoving policy now s room h.flagged h.distinct
  Step-IsMoving (drains s) h = record { flagged = refl; distinct = h.distinct; moving = h.moving }
  Step-IsMoving (finishes s before after g answer usage e) h = record {
    flagged = h.flagged;
    distinct = h.distinct;
    moving = inr (omega (arith, length-append before (over ∷ after)));
  }
  Step-IsMoving (releases s before after now e) h =
      pump-IsMoving policy now (record s { commits = before ++ after }) room h.flagged h.distinct

  drain-IsMoving :
      (s : State) (now : Instant) → AreDistinct s.groups → IsMoving (drain policy now s)
  unfolding drain drain_round
  drain-IsMoving s now d = elim (Bool-cases (is_drained (begin_drain s))) [
    | inl done ↦ rw done (record {
      flagged = refl;
      distinct = d;
      moving = inl (no_group s.groups (ground (arith, done)));
    })
    | inr more ↦ rw more (pump-IsMoving policy now (begin_drain s) room refl d)
  ]
    where
      no_group : (gs : List Group) → length gs ≡ 0 → gs ≡ []
      no_group [] e = refl
      no_group (g ∷ gs) e = absurd (omega (arith, e))

  Run-IsMoving : {s t : State} {later : List ℕ} → Run policy s later t → IsMoving s → IsMoving t
  Run-IsMoving here h = h
  Run-IsMoving (next r st) h = Step-IsMoving st (Run-IsMoving r h)

  Run-work :
      {s t : State} {later : List ℕ} (r : Run policy s later t)
      → IsMoving s
      → work t + moved policy r ≤ work s + 2 * length later
  Run-work here h = omega arith
  Run-work (next {submitted = submitted} r st) h = omega (
    arith,
    Run-work r h,
    Step-work policy st (Run-IsMoving r h).distinct,
    length-append (tickets policy st) submitted,
  )

  drain-Run :
      (s : State) (now : Instant) {submitted : List ℕ}
      → Run policy initial submitted s
      → Run policy initial submitted (drain policy now s)
  unfolding drain drain_round
  drain-Run s now r = elim (Bool-cases (is_drained (begin_drain s))) [
    | inl done ↦ rw done (next r (drains s))
    | inr more ↦ rw more (next (next r (drains s)) (ticks (begin_drain s) now))
  ]

  Run-append :
      {s t : State} {submitted later : List ℕ}
      → Run policy initial submitted s
      → Run policy s later t
      → Run policy initial (later ++ submitted) t
  Run-append r here = r
  Run-append {submitted = submitted} r (next {submitted = before} q st) =
      rw (append_assoc (tickets policy st) before submitted) (next (Run-append r q) st)

  drain-work :
      (s : State) (now : Instant) → AreDistinct s.groups → work (drain policy now s) ≡ work s
  unfolding drain drain_round
  drain-work s now d = elim (Bool-cases (is_drained (begin_drain s))) [
    | inl done ↦ rw done refl
    | inr more ↦ rw more (pump-work policy now (begin_drain s) d)
  ]

  answered_when_drained :
      (t : State) (ticket : ℕ) {submitted : List ℕ}
      → load t ≡ 0
      → Run policy initial submitted t
      → answered ticket t ≡ times ticket submitted
  answered_when_drained t ticket none r = omega (
    arith,
    Run-account ticket policy r,
    sum-none (in_waiters ticket) t.groups (omega (arith, none)),
    sum-none (in_commit ticket) t.commits (omega (arith, none)),
  )

  -- Let anything happen after a shutdown began, when at least one commit may be in flight: commits are
  -- answered and released in any order and at any time, and requests whose quota is outstanding
  -- resume. Then either no group and no commit is left, where the loop ends, and every request for
  -- which the quota had answered, under whatever ticket, was answered as often as it came; or a commit
  -- is in flight, for the sink to answer or to be released. And the answers and releases of commits so
  -- far are two at most for each group, each commit and each request that resumed.
  pub drain-answers :
      (s t : State) (ticket : ℕ) (now : Instant) {submitted later : List ℕ}
      → Run policy initial submitted s
      → (r : Run policy (drain policy now s) later t)
      → (((load t ≡ 0) × (answered ticket t ≡ times ticket (later ++ submitted)))
          ⊎ (0 < length t.commits))
        × (moved policy r ≤ 2 * (load s + length later))
  drain-answers s t ticket now {submitted} {later} r q =
      let start = (Run-IsValid policy r).distinct in
      let moving = Run-IsMoving q (drain-IsMoving s now start) in
      (
        elim (Bool-cases (nat_beq (length t.commits) 0)) [
          | inr more ↦ inr (ground (arith, more))
          | inl none ↦ elim moving.moving [
            | inr some ↦ inr some
            | inl gone ↦
                let empty : load t ≡ 0 =
                  let no_group : length t.groups ≡ 0 = ap length gone in
                  ground (arith, no_group, none) in
                inl (empty, answered_when_drained t ticket empty (Run-append (drain-Run s now r) q))
          ]
        ],
        omega (
          arith,
          Run-work q (drain-IsMoving s now start),
          drain-work s now start,
          weight_le s.commits,
        ),
      )
