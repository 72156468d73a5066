-- ===== src/Ingestion/GroupCommit/Joining.antt =====
-- What the map of the groups is after a request has joined one of them.
use counted.Base.{
  ℕ, ◌+◌, ◌≤◌, ◌⊎◌, leb, true, false, List, [], ◌∷◌, Option, ◌≡◌, refl, arith, length, sum, All,
  inl, inr, ◌==◌, text_equality, Bool-cases,
}
use counted.Kernel.Instant.{Instant}
use counted.Ingestion.Batch.{IngestBatch}
use counted.Ingestion.Admission.{AdmissionOutcome}
use counted.Ingestion.Policy.{GroupCommitPolicy, receive}
use counted.Ingestion.GroupCommit.{Group, State, Ack, is_of, pump, backpressure}
use counted.Ingestion.GroupCommit.Submit.{
  QuotaVerdict, allowed, exceeded, limited, resume, settle, join, put, opened, group_for, joined_by,
}
use counted.Ingestion.GroupCommit.Pump.{AreDistinct}

put-here :
    (g h : Group) (gs : List Group) → (h.project == g.project) ≡ true → put g (h ∷ gs) ≡ g ∷ gs
unfolding put
put-here g h gs same = rw same refl

put-there :
    (g h : Group) (gs : List Group)
    → (h.project == g.project) ≡ false
    → put g (h ∷ gs) ≡ h ∷ put g gs
unfolding put
put-there g h gs differs = rw differs refl

module _ (batch : IngestBatch) (now : Instant) where
  pub group_for-project : (gs : List Group) → (group_for gs batch now).project ≡ batch.project
  group_for-project [] = refl
  group_for-project (g ∷ gs) =
      grind (arith, group_for-project gs, text_equality.same_iff g.project batch.project)

  group_for-here :
      (g : Group) (gs : List Group)
      → (g.project == batch.project) ≡ true
      → group_for (g ∷ gs) batch now ≡ g
  group_for-here g gs h = ground arith

  group_for-there :
      (g : Group) (gs : List Group)
      → (g.project == batch.project) ≡ false
      → group_for (g ∷ gs) batch now ≡ group_for gs batch now
  group_for-there g gs h = ground arith

  -- A measure of the groups changes by what the group that is put back differs from the one found.
  pub sum-put :
      (f : Group → ℕ) (g : Group) (gs : List Group)
      → g.project ≡ batch.project
      → f (opened batch now) ≡ 0
      → sum f (put g gs) + f (group_for gs batch now) ≡ sum f gs + f g
  unfolding put
  sum-put f g [] e z = omega (arith, z)
  sum-put f g (h ∷ gs) e z = elim (Bool-cases (h.project == batch.project)) [
    | inl same ↦ rw (group_for-here h gs same, put-here g h gs (rw e same)) (omega arith)
    | inr differs ↦
        rw (group_for-there h gs differs, put-there g h gs (rw e differs))
          (omega (arith, sum-put f g gs e z))
  ]

  pub All-put :
      (P : Group → Type 0) (g : Group) (gs : List Group) → All P gs → P g → All P (put g gs)
  unfolding put
  All-put P g [] h p = (p, tt)
  All-put P g (k ∷ gs) h p = grind (arith, All-put P g gs h.1 p)

  pub All-group_for :
      (P : Group → Type 0) (gs : List Group)
      → All P gs
      → P (opened batch now)
      → P (group_for gs batch now)
  All-group_for P [] h p = p
  All-group_for P (g ∷ gs) h p = grind (arith, All-group_for P gs h.1 p)

  pub put-AreDistinct : (g : Group) (gs : List Group) → AreDistinct gs → AreDistinct (put g gs)
  unfolding put
  put-AreDistinct g [] d = (tt, tt)
  put-AreDistinct g (k ∷ gs) d = elim (Bool-cases (k.project == g.project)) [
    | inl same ↦ rw same (rw (← (text_equality.same_iff k.project g.project).0 same) d.0, d.1)
    | inr differs ↦
        let apart : is_of k.project g ≡ false = ground (
          arith,
          differs,
          text_equality.same_iff k.project g.project,
          text_equality.same_iff g.project k.project,
        ) in
        rw differs
          (All-put (λ h. is_of k.project h ≡ false) g gs d.0 apart, put-AreDistinct g gs d.1)
  ]

pub join-AreDistinct :
    (s : State) (batch : IngestBatch) (o : AdmissionOutcome) (ticket : ℕ) (now : Instant)
    → AreDistinct s.groups
    → AreDistinct (join s batch o ticket now).groups
unfolding join
join-AreDistinct s batch o ticket now d =
    put-AreDistinct batch now (joined_by _ o ticket) s.groups d

pub join-settled :
    (s : State) (batch : IngestBatch) (o : AdmissionOutcome) (ticket : ℕ) (now : Instant)
    → (join s batch o ticket now).settled ≡ s.settled
unfolding join
join-settled s batch o ticket now = refl

pub resume_room :
    (policy : GroupCommitPolicy) (s : State) (batch : IngestBatch) (o : AdmissionOutcome)
    (remaining : Option ℕ) (ticket : ℕ) (now : Instant)
    → s.buffered + length o.admitted ≤ policy.max_buffered
    → resume policy s batch o (allowed remaining) ticket now
      ≡ pump policy now (join s batch o ticket now)
unfolding resume receive
resume_room policy s batch o remaining ticket now room =
    let fits : leb (s.buffered + length o.admitted) policy.max_buffered ≡ true =
      ground (arith, room) in
    rw (fits, resume) refl

-- A request whose quota was asked is answered, or there is room for it and it joins.
pub resume-cases :
    (policy : GroupCommitPolicy) (s : State) (batch : IngestBatch) (o : AdmissionOutcome)
    (v : QuotaVerdict) (ticket : ℕ) (now : Instant)
    → ((ack : Ack) × (resume policy s batch o v ticket now ≡ settle ticket ack s))
      ⊎ ((s.buffered + length o.admitted ≤ policy.max_buffered)
          × (resume policy s batch o v ticket now ≡ pump policy now (join s batch o ticket now)))
unfolding resume receive
resume-cases policy s batch o (exceeded limit used) ticket now = inl (_, refl)
resume-cases policy s batch o (limited retry_after) ticket now = inl (_, refl)
resume-cases policy s batch o (allowed remaining) ticket now =
    elim (Bool-cases (leb (s.buffered + length o.admitted) policy.max_buffered)) [
      | inl room ↦ inr (
        ground (arith, room),
        resume_room policy s batch o remaining ticket now (ground (arith, room)),
      )
      | inr full ↦ inl (backpressure policy.retry_after o.rejected, rw (full, resume) refl)
    ]
