-- ===== src/Ingestion/GroupCommit/Bounds.antt =====
-- What the state of the group commit keeps: how much is held, and how the requests share a group.
use counted.Base.{
  ℕ, ◌+◌, ◌≤◌, List, [], ◌∷◌, ◌++◌, ◌≡◌, refl, ap, arith, length, length-append, sum, sum-append,
  All, All-append, All-split, inl, inr,
}
use counted.Kernel.Instant.{Instant}
use counted.Ingestion.Batch.{IngestBatch}
use counted.Ingestion.Admission.{AdmissionOutcome, AdmittedEvent}
use counted.Ingestion.Dedup.Laws.{collapse_conserves}
use counted.Ingestion.Policy.{GroupCommitPolicy}
use counted.Ingestion.GroupCommit.{State, Group, Waiter, Commit, writing, over, pump, initial}
use counted.Ingestion.GroupCommit.Submit.{
  QuotaVerdict, resume, join, joined_by, kept, group_for, waiter_of,
}
use counted.Ingestion.GroupCommit.Settle.{SinkAnswer, Recorded, finish, release}
use counted.Ingestion.GroupCommit.Pump.{AreDistinct, IsKept, pump_rule}
use counted.Ingestion.GroupCommit.Joining.{
  group_for-project, sum-put, All-put, All-group_for, join-AreDistinct, resume-cases,
}
use counted.Ingestion.GroupCommit.Steps.{
  Step, Run, resumes, ticks, drains, finishes, releases, here, next,
}

abbrev pub size : Group → ℕ
size g = length g.events

-- Each request owns the positions after those of the one before it, and the last one's end at `n`.
abbrev pub AreTiled : ℕ → List Waiter → ℕ → Type 0
AreTiled from [] n = from ≡ n
AreTiled from (w ∷ ws) n = (w.offset ≡ from) × AreTiled (from + w.contributed) ws n

abbrev pub IsShared : Group → Type 0
IsShared g = AreTiled 0 g.waiters (size g)

AreTiled-append :
    (from : ℕ) (ws : List Waiter) (w : Waiter) (n m : ℕ)
    → AreTiled from ws n
    → w.offset ≡ n
    → n + w.contributed ≡ m
    → AreTiled from (ws ++ w ∷ []) m
AreTiled-append from [] w n m h o e = (omega (arith, h, o), omega (arith, h, e))
AreTiled-append from (v ∷ ws) w n m h o e =
    (h.0, AreTiled-append (from + v.contributed) ws w n m h.1 o e)

joined_by-IsShared :
    (g : Group) (o : AdmissionOutcome) (ticket : ℕ) → IsShared g → IsShared (joined_by g o ticket)
unfolding joined_by
joined_by-IsShared g o ticket h =
    AreTiled-append 0 g.waiters (waiter_of g o ticket) (size g) _ h refl
      (omega (arith, length-append g.events (kept g o).unique))

kept-le : (g : Group) (o : AdmissionOutcome) → length (kept g o).unique ≤ length o.admitted
unfolding kept
kept-le g o =
    omega (arith, collapse_conserves (λ (event : AdmittedEvent). event.dedup_key) o.admitted g.keys)

module _ (policy : GroupCommitPolicy) where
  abbrev pub IsWriting : Commit → Type 0
  IsWriting (writing g) = IsShared g × (size g ≤ policy.max_buffered)
  IsWriting over = Unit

  -- But for the projects of the groups, which are in AreDistinct.
  pub record IsWithin (s : State) : Type 0 where
    pub buffered : s.buffered ≡ sum size s.groups
    pub bounded : s.buffered ≤ policy.max_buffered
    pub in_flight : length s.commits ≤ policy.max_in_flight
    pub shared : All IsShared s.groups
    pub writes : All IsWriting s.commits

  flush-IsWithin : IsKept policy IsWithin
  flush-IsWithin s kept g rest e room h =
      let total : sum size s.groups ≡ sum size (kept ++ g ∷ rest) = ap (sum size) e in
      let all = sum-append size kept (g ∷ rest) in
      let fewer = sum-append size kept rest in
      let shared : All IsShared (kept ++ g ∷ rest) = rw (← e) h.shared in
      let (before, after) = All-split IsShared kept (g ∷ rest) shared in
      record {
        buffered = omega (arith, total, all, fewer, h.buffered);
        bounded = omega (arith, h.bounded);
        in_flight = omega (arith, room, length-append s.commits (writing g ∷ []));
        shared = All-append IsShared kept rest before after.1;
        writes =
            All-append IsWriting s.commits (writing g ∷ []) h.writes
              ((after.0, omega (arith, total, all, h.buffered, h.bounded)), tt);
      }

  join-IsWithin :
      (s : State) (batch : IngestBatch) (o : AdmissionOutcome) (ticket : ℕ) (now : Instant)
      → s.buffered + length o.admitted ≤ policy.max_buffered
      → IsWithin s
      → IsWithin (join s batch o ticket now)
  unfolding join joined_by
  join-IsWithin s batch o ticket now room h =
      let g = group_for s.groups batch now in
      let more = joined_by g o ticket in
      let put_lem =
        sum-put batch now size more s.groups (group_for-project batch now s.groups) refl in
      let longer : size more ≡ size g + length (kept g o).unique =
        length-append g.events (kept g o).unique in
      record {
        buffered = omega (arith, put_lem, longer, h.buffered);
        bounded = omega (arith, room, kept-le g o);
        in_flight = h.in_flight;
        shared = All-put batch now IsShared more s.groups h.shared (
            joined_by-IsShared g o ticket
              (All-group_for batch now IsShared s.groups h.shared refl));
        writes = h.writes;
      }

  -- Both halves of what a state keeps.
  pub record IsValid (s : State) : Type 0 where
    pub within : IsWithin s
    pub distinct : AreDistinct s.groups

  pump-IsValid : (at : Instant) (s : State) → IsValid s → IsValid (pump policy at s)
  pump-IsValid at s v =
      let after = pump_rule policy IsWithin flush-IsWithin at s v.distinct v.within in
      record { within = after.kept; distinct = after.distinct }

  resume-IsValid :
      (s : State) (batch : IngestBatch) (o : AdmissionOutcome) (v : QuotaVerdict) (ticket : ℕ)
      (now : Instant)
      → IsValid s
      → IsValid (resume policy s batch o v ticket now)
  resume-IsValid s batch o v ticket now h = elim (resume-cases policy s batch o v ticket now) [
    | inl (ack, e) ↦ rw e (ground (arith, h.within, h.distinct))
    | inr (room, e) ↦ rw e (
        pump-IsValid now (join s batch o ticket now) (record {
          within = join-IsWithin s batch o ticket now room h.within;
          distinct = join-AreDistinct s batch o ticket now h.distinct;
        }))
  ]

  finish-IsValid :
      (s : State) (before after : List Commit) (g : Group) (answer : SinkAnswer) (usage : Recorded)
      → s.commits ≡ before ++ writing g ∷ after
      → IsValid s
      → IsValid (finish before g after answer usage s)
  unfolding finish
  finish-IsValid s before after g answer usage e h =
      let all : All IsWriting (before ++ writing g ∷ after) = rw (← e) h.within.writes in
      let (first, rest) = All-split IsWriting before (writing g ∷ after) all in
      let count : length s.commits ≡ length (before ++ writing g ∷ after) = ap length e in
      record {
        within = record {
          buffered = h.within.buffered;
          bounded = h.within.bounded;
          in_flight = omega (
            arith,
            count,
            h.within.in_flight,
            length-append before (writing g ∷ after),
            length-append before (over ∷ after),
          );
          shared = h.within.shared;
          writes = All-append IsWriting before (over ∷ after) first (tt, rest.1);
        };
        distinct = h.distinct;
      }

  release-IsValid :
      (s : State) (before after : List Commit) (now : Instant)
      → s.commits ≡ before ++ over ∷ after
      → IsValid s
      → IsValid (release policy before after now s)
  unfolding release
  release-IsValid s before after now e h =
      let all : All IsWriting (before ++ over ∷ after) = rw (← e) h.within.writes in
      let (first, rest) = All-split IsWriting before (over ∷ after) all in
      let count : length s.commits ≡ length (before ++ over ∷ after) = ap length e in
      pump-IsValid now (record s { commits = before ++ after })
        (record {
          within = record {
            buffered = h.within.buffered;
            bounded = h.within.bounded;
            in_flight = omega (
              arith,
              count,
              h.within.in_flight,
              length-append before (over ∷ after),
              length-append before after,
            );
            shared = h.within.shared;
            writes = All-append IsWriting before after first rest.1;
          };
          distinct = h.distinct;
        })

  pub Step-IsValid : {s t : State} → Step policy s t → IsValid s → IsValid t
  Step-IsValid (resumes s batch o v ticket now) h = resume-IsValid s batch o v ticket now h
  Step-IsValid (ticks s now) h = pump-IsValid now s h
  Step-IsValid (drains s) h = ground (arith, h.within, h.distinct)
  Step-IsValid (finishes s before after g answer usage e) h =
      finish-IsValid s before after g answer usage e h
  Step-IsValid (releases s before after now e) h = release-IsValid s before after now e h

  initial-IsValid : IsValid initial
  initial-IsValid = ground arith

  -- Whatever requests arrive and whatever the clock, the quota and the sink answer: the count of
  -- buffered events is that of the groups' events and within its limit, so is the number of commits
  -- in flight, no two groups are of one project, and in every group, pending or in flight, the
  -- requests that wait share out the events between them, each its own positions, with none left.
  pub Run-IsValid : {submitted : List ℕ} {s : State} → Run policy initial submitted s → IsValid s
  Run-IsValid here = initial-IsValid
  Run-IsValid (next r st) = Step-IsValid st (Run-IsValid r)
