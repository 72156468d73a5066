-- ===== src/Projects/Project/Laws.antt =====
-- The life of a project: its claim, its archiving, and what is sent to it.
use counted.Base.{
  true, false, [], ◌∷◌, String, ◌≡◌, ◌↔◌, refl, arith, is_empty, trim, trim_idem, ◌⊎◌, inl, inr,
}
use counted.Base.Int.{◌<ℤ◌, ◌≤ℤ◌}
use counted.Kernel.Result.{ok, err, is_ok}
use counted.Kernel.Instant.{Instant}
use counted.Projects.Errors.{already_claimed}
use counted.Projects.Retention.{RetentionPolicy}
use counted.Projects.Digest.{digests_match_iff}
use counted.Projects.Project.{
  Project, ProjectApplied, Ownership, ClaimGrant, unclaimed, claimed, admits_events, rename,
  archive, restore, set_retention, claim, project_restored,
}

Ownership-cases :
    (o : Ownership)
    → ((grant : ClaimGrant) × (o ≡ unclaimed grant))
      ⊎ ((w : String) × (since : Instant) × (o ≡ claimed w since))
Ownership-cases (unclaimed grant) = inl (grant, refl)
Ownership-cases (claimed w since) = inr (w, since, refl)

-- A grant adopts a project exactly where the project is unclaimed, the grant has not run out, and
-- its digest is the one that is presented.
pub claim_iff :
    (p : Project) (presented into : String) (at : Instant)
    → (is_ok (claim p presented into at) ≡ true) ↔ (
        (grant : ClaimGrant) × (p.ownership ≡ unclaimed grant)
        × (at <ℤ grant.expires_at)
        × (grant.digest ≡ presented))
unfolding claim
claim_iff p presented into at = (
  λ h. elim (Ownership-cases p.ownership) [
    | inl (grant, e) ↦ (
      grant,
      e,
      ground (arith, digests_match_iff grant.digest presented),
      ground (arith, digests_match_iff grant.digest presented),
    )
    | inr (w, since, e) ↦ ground arith
  ],
  λ (grant, e, fresh, same). ground (arith, digests_match_iff grant.digest presented),
)

-- A command on a project that succeeded, with the project that it left.
pub data Step : Project → Project → Type 0 where
  renames :
      {p : Project} {a : ProjectApplied} (name : String) (at : Instant)
      → rename p name at ≡ ok a
      → Step p a.project
  archives :
      {p : Project} {a : ProjectApplied} (at : Instant) → archive p at ≡ ok a → Step p a.project
  restores :
      {p : Project} {a : ProjectApplied} (at : Instant) → restore p at ≡ ok a → Step p a.project
  sets_retention :
      {p : Project} {a : ProjectApplied} (policy : RetentionPolicy) (at : Instant)
      → set_retention p policy at ≡ ok a
      → Step p a.project
  claims :
      {p : Project} {a : ProjectApplied} (presented into : String) (at : Instant)
      → claim p presented into at ≡ ok a
      → Step p a.project

pub data Reach (p : Project) : Project → Type 0 where
  here : Reach p p
  next : {q r : Project} → Reach p q → Step q r → Reach p r

Step-claimed :
    {p q : Project} (w : String) (since : Instant)
    → Step p q
    → p.ownership ≡ claimed w since
    → q.ownership ≡ claimed w since
unfolding rename archive restore set_retention claim
Step-claimed w since (renames name at h) e = ground arith
Step-claimed w since (archives at h) e = ground arith
Step-claimed w since (restores at h) e = ground arith
Step-claimed w since (sets_retention policy at h) e = ground arith
Step-claimed w since (claims presented into at h) e = ground arith

Reach-claimed :
    {p q : Project} (w : String) (since : Instant)
    → Reach p q
    → p.ownership ≡ claimed w since
    → q.ownership ≡ claimed w since
Reach-claimed w since here e = e
Reach-claimed w since (next r s) e = Step-claimed w since s (Reach-claimed w since r e)

claim-ownership :
    (p : Project) (presented into : String) (at : Instant) (a : ProjectApplied)
    → claim p presented into at ≡ ok a
    → a.project.ownership ≡ claimed into at
unfolding claim
claim-ownership p presented into at a h = ground arith

claimed-claim :
    (p : Project) (w : String) (since : Instant) (presented into : String) (at : Instant)
    → p.ownership ≡ claimed w since
    → claim p presented into at ≡ err already_claimed
unfolding claim
claimed-claim p w since presented into at h = ground arith

-- A claim is good once: whatever is done to the project afterwards, it stays with the workspace
-- that adopted it, and every later claim is refused, also one with the same digest.
pub claim_once :
    (p q : Project) (presented into other elsewhere : String) (at later : Instant)
    (a : ProjectApplied)
    → claim p presented into at ≡ ok a
    → Reach a.project q
    → (q.ownership ≡ claimed into at) × (claim q other elsewhere later ≡ err already_claimed)
claim_once p q presented into other elsewhere at later a h r =
    let kept : q.ownership ≡ claimed into at =
      Reach-claimed into at r (claim-ownership p presented into at a h) in
    (kept, claimed-claim q into at other elsewhere later kept)

pub record IsNamed (p : Project) : Type 0 where
  pub named : is_empty p.name ≡ false
  pub trimmed : trim p.name ≡ p.name

Step-IsNamed : {p q : Project} → Step p q → IsNamed p → IsNamed q
unfolding rename archive restore set_retention claim
Step-IsNamed (renames name at h) v = ground (arith, trim_idem name)
Step-IsNamed (archives at h) v = ground arith
Step-IsNamed (restores at h) v = ground arith
Step-IsNamed (sets_retention policy at h) v = ground arith
Step-IsNamed (claims presented into at h) v = ground arith

Reach-IsNamed : {p q : Project} → Reach p q → IsNamed p → IsNamed q
Reach-IsNamed here v = v
Reach-IsNamed (next r s) v = Step-IsNamed s (Reach-IsNamed r v)

-- Archiving and restoring a project leaves it as it was.
pub restore-archive_project :
    (p : Project) (at later : Instant) (a : ProjectApplied)
    → archive p at ≡ ok a
    → restore a.project later
      ≡ ok (record { project = p; events = project_restored p.id later ∷ [] })
unfolding archive restore
restore-archive_project p at later a h = ground arith

-- A project that takes no event at some instant takes none later, unless something is done to it: a
-- grant that ran out stays so.
pub lapsed :
    (p : Project) (at later : Instant)
    → at ≤ℤ later
    → admits_events p at ≡ false
    → admits_events p later ≡ false
unfolding admits_events
lapsed p at later h e = ground arith
