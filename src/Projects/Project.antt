-- ===== src/Projects/Project.antt =====
-- packages/projects/domain/src/project.ts, with its events.ts: a stream of events, placed in a
-- workspace or waiting to be claimed.
pub mod Laws
pub mod Archived
use counted.Base.{
  ℕ, Bool, true, false, not, List, [], ◌∷◌, String, Option, none, some, ◌==◌, text_equality,
  is_empty, trim, if◌then◌else◌,
}
use counted.Kernel.Result.{Result, ok, err}
use counted.Kernel.Instant.{Instant, is_after}
use counted.Projects.Errors.{
  ProjectError, name_required, name_unchanged, already_claimed, grant_expired, grant_mismatch,
  retention_unchanged,
}
use counted.Projects.Errors
use counted.Projects.Retention.{RetentionPolicy, inherit, days, retention_equals}
use counted.Projects.Digest.{digests_match}

pub record ClaimGrant : Type 0 where
  pub digest : String
  pub expires_at : Instant

pub data Ownership : Type 0 where
  unclaimed : ClaimGrant → Ownership
  claimed : String → Instant → Ownership

pub data ProjectEvent : Type 0 where
  project_created : String → String → String → Instant → ProjectEvent
  project_provisioned_unclaimed : String → String → Instant → Instant → ProjectEvent
  project_claimed : String → String → Instant → ProjectEvent
  project_renamed : String → String → Instant → ProjectEvent
  project_archived project_restored : String → Instant → ProjectEvent
  project_retention_changed : String → Option ℕ → Instant → ProjectEvent

pub record Project : Type 0 where
  pub id : String
  pub name : String
  pub ownership : Ownership
  pub archived : Bool
  pub retention : RetentionPolicy

pub record ProjectApplied : Type 0 where
  pub project : Project
  pub events : List ProjectEvent

abbrev pub Outcome : Type 0
Outcome = Result ProjectApplied ProjectError

unfoldable pub create : String → String → String → Instant → Outcome
create id name workspace at =
    if is_empty (trim name)
    then err name_required
    else ok (record {
      project = record {
        id = id;
        name = trim name;
        ownership = claimed workspace at;
        archived = false;
        retention = inherit;
      };
      events = project_created id workspace (trim name) at ∷ [];
    })

unfoldable pub provision_unclaimed : String → String → ClaimGrant → Instant → Outcome
provision_unclaimed id name grant at =
    if is_empty (trim name)
    then err name_required
    else if not (is_after grant.expires_at at)
    then err grant_expired
    else ok (record {
      project = record {
        id = id;
        name = trim name;
        ownership = unclaimed grant;
        archived = false;
        retention = inherit;
      };
      events = project_provisioned_unclaimed id (trim name) grant.expires_at at ∷ [];
    })

abbrev pub workspace : Project → Option String
workspace p = elim p.ownership [ unclaimed grant ↦ none | claimed w at ↦ some w ]

abbrev pub is_claimed : Project → Bool
is_claimed p = elim p.ownership [ unclaimed grant ↦ false | claimed w at ↦ true ]

abbrev ownership_admits : Ownership → Instant → Bool
ownership_admits (unclaimed grant) at = is_after grant.expires_at at
ownership_admits (claimed w since) at = true

unfoldable pub admits_events : Project → Instant → Bool
admits_events p at = if p.archived then false else ownership_admits p.ownership at

unfoldable pub rename : Project → String → Instant → Outcome
rename p name at =
    if p.archived
    then err (Errors.project_archived p.id)
    else if is_empty (trim name)
    then err name_required
    else if trim name == p.name
    then err name_unchanged
    else ok (record {
      project = record p { name = trim name; archived = false };
      events = project_renamed p.id (trim name) at ∷ [];
    })

unfoldable pub archive : Project → Instant → Outcome
archive p at =
    if p.archived
    then err (Errors.project_archived p.id)
    else ok
        (record { project = record p { archived = true }; events = project_archived p.id at ∷ [] })

unfoldable pub restore : Project → Instant → Outcome
restore p at =
    if not p.archived
    then err (Errors.project_not_archived p.id)
    else ok
        (record { project = record p { archived = false }; events = project_restored p.id at ∷ [] })

abbrev policy_days : RetentionPolicy → Option ℕ
policy_days inherit = none
policy_days (days n) = some n

unfoldable pub set_retention : Project → RetentionPolicy → Instant → Outcome
set_retention p policy at =
    if p.archived
    then err (Errors.project_archived p.id)
    else if retention_equals policy p.retention
    then err retention_unchanged
    else ok (record {
      project = record p { archived = false; retention = policy };
      events = project_retention_changed p.id (policy_days policy) at ∷ [];
    })

abbrev claim_with : Project → ClaimGrant → String → String → Instant → Outcome
claim_with p grant presented into at =
    if not (is_after grant.expires_at at)
    then err grant_expired
    else if not (digests_match grant.digest presented)
    then err grant_mismatch
    else ok (record {
      project = record p { ownership = claimed into at };
      events = project_claimed p.id into at ∷ [];
    })

unfoldable pub claim : Project → String → String → Instant → Outcome
claim p presented into at = elim p.ownership [
  | claimed w since ↦ err already_claimed
  | unclaimed grant ↦ claim_with p grant presented into at
]
