-- ===== src/Projects/Tests.antt =====
-- Runs of the rules on projects, keys and grants.
use counted.Access.Tests.{tables}
use counted.Access.Principal.{Principal, ServicePrincipal, every}
use counted.Access.Grants.{permits, permissions_for_role}
use counted.Access.Grants.Table.{least_role, permissions_for_role_lem}
use counted.Access.Placement.{Placement, Resource, binding_of, covers}
use counted.Access.Decide.{allow, decide, holds}
use counted.Projects.Grant.{grantable_to, delegable, within_grant}
use counted.Projects.Grant.Laws.{no_escalation}
use counted.Base.{ap, ◌∙◌, filter, true, false, List, [], ◌∷◌, String, none, some, ◌≡◌, refl, trim}
use counted.Base.Int.{pos}
use counted.Kernel.Result.{ok, err}
use counted.Kernel.Authz.{
  admin, at_least, Permission, permission_eq, all_permissions, events_write, queries_run,
  projects_read, projects_write, dashboards_read, dashboards_write, monitors_read, monitors_write,
  credentials_read, credentials_write, workspace_read, billing_read,
}
use counted.Projects.Errors.{already_claimed}
use counted.Projects.Digest.{digests_match}
use counted.Projects.Retention.{inherit}
use counted.Projects.Project.{
  Project, ProjectApplied, ClaimGrant, Ownership, unclaimed, claimed, claim, rename, archive,
  restore, set_retention, admits_events, project_claimed,
}
use counted.Projects.Project
use counted.Projects.Project.Laws.{here, next, archives, claims, claim_once}
use counted.Projects.Project.Archived
use counted.Projects.Project.Archived.{archived_run}
use counted.Projects.Credential.{
  CredentialFacts, ingest, service, is_usable, may_revoke, can_ingest, name_is_available,
}
use counted.Projects.Credential.Laws.{Distinct, without, may_revoke_safe}

abbrev grant : ClaimGrant
grant = record { digest = "d1"; expires_at = pos 100 }

abbrev waiting : Project
waiting = record {
  id = "prj_1";
  name = "Shop";
  ownership = unclaimed grant;
  archived = false;
  retention = inherit;
}

abbrev adopted : Project
adopted = record waiting { ownership = claimed "ws_1" (pos 5) }

abbrev claiming : ProjectApplied
claiming = record { project = adopted; events = project_claimed "prj_1" "ws_1" (pos 5) ∷ [] }

claim_runs : claim waiting "d1" "ws_1" (pos 5) ≡ ok claiming
unfolding claim digests_match
claim_runs = refl

abbrev shelved : ProjectApplied
shelved = record {
  project = record adopted { archived = true };
  events = Project.project_archived "prj_1" (pos 6) ∷ [];
}

archive_runs : archive adopted (pos 6) ≡ ok shelved
unfolding archive
archive_runs = refl

claim_once_example :
    (shelved.project.ownership ≡ claimed "ws_1" (pos 5))
    × (claim shelved.project "d1" "ws_2" (pos 7) ≡ err already_claimed)
claim_once_example =
    claim_once waiting shelved.project "d1" "ws_1" "d1" "ws_2" (pos 5) (pos 7) claiming claim_runs
      (next here (archives (pos 6) archive_runs))

abbrev digest_a : String
digest_a = "d1"

abbrev digest_b : String
digest_b = "d2"

-- An archived project that nobody owns can be claimed, and stays archived.
abbrev dormant : Project
dormant = record waiting { archived = true }

abbrev taken : ProjectApplied
taken = record {
  project = record adopted { archived = true };
  events = project_claimed "prj_1" "ws_1" (pos 5) ∷ [];
}

taken_runs : claim dormant "d1" "ws_1" (pos 5) ≡ ok taken
unfolding claim digests_match
taken_runs = refl

archived_run_example :
    (taken.project ≡ record dormant { ownership = taken.project.ownership })
    × (admits_events taken.project (pos 8) ≡ false)
archived_run_example =
    archived_run dormant taken.project (pos 8) refl
      (Archived.next Archived.here (claims "d1" "ws_1" (pos 5) taken_runs) refl)

abbrev key_a : CredentialFacts
key_a = record { id = "key_a"; kind = ingest; name = "web"; expires_at = none; revoked_at = none }

abbrev key_b : CredentialFacts
key_b = record key_a { id = "key_b"; name = "app"; expires_at = some (pos 50) }

abbrev keys : List CredentialFacts
keys = key_a ∷ key_b ∷ []

keys-Distinct : Distinct keys
keys-Distinct = (refl, (refl, tt))

revoke_runs : may_revoke keys "key_a" (pos 9) ≡ ok key_a
unfolding may_revoke is_usable
revoke_runs = refl

may_revoke_safe_example : can_ingest (without "key_a" keys) (pos 9) ≡ true
unfolding is_usable
may_revoke_safe_example = may_revoke_safe keys "key_a" (pos 9) key_a keys-Distinct refl revoke_runs

name_runs : name_is_available keys " worker" (pos 9) ≡ ok "worker"
unfolding name_is_available trim
name_runs = refl

abbrev granted : List Permission
granted =
    events_write ∷ queries_run ∷ projects_read ∷ projects_write ∷ dashboards_read ∷ dashboards_write
    ∷ monitors_read ∷ monitors_write ∷ credentials_read ∷ credentials_write ∷ workspace_read
    ∷ billing_read ∷ []

abbrev issued : ServicePrincipal
issued = record {
  credential = "key_1";
  workspace = "ws_1";
  projects = every;
  permissions = granted;
  on_behalf_of = "acc_1";
}

abbrev placed : Placement
placed = record { workspace = some "ws_1"; project = some "prj_1" }

admin_runs :
    grantable_to service (filter (λ p. at_least admin (least_role p)) all_permissions) ≡ ok granted
unfolding grantable_to within_grant delegable
admin_runs = refl

grant_runs : grantable_to service (permissions_for_role tables admin) ≡ ok granted
grant_runs = ap (grantable_to service) (permissions_for_role_lem tables admin) ∙ admin_runs

issued_allowed :
    decide tables (Principal.service issued) monitors_read placed (Resource.monitor "mon_1") ≡ allow
unfolding decide holds binding_of covers
issued_allowed = refl

no_escalation_example : permits tables admin monitors_read ≡ true
no_escalation_example =
    no_escalation tables admin granted issued monitors_read placed (Resource.monitor "mon_1")
      grant_runs refl issued_allowed
