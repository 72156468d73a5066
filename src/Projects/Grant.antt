-- ===== src/Projects/Grant.antt =====
-- packages/projects/domain/src/grant.ts: what a new key may carry.
pub mod Laws
use counted.Base.{Bool, not, List, [], ◌∷◌, filter, includes}
use counted.Kernel.Result.{Result, ok, err}
use counted.Kernel.Authz.{
  Permission, permission_eq, events_write, queries_run, projects_read, projects_write,
  projects_delete, dashboards_read, dashboards_write, monitors_read, monitors_write,
  credentials_read, credentials_write, workspace_read, billing_read,
}
use counted.Projects.Errors.{ProjectError, permissions_required, permission_escalation}
use counted.Projects.Credential.{CredentialKind, ingest, service}

abbrev pub ingest_permissions : List Permission
ingest_permissions = events_write ∷ []

abbrev pub service_delegable_permissions : List Permission
service_delegable_permissions =
    events_write ∷ queries_run ∷ projects_read ∷ projects_write ∷ projects_delete ∷ dashboards_read
    ∷ dashboards_write ∷ monitors_read ∷ monitors_write ∷ credentials_read ∷ credentials_write
    ∷ workspace_read ∷ billing_read ∷ []

-- The check for an excess, where something was requested at all.
abbrev without_excess :
    List Permission → List Permission → List Permission → Result (List Permission) ProjectError
without_excess requested held [] = ok requested
without_excess requested held (p ∷ excess) = err (permission_escalation (p ∷ excess) held)

unfoldable pub within_grant :
    List Permission → List Permission → Result (List Permission) ProjectError
within_grant [] held = err permissions_required
within_grant (p ∷ requested) held =
    without_excess (p ∷ requested) held (filter (λ q. not (includes held q)) (p ∷ requested))

-- What a service key may carry of what its issuer holds.
unfoldable pub delegable : List Permission → List Permission
delegable held = filter (λ p. includes held p) service_delegable_permissions

unfoldable pub grantable_to :
    CredentialKind → List Permission → Result (List Permission) ProjectError
grantable_to ingest held = within_grant ingest_permissions held
grantable_to service held = within_grant (delegable held) held
