-- ===== src/Projects/Errors.antt =====
-- packages/projects/domain/src/errors.ts: what the rules refuse.
use counted.Base.{ℕ, List, String}
use counted.Kernel.Authz.{Permission}

pub data ProjectError : Type 0 where
  name_required name_unchanged permissions_required : ProjectError
  permission_escalation : List Permission → List Permission → ProjectError
  credential_exists unknown_credential credential_revoked credential_expired : String → ProjectError
  last_ingest_credential : String → ProjectError
  rotation_kind_mismatch already_claimed grant_expired grant_mismatch : ProjectError
  project_archived project_not_archived : String → ProjectError
  invalid_retention : ℕ → ProjectError
  retention_unchanged : ProjectError
