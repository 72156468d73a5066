-- ===== src/Projects/Credential.antt =====
-- packages/projects/domain/src/credential.ts: the rules about credentials. The rules are generic in
-- the record that a caller holds; they read no more than these facts.
pub mod Laws
use counted.Base.{
  ℕ, ltb, Bool, true, false, not, ◌&&◌, ◌||◌, List, String, Option, none, some, ◌==◌, text_equality,
  filter, find, length, is_empty, trim, if◌then◌else◌,
}
use counted.Kernel.Result.{Result, ok, err, ◌>>=◌}
use counted.Kernel.Instant.{Instant, is_after}
use counted.Projects.Errors.{
  ProjectError, name_required, credential_exists, unknown_credential, credential_revoked,
  credential_expired, last_ingest_credential, rotation_kind_mismatch,
}

pub data CredentialKind : Type 0 where
  ingest service : CredentialKind

pub record CredentialFacts : Type 0 where
  pub id : String
  pub kind : CredentialKind
  pub name : String
  pub expires_at : Option Instant
  pub revoked_at : Option Instant

pub data CredentialStatus : Type 0 where
  active expiring revoked expired : CredentialStatus

abbrev status_by_expiry : Option Instant → Instant → CredentialStatus
status_by_expiry none at = active
status_by_expiry (some expires_at) at = if is_after expires_at at then expiring else expired

unfoldable pub credential_status : CredentialFacts → Instant → CredentialStatus
credential_status c at = elim c.revoked_at [
  | some since ↦ revoked
  | none ↦ status_by_expiry c.expires_at at
]

abbrev works : CredentialStatus → Bool
works active = true
works expiring = true
works _ = false

unfoldable pub is_usable : CredentialFacts → Instant → Bool
unfolding credential_status
is_usable c at = works (credential_status c at)

abbrev pub usable_credentials : List CredentialFacts → Instant → List CredentialFacts
usable_credentials credentials at = filter (λ c. is_usable c at) credentials

abbrev pub is_ingest : CredentialKind → Bool
is_ingest ingest = true
is_ingest service = false

abbrev pub usable_ingest_credentials : List CredentialFacts → Instant → List CredentialFacts
usable_ingest_credentials credentials at =
    filter (λ c. is_ingest c.kind && is_usable c at) credentials

abbrev pub can_ingest : List CredentialFacts → Instant → Bool
can_ingest credentials at = ltb 0 (length (usable_ingest_credentials credentials at))

unfoldable pub name_is_available :
    List CredentialFacts → String → Instant → Result String ProjectError
unfolding is_usable
name_is_available credentials name at =
    if is_empty (trim name)
    then err name_required
    else elim (find (λ c. is_usable c at && c.name == trim name) credentials) [
      | some clash ↦ err (credential_exists clash.id)
      | none ↦ ok (trim name)
    ]

abbrev live_by_status :
    CredentialFacts → String → CredentialStatus → Result CredentialFacts ProjectError
live_by_status found target revoked = err (credential_revoked target)
live_by_status found target expired = err (credential_expired target)
live_by_status found target _ = ok found

-- Find a credential, or say why it cannot be acted on.
unfoldable pub live : List CredentialFacts → String → Instant → Result CredentialFacts ProjectError
unfolding credential_status
live credentials target at = elim (find (λ c. c.id == target) credentials) [
  | none ↦ err (unknown_credential target)
  | some found ↦ live_by_status found target (credential_status found at)
]

abbrev remaining_cover : List CredentialFacts → String → Instant → List CredentialFacts
remaining_cover credentials target at =
    filter (λ c. not (c.id == target)) (usable_ingest_credentials credentials at)

unfoldable pub may_revoke :
    List CredentialFacts → String → Instant → Result CredentialFacts ProjectError
unfolding live
may_revoke credentials target at = do
  found ← live credentials target at
  if is_ingest found.kind && not (ltb 0 (length (remaining_cover credentials target at)))
      then err (last_ingest_credential target)
      else ok found

abbrev kind_differs : Option CredentialKind → CredentialKind → Bool
kind_differs none kind = false
kind_differs (some ingest) kind = not (is_ingest kind)
kind_differs (some service) kind = is_ingest kind

unfoldable pub may_rotate :
    List CredentialFacts
    → String
    → Option CredentialKind
    → Instant
    → Result CredentialFacts ProjectError
unfolding live
may_rotate credentials target expected at = do
  found ← live credentials target at
  if kind_differs expected found.kind then err rotation_kind_mismatch else ok found
