-- ===== src/Access/Principal.antt =====
-- packages/authorization/src/principal.ts: who is asking.
use counted.Base.{List, String, Option, none, some}
use counted.Kernel.Authz.{Role, Permission}
use Prim.Native.String

pub record WorkspaceRole : Type 0 where
  pub workspace : String
  pub role : Role

-- `readonly ProjectId[] | "all"`
pub data Projects : Type 0 where
  every : Projects
  only : List String → Projects

-- The standing of an account may be missing, and so may the ceiling of a delegated consent.
pub record AccountPrincipal : Type 0 where
  pub account : String
  pub standing : Option WorkspaceRole
  pub permission_ceiling : Option (List Permission)

pub record ServicePrincipal : Type 0 where
  pub credential : String
  pub workspace : String
  pub projects : Projects
  pub permissions : List Permission
  pub on_behalf_of : String

pub record IngestPrincipal : Type 0 where
  pub credential : String
  pub project : String
  pub workspace : Option String
  pub permissions : List Permission

pub record SharePrincipal : Type 0 where
  pub credential : String
  pub dashboard : String
  pub projects : List String
  pub permissions : List Permission

pub data Principal : Type 0 where
  anonymous : Principal
  account : AccountPrincipal → Principal
  service : ServicePrincipal → Principal
  ingest : IngestPrincipal → Principal
  share : SharePrincipal → Principal

-- Whom to record as the author of what this principal creates.
unfoldable pub actor : Principal → Option String
actor (account a) = some a.account
actor (service s) = some s.on_behalf_of
actor _ = none

unfoldable pub credential : Principal → Option String
credential (service s) = some s.credential
credential (ingest i) = some i.credential
credential (share s) = some s.credential
credential _ = none

unfoldable pub describe : Principal → String
describe anonymous = "anonymous"
describe (account a) = String.◌++◌ "account:" a.account
describe (service s) = String.◌++◌ "service:" s.credential
describe (ingest i) = String.◌++◌ "ingest:" i.credential
describe (share s) = String.◌++◌ "share:" s.credential
