-- ===== src/Access/Placement.antt =====
-- packages/authorization/src/placement.ts: is this resource inside this principal's reach.
pub mod Reach
use counted.Base.{
  Bool, true, false, ◌&&◌, List, [], ◌∷◌, String, Option, none, some, ◌==◌, text_equality,
  option_beq, includes, if◌then◌else◌,
}
use counted.Access.Principal.{
  Principal, anonymous, account, service, ingest, share, WorkspaceRole, Projects, every, only,
  AccountPrincipal, ServicePrincipal, IngestPrincipal, SharePrincipal,
}

pub record Placement : Type 0 where
  pub workspace : Option String
  pub project : Option String

pub data Resource : Type 0 where
  workspace project dashboard monitor credential : String → Resource

pub data Binding : Type 0 where
  to_nothing : Binding
  to_workspace : String → Binding
  to_projects : Option String → List String → Binding
  to_dashboard : String → List String → Binding

pub data CoverageGap : Type 0 where
  bound_to_nothing unplaced different_workspace different_project : CoverageGap
  placed_above_binding different_dashboard : CoverageGap

pub data Coverage : Type 0 where
  covered : Coverage
  missing : CoverageGap → Coverage

abbrev pub is_covered : Coverage → Bool
is_covered covered = true
is_covered (missing gap) = false

abbrev binding_of_standing : Option WorkspaceRole → Binding
binding_of_standing none = to_nothing
binding_of_standing (some standing) = to_workspace standing.workspace

abbrev pub binding_of_projects : String → Projects → Binding
binding_of_projects w every = to_workspace w
binding_of_projects w (only ps) = to_projects (some w) ps

unfoldable pub binding_of : Principal → Binding
binding_of anonymous = to_nothing
binding_of (account a) = binding_of_standing a.standing
binding_of (service s) = binding_of_projects s.workspace s.projects
binding_of (ingest i) = to_projects i.workspace (i.project ∷ [])
binding_of (share s) = to_dashboard s.dashboard s.projects

abbrev covers_workspace : String → Option String → Coverage
covers_workspace w none = missing unplaced
covers_workspace w (some owner) = if owner == w then covered else missing different_workspace

-- `binding.workspace !== null && placement.workspace !== binding.workspace`
abbrev is_elsewhere : Option String → Option String → Bool
is_elsewhere none owner = false
is_elsewhere (some w) none = true
is_elsewhere (some w) (some owner) = if owner == w then false else true

abbrev covers_projects : Option String → List String → Placement → Option String → Coverage
covers_projects w ps placement none = missing placed_above_binding
covers_projects w ps placement (some p) =
    if includes ps p
    then if is_elsewhere w placement.workspace then missing different_workspace else covered
    else missing different_project

abbrev covers_read : List String → Option String → Coverage
covers_read ps none = missing placed_above_binding
covers_read ps (some p) = if includes ps p then covered else missing different_project

abbrev covers_dashboard : String → List String → Placement → Resource → Coverage
covers_dashboard d ps placement (dashboard id) =
    if id == d then covered else missing different_dashboard
covers_dashboard d ps placement _ = covers_read ps placement.project

unfoldable pub covers : Binding → Placement → Resource → Coverage
covers to_nothing placement resource = missing bound_to_nothing
covers (to_workspace w) placement resource = covers_workspace w placement.workspace
covers (to_projects w ps) placement resource = covers_projects w ps placement placement.project
covers (to_dashboard d ps) placement resource = covers_dashboard d ps placement resource

unfoldable pub reaches : Binding → Placement → Resource → Bool
unfolding covers
reaches binding placement resource = is_covered (covers binding placement resource)
