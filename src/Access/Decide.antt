-- ===== src/Access/Decide.antt =====
-- packages/authorization/src/decide.ts: the one authorization function, and its unplaced form.
pub mod Laws
use counted.Base.{
  Bool, true, false, ◌&&◌, List, [], ◌∷◌, ◌++◌, String, Option, none, some, filter, includes, any,
  if◌then◌else◌,
}
use counted.Kernel.Authz.{Permission, permission_eq}
use counted.Access.Principal.{
  Principal, anonymous, account, service, ingest, share, WorkspaceRole, AccountPrincipal,
}
use counted.Access.Grants.{AccessControl, permits, permissions_for_role}
use counted.Access.Placement.{
  Placement, Resource, CoverageGap, Coverage, covered, missing, binding_of, covers,
}

pub data Denial : Type 0 where
  not_authenticated : Denial
  not_a_member : String → Denial
  not_permitted : Permission → Denial
  out_of_binding : Permission → Resource → CoverageGap → Denial

pub data Decision : Type 0 where
  allow : Decision
  deny : Denial → Decision

abbrev pub allows : Decision → Bool
allows allow = true
allows (deny denial) = false

-- `ceiling === undefined || ceiling.includes(permission)`
abbrev pub under_ceiling : Option (List Permission) → Permission → Bool
under_ceiling none permission = true
under_ceiling (some ceiling) permission = includes ceiling permission

-- The two early returns of `decide`, and the refusal that they make.
abbrev refused_early : Principal → Option Denial
refused_early anonymous = some not_authenticated
refused_early (account a) = elim a.standing [
  | none ↦ some (not_a_member a.account)
  | some standing ↦ none
]
refused_early principal = none

abbrev decide_coverage : Permission → Resource → Coverage → Decision
decide_coverage permission resource covered = allow
decide_coverage permission resource (missing gap) = deny (out_of_binding permission resource gap)

module _ (lib : AccessControl) where
  abbrev held_by_account : Option WorkspaceRole → Option (List Permission) → List Permission
  held_by_account none ceiling = []
  held_by_account (some standing) ceiling =
      filter (λ p. under_ceiling ceiling p) (permissions_for_role lib standing.role)

  unfoldable pub permissions_held_by : Principal → List Permission
  permissions_held_by anonymous = []
  permissions_held_by (account a) = held_by_account a.standing a.permission_ceiling
  permissions_held_by (service s) = s.permissions
  permissions_held_by (ingest i) = i.permissions
  permissions_held_by (share s) = s.permissions

  abbrev account_holds : Option WorkspaceRole → Option (List Permission) → Permission → Bool
  account_holds none ceiling permission = false
  account_holds (some standing) ceiling permission =
      permits lib standing.role permission && under_ceiling ceiling permission

  unfoldable pub holds : Principal → Permission → Bool
  unfolding permissions_held_by
  holds (account a) permission = account_holds a.standing a.permission_ceiling permission
  holds principal permission = includes (permissions_held_by principal) permission

  abbrev decide_held : Principal → Permission → Placement → Resource → Decision
  decide_held principal permission placement resource =
      if holds principal permission
      then decide_coverage permission resource (covers (binding_of principal) placement resource)
      else deny (not_permitted permission)

  unfoldable pub decide : Principal → Permission → Placement → Resource → Decision
  decide principal permission placement resource = elim (refused_early principal) [
    | some denial ↦ deny denial
    | none ↦ decide_held principal permission placement resource
  ]

pub data UnplacedNeed : Type 0 where
  as_account as_credential : UnplacedNeed
  holding : Permission → UnplacedNeed

abbrev own_standing : Option WorkspaceRole → List WorkspaceRole
own_standing none = []
own_standing (some standing) = standing ∷ []

module _ (lib : AccessControl) where
  abbrev account_may : AccountPrincipal → Permission → List WorkspaceRole → Decision
  account_may a permission standings =
      if under_ceiling a.permission_ceiling permission
        && any (λ (s : WorkspaceRole). permits lib s.role permission)
            (standings ++ own_standing a.standing)
      then allow
      else deny (not_permitted permission)

  unfoldable pub decide_unplaced : Principal → UnplacedNeed → List WorkspaceRole → Decision
  unfolding permissions_held_by
  decide_unplaced anonymous need standings = deny not_authenticated
  decide_unplaced (account a) as_account standings = allow
  decide_unplaced (service s) as_account standings = allow
  decide_unplaced principal as_account standings = deny not_authenticated
  decide_unplaced (service s) as_credential standings = allow
  decide_unplaced (ingest i) as_credential standings = allow
  decide_unplaced principal as_credential standings = deny not_authenticated
  decide_unplaced (account a) (holding permission) standings = account_may a permission standings
  decide_unplaced principal (holding permission) standings =
      if includes (permissions_held_by lib principal) permission
      then allow
      else deny (not_permitted permission)
