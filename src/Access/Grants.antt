-- ===== src/Access/Grants.antt =====
-- packages/authorization/src/grants.ts: which role has which permission. The `accesscontrol`
-- package is not part of the repository: it is a parameter, with what its manual says of grants and
-- of roles that extend others.
pub mod Table
use counted.Base.{
  Bool, false, ◌&&◌, ◌||◌, List, [], ◌∷◌, String, ◌≡◌, ◌==◌, text_equality, filter, includes,
  Option, none, some,
}
use counted.Kernel.Authz.{
  Role, owner, admin, member, roles, Permission, all_permissions, resource, action, permission_eq,
  events_write, queries_run, projects_read, projects_write, projects_delete, dashboards_read,
  dashboards_write, monitors_read, monitors_write, credentials_read, credentials_write,
  workspace_read, workspace_admin, billing_read, billing_write,
}

pub record AccessControl : Type 1 where
  pub Ac : Type 0
  -- `new AccessControl()`, `ac.grant(role)`, `.extend(base)`, `.do(action, resource)`, `ac.lock()`
  pub new : Ac
  pub grant : Ac → String → Ac
  pub extend : Ac → String → String → Ac
  pub allow : Ac → String → String → String → Ac
  pub lock : Ac → Ac
  -- `ac.can(role).do(action, resource).granted`
  pub granted : Ac → String → String → String → Bool
  -- A role inherits from itself and from the roles that it extends, at any remove.
  pub inherits : Ac → String → String → Bool
  pub granted-new : (q a r : String) → granted new q a r ≡ false
  pub granted-grant : (ac : Ac) (n q a r : String) → granted (grant ac n) q a r ≡ granted ac q a r
  pub granted-lock : (ac : Ac) (q a r : String) → granted (lock ac) q a r ≡ granted ac q a r
  pub granted-allow :
      (ac : Ac) (n b s q a r : String)
      → granted (allow ac n b s) q a r
        ≡ (granted ac q a r || (inherits ac q n && (b == a && s == r)))
  pub granted-extend :
      (ac : Ac) (n base q a r : String)
      → granted (extend ac n base) q a r
        ≡ (granted ac q a r || (inherits ac q n && granted ac base a r))
  pub inherits-new : (q s : String) → inherits new q s ≡ (q == s)
  pub inherits-grant : (ac : Ac) (n q s : String) → inherits (grant ac n) q s ≡ inherits ac q s
  pub inherits-allow :
      (ac : Ac) (n b t q s : String) → inherits (allow ac n b t) q s ≡ inherits ac q s
  pub inherits-extend :
      (ac : Ac) (n base q s : String)
      → inherits (extend ac n base) q s
        ≡ (inherits ac q s || (inherits ac q n && inherits ac base s))

abbrev pub role_text : Role → String
role_text owner = "owner"
role_text admin = "admin"
role_text member = "member"

-- What each role adds to the one below it.
abbrev pub adds : Role → List Permission
adds member =
    queries_run ∷ projects_read ∷ dashboards_read ∷ dashboards_write ∷ monitors_read
    ∷ monitors_write ∷ workspace_read ∷ []
adds admin =
    events_write ∷ projects_write ∷ credentials_read ∷ credentials_write ∷ billing_read ∷ []
adds owner = projects_delete ∷ workspace_admin ∷ billing_write ∷ []

-- Lowest authority first.
abbrev pub inheritance : List Role
inheritance = member ∷ admin ∷ owner ∷ []

module _ (lib : AccessControl) where
  open lib use {Ac, new, grant, extend, allow, lock, granted}

  -- The inner loop of `buildGrants`.
  pub allow_all : Ac → String → List Permission → Ac
  allow_all ac role [] = ac
  allow_all ac role (p ∷ ps) = allow_all (allow ac role (action p) (resource p)) role ps

  abbrev pub extend_below : Ac → String → Option Role → Ac
  extend_below ac role none = ac
  extend_below ac role (some below) = extend ac role (role_text below)

  -- The outer loop, with the role below.
  pub grants_from : Ac → Option Role → List Role → Ac
  grants_from ac below [] = ac
  grants_from ac below (role ∷ roles) =
      grants_from
        (allow_all (extend_below (grant ac (role_text role)) (role_text role) below)
          (role_text role) (adds role))
        (some role) roles

  pub build_grants : Ac
  unfolding grants_from
  build_grants = lock (grants_from new none inheritance)

  -- HOLDINGS: the library is asked once for each role and permission.
  unfoldable pub holdings : Role → List Permission
  holdings role =
      filter (λ p. granted build_grants (role_text role) (action p) (resource p)) all_permissions

  unfoldable pub permits : Role → Permission → Bool
  permits role permission = includes (holdings role) permission

  unfoldable pub permissions_for_role : Role → List Permission
  permissions_for_role role = filter (λ p. includes (holdings role) p) all_permissions

  unfoldable pub roles_holding : Permission → List Role
  roles_holding permission = filter (λ role. permits role permission) roles
