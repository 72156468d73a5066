-- ===== src/Access/Grants/Table.antt =====
-- The grant table that the library is asked for.
use counted.Base.{
  filter, filter_same, Bool, true, false, ◌&&◌, ◌||◌, List, [], ◌∷◌, String, ◌≡◌, refl, ◌==◌,
  text_equality, includes, includes-filter, any, ◌∙◌, arith,
}
use counted.Kernel.Authz.{
  Role, owner, admin, member, at_least, Permission, all_permissions, resource, action,
  permission_eq, events_write, projects_write, projects_delete, credentials_read, credentials_write,
  workspace_admin, billing_read, billing_write,
}
use counted.Access.Grants.{
  AccessControl, role_text, adds, allow_all, grants_from, build_grants, holdings, permits,
  permissions_for_role,
}

-- The lowest role that has a permission, as the product describes it.
abbrev pub least_role : Permission → Role
least_role projects_delete = owner
least_role workspace_admin = owner
least_role billing_write = owner
least_role events_write = admin
least_role projects_write = admin
least_role credentials_read = admin
least_role credentials_write = admin
least_role billing_read = admin
least_role _ = member

-- Whether a list of permissions has one with this action on this resource.
abbrev names : List Permission → String → String → Bool
names ps a r = any (λ p. action p == a && resource p == r) ps

pub includes-all_permissions : (p : Permission) → includes all_permissions p ≡ true
includes-all_permissions events_write = refl
includes-all_permissions _ = refl

-- What the laws of the library make of the calls of `buildGrants`; the tests against `false` are
-- those of a role that extends nothing yet.
abbrev held : String → String → String → Bool
held q a r =
    let low = names (adds member) a r in
    let middle = names (adds admin) a r in
    let is_admin = q == "admin" || q == "admin" && false in
    let is_owner = q == "owner" || q == "admin" && false in
    q == "member" && low
    || q == "admin" && low
    || is_admin && middle
    || is_owner && (low || middle)
    || (is_owner || is_owner && false) && names (adds owner) a r

held-table :
    (role : Role) (p : Permission)
    → held (role_text role) (action p) (resource p) ≡ at_least role (least_role p)
held-table owner events_write = refl
held-table owner _ = refl
held-table admin events_write = refl
held-table admin _ = refl
held-table member events_write = refl
held-table member _ = refl

module _ (lib : AccessControl) where
  open lib use {
    Ac, new, grant, extend, allow, lock, granted, inherits, granted-new, granted-grant,
    granted-lock, granted-allow, granted-extend, inherits-new, inherits-grant, inherits-allow,
    inherits-extend,
  }

  inherits-allow_all :
      (ac : Ac) (n : String) (ps : List Permission) (q s : String)
      → inherits (allow_all lib ac n ps) q s ≡ inherits ac q s
  unfolding allow_all
  inherits-allow_all ac n [] q s = refl
  inherits-allow_all ac n (p ∷ ps) q s =
      inherits-allow_all (allow ac n (action p) (resource p)) n ps q s
      ∙ inherits-allow ac n (action p) (resource p) q s

  granted-allow_all :
      (ac : Ac) (n : String) (ps : List Permission) (q a r : String)
      → granted (allow_all lib ac n ps) q a r
        ≡ (granted ac q a r || (inherits ac q n && names ps a r))
  unfolding allow_all
  granted-allow_all ac n [] q a r = ground arith
  granted-allow_all ac n (p ∷ ps) q a r = ground (
    arith,
    granted-allow_all (allow ac n (action p) (resource p)) n ps q a r,
    granted-allow ac n (action p) (resource p) q a r,
    inherits-allow ac n (action p) (resource p) q n,
  )

  granted-build :
      (role : Role) (p : Permission)
      → granted (build_grants lib) (role_text role) (action p) (resource p)
        ≡ at_least role (least_role p)
  unfolding build_grants grants_from
  granted-build role p =
      simp
        (
          granted-lock, granted-allow_all, granted-extend, granted-grant, granted-new,
          inherits-allow_all, inherits-extend, inherits-grant, inherits-new,
        )
        (held-table role p)

  -- Whatever implementation of the library keeps its manual's word, the table that is built at load
  -- gives a role a permission exactly
  -- where the role is at least the lowest one that has it.
  pub permits_lem :
      (role : Role) (p : Permission) → permits lib role p ≡ at_least role (least_role p)
  unfolding permits holdings
  permits_lem role p =
      includes-filter (λ q. granted (build_grants lib) (role_text role) (action q) (resource q))
        all_permissions p
      ∙ (rw (includes-all_permissions p) (granted-build role p))

  -- The list that a role is expanded to has exactly what the role permits.
  pub includes-permissions_for_role :
      (role : Role) (p : Permission)
      → includes (permissions_for_role lib role) p ≡ permits lib role p
  unfolding permissions_for_role permits
  includes-permissions_for_role role p =
      includes-filter (λ q. includes (holdings lib role) q) all_permissions p
      ∙ (rw (includes-all_permissions p) refl)

  -- A role is expanded to the permissions whose lowest role it is at least, in the order of the
  -- vocabulary.
  pub permissions_for_role_lem :
      (role : Role)
      → permissions_for_role lib role ≡ filter (λ p. at_least role (least_role p)) all_permissions
  unfolding permissions_for_role permits
  permissions_for_role_lem role =
      filter_same (λ p. includes (holdings lib role) p) (λ p. at_least role (least_role p))
        (permits_lem role) all_permissions
