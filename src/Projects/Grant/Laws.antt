-- ===== src/Projects/Grant/Laws.antt =====
-- What a granted key carries.
use counted.Base.{
  true, not, ◌&&◌, List, [], ◌∷◌, ◌≡◌, ◌≢◌, ◌⊎◌, refl, inl, inr, arith, filter, includes,
  includes-filter,
}
use counted.Kernel.Result.{ok, err}
use counted.Kernel.Authz.{
  Permission, permission_eq, permission_beq_iff, events_write, workspace_admin, billing_write, Role,
}
use counted.Projects.Credential.{CredentialKind, ingest, service}
use counted.Projects.Errors.{permissions_required}
use counted.Projects.Grant.{
  within_grant, grantable_to, delegable, ingest_permissions, service_delegable_permissions,
}
use counted.Access.Principal.{ServicePrincipal, Principal}
use counted.Access.Grants.{AccessControl, permits, permissions_for_role}
use counted.Access.Grants.Table.{includes-permissions_for_role}
use counted.Access.Placement.{Placement, Resource}
use counted.Access.Decide.{decide, allow, permissions_held_by}
use counted.Access.Decide.Laws.{decide_iff, holds-includes}

-- What a filter against a list leaves out is in the list.
excess-none :
    (requested held : List Permission) (p : Permission)
    → filter (λ q. not (includes held q)) requested ≡ []
    → includes requested p ≡ true
    → includes held p ≡ true
excess-none [] held p h m = cc
excess-none (q ∷ requested) held p h m =
    ground (arith, excess-none requested held p, permission_beq_iff q p)

within_grant_ok :
    (requested held ps : List Permission)
    → within_grant requested held ≡ ok ps
    → (ps ≡ requested) × (filter (λ q. not (includes held q)) requested ≡ [])
unfolding within_grant
within_grant_ok [] held ps h = cc
within_grant_ok (q ∷ requested) held ps h =
    ground (arith, excess-cases (filter (λ q. not (includes held q)) (q ∷ requested)))
  where
    excess-cases :
        (xs : List Permission)
        → (xs ≡ []) ⊎ ((y : Permission) × (ys : List Permission) × (xs ≡ y ∷ ys))
    excess-cases [] = inl refl
    excess-cases (y ∷ ys) = inr (y, ys, refl)

filter_none :
    (xs held : List Permission)
    → filter (λ q. not (includes held q)) (filter (λ p. includes held p) xs) ≡ []
filter_none [] held = refl
filter_none (x ∷ xs) held = ground (arith, filter_none xs held)

delegable-excess :
    (held : List Permission) → filter (λ q. not (includes held q)) (delegable held) ≡ []
unfolding delegable
delegable-excess held = filter_none service_delegable_permissions held

includes-delegable :
    (held : List Permission) (p : Permission)
    → includes (delegable held) p ≡ (includes service_delegable_permissions p && includes held p)
unfolding delegable
includes-delegable held p = includes-filter (λ q. includes held q) service_delegable_permissions p

-- The two permissions that no service key carries.
not_delegable :
    (held : List Permission) (p : Permission)
    → includes (delegable held) p ≡ true
    → (p ≢ workspace_admin) × (p ≢ billing_write)
not_delegable held p m = (
  λ e. cc (includes-delegable held workspace_admin, rw e at m),
  λ e. cc (includes-delegable held billing_write, rw e at m),
)

-- A key that is granted carries only permissions that its issuer holds; a service key never carries
-- the administration of the workspace or its billing, and an ingest key only the right to send.
pub grantable_to_within :
    (kind : CredentialKind) (held ps : List Permission) (p : Permission)
    → grantable_to kind held ≡ ok ps
    → includes ps p ≡ true
    → (includes held p ≡ true)
      × (p ≢ workspace_admin)
      × (p ≢ billing_write)
      × ((kind ≡ ingest) → p ≡ events_write)
unfolding grantable_to
grantable_to_within ingest held ps p h m =
    let granted = within_grant_ok ingest_permissions held ps h in
    ground (
      arith,
      granted,
      excess-none ingest_permissions held p granted.1,
      permission_beq_iff events_write p,
    )
grantable_to_within service held ps p h m =
    let granted = within_grant_ok (delegable held) held ps h in
    let kept : includes (delegable held) p ≡ true = rw granted.0 at m in
    (
      excess-none (delegable held) held p granted.1 kept,
      (not_delegable held p kept).0,
      (not_delegable held p kept).1,
      λ e. cc,
    )

within_grant_cases :
    (requested held : List Permission)
    → filter (λ q. not (includes held q)) requested ≡ []
    → ((requested ≡ []) × (within_grant requested held ≡ err permissions_required))
      ⊎ ((requested ≢ []) × (within_grant requested held ≡ ok requested))
unfolding within_grant
within_grant_cases [] held h = inl (refl, refl)
within_grant_cases (p ∷ requested) held h = inr (λ e. cc, rw h refl)

-- The error that names an excess is never made for a service key, since what its issuer lacks is
-- left out before: the key is refused only where nothing is left to delegate.
pub grantable_to_service :
    (held : List Permission)
    → ((delegable held ≡ []) × (grantable_to service held ≡ err permissions_required))
      ⊎ ((delegable held ≢ []) × (grantable_to service held ≡ ok (delegable held)))
unfolding grantable_to
grantable_to_service held = within_grant_cases (delegable held) held (delegable-excess held)

-- No escalation through a key: where a service key was granted what the issuer's role may delegate,
-- whatever the key is let through to is permitted to that role.
pub no_escalation :
    (lib : AccessControl) (role : Role) (ps : List Permission) (s : ServicePrincipal)
    (permission : Permission) (l : Placement) (r : Resource)
    → grantable_to service (permissions_for_role lib role) ≡ ok ps
    → s.permissions ≡ ps
    → decide lib (Principal.service s) permission l r ≡ allow
    → permits lib role permission ≡ true
unfolding permissions_held_by
no_escalation lib role ps s permission l r granted carries allowed =
    let held : includes ps permission ≡ true = ground (
      arith,
      decide_iff lib (Principal.service s) permission l r,
      holds-includes lib (Principal.service s) permission,
    ) in
    let kept : includes (permissions_for_role lib role) permission ≡ true =
      (grantable_to_within service (permissions_for_role lib role) ps permission granted held).0 in
    cc (includes-permissions_for_role lib role permission)
