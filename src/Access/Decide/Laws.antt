-- ===== src/Access/Decide/Laws.antt =====
-- Who is let through, and where two readings of one policy agree.
use counted.Base.{
  Bool, true, List, [], ◌∷◌, ◌++◌, String, Option, none, some, ◌≡◌, ◌↔◌, ◌⊎◌, inl, inr, refl, sym,
  ◌∙◌, arith, includes, includes-filter, any, Option-cases, text_equality,
}
use mathlib.Core.Option
use counted.Kernel.Authz.{Permission, permission_eq}
use counted.Access.Principal.{
  Principal, anonymous, account, service, ingest, share, WorkspaceRole, AccountPrincipal,
  ServicePrincipal, Projects, every, only,
}
use counted.Access.Grants.{AccessControl, permits, permissions_for_role}
use counted.Access.Grants.Table.{includes-permissions_for_role}
use counted.Access.Placement.{
  Placement, Resource, Binding, covered, binding_of, covers, to_projects, to_workspace,
  binding_of_projects,
}
use counted.Access.Placement.Reach.{
  Reaches, covers_iff, in_workspace, in_project, own_dashboard, read_project,
}
use counted.Access.Decide.{
  allow, holds, permissions_held_by, decide, decide_unplaced, holding, under_ceiling, decide_held,
  refused_early,
}

any-last {ℓ} :
    {A : Type ℓ} (p : A → Bool) (xs : List A) (a : A) → p a ≡ true → any p (xs ++ a ∷ []) ≡ true
any-last p [] a h = ground arith
any-last p (x ∷ xs) a h = ground (arith, any-last p xs a h)

module _ (lib : AccessControl) where
  -- The check that goes straight to the grant table and the list that a principal is expanded to
  -- hold the same permissions.
  pub holds-includes :
      (p : Principal) (permission : Permission)
      → holds lib p permission ≡ includes (permissions_held_by lib p) permission
  unfolding holds
  holds-includes anonymous permission = refl
  holds-includes (service s) permission = refl
  holds-includes (ingest i) permission = refl
  holds-includes (share s) permission = refl
  holds-includes (account a) permission = elim (Option-cases a.standing) [
    | inl e ↦ rw e refl
    | inr (standing, e) ↦ rw e (
        sym (
          includes-filter (λ p. under_ceiling a.permission_ceiling p)
            (permissions_for_role lib standing.role) permission
          ∙ (rw (includes-permissions_for_role lib standing.role permission) refl)))
  ]

  allow-decide_held :
      (p : Principal) (permission : Permission) (l : Placement) (r : Resource)
      → (decide_held lib p permission l r ≡ allow)
        ↔ ((holds lib p permission ≡ true) × (covers (binding_of p) l r ≡ covered))
  allow-decide_held p permission l r = ground arith

  held-not_early :
      (p : Principal) (permission : Permission)
      → holds lib p permission ≡ true
      → refused_early p ≡ none
  unfolding holds
  held-not_early p permission h = ground arith

  -- A principal is let through exactly where it holds the permission and its binding reaches the
  -- resource: the two refusals that come first refuse nobody else.
  pub decide_iff :
      (p : Principal) (permission : Permission) (l : Placement) (r : Resource)
      → (decide lib p permission l r ≡ allow)
        ↔ ((holds lib p permission ≡ true) × Reaches (binding_of p) l r)
  unfolding decide
  decide_iff p permission l r = ground (
    arith,
    allow-decide_held p permission l r,
    held-not_early p permission,
    covers_iff (binding_of p) l r,
  )

  service_binding :
      (v w : String) (q : Projects)
      → v ≡ w
      → (binding_of_projects v q ≡ to_workspace w)
        ⊎ ((ps : List String) × (binding_of_projects v q ≡ to_projects (some w) ps))
  service_binding v w every h = inl (cc)
  service_binding v w (only ps) h = inr (ps, cc)

  -- The workspace that a principal belongs to, where it belongs to one.
  abbrev pub home : Principal → Option String
  home anonymous = none
  home (account a) = Option.map (λ (s : WorkspaceRole). s.workspace) a.standing
  home (service s) = some s.workspace
  home (ingest i) = i.workspace
  home (share s) = none

  Reaches-workspace :
      {b : Binding} {l : Placement} {r : Resource} (w : String)
      → Reaches b l r
      → (b ≡ to_workspace w) ⊎ ((ps : List String) × (b ≡ to_projects (some w) ps))
      → l.workspace ≡ some w
  Reaches-workspace w (in_workspace h) k = ground arith
  Reaches-workspace w (in_project p h m s) k = ground arith
  Reaches-workspace w (own_dashboard h) k = ground arith
  Reaches-workspace w (read_project p h m s) k = ground arith

  home_binding :
      (p : Principal) (w : String)
      → home p ≡ some w
      → (binding_of p ≡ to_workspace w)
        ⊎ ((ps : List String) × (binding_of p ≡ to_projects (some w) ps))
  unfolding binding_of
  home_binding anonymous w h = cc
  home_binding (account a) w h = ground arith
  home_binding (service s) w h = service_binding s.workspace w s.projects (cc)
  home_binding (ingest i) w h = inr (i.project ∷ [], ground arith)
  home_binding (share s) w h = cc

  -- Tenants are kept apart: whoever belongs to a workspace, by membership or by the key that was
  -- issued there, is let through to nothing that another workspace, or none, owns.
  pub decide-same_workspace :
      (p : Principal) (permission : Permission) (l : Placement) (r : Resource) (w : String)
      → home p ≡ some w
      → decide lib p permission l r ≡ allow
      → l.workspace ≡ some w
  decide-same_workspace p permission l r w h k =
      Reaches-workspace w ((decide_iff p permission l r).0 k).1 (home_binding p w h)

  Reaches-project :
      {b : Binding} {l : Placement} {r : Resource} (w : Option String) (ps : List String)
      → Reaches b l r
      → b ≡ to_projects w ps
      → (q : String) × (l.project ≡ some q) × (includes ps q ≡ true)
  Reaches-project w ps (in_workspace h) k = cc
  Reaches-project w ps (in_project p h m s) k = (p, h, ground arith)
  Reaches-project w ps (own_dashboard h) k = cc
  Reaches-project w ps (read_project p h m s) k = cc

  -- A service key that is narrowed to some projects is let through only to what is placed in one of
  -- them, whatever permissions it carries: never to what the workspace itself holds.
  pub narrowed_key :
      (s : ServicePrincipal) (ps : List String) (permission : Permission) (l : Placement)
      (r : Resource)
      → s.projects ≡ only ps
      → decide lib (service s) permission l r ≡ allow
      → (q : String) × (l.project ≡ some q) × (includes ps q ≡ true)
  unfolding binding_of
  narrowed_key s ps permission l r h k =
      Reaches-project (some s.workspace) ps ((decide_iff (service s) permission l r).0 k).1
        (ground arith)

  account_unplaced :
      (a : AccountPrincipal) (permission : Permission) (standings : List WorkspaceRole)
      → holds lib (account a) permission ≡ true
      → decide_unplaced lib (account a) (holding permission) standings ≡ allow
  unfolding holds decide_unplaced
  account_unplaced a permission standings h = elim (Option-cases a.standing) [
    | inl e ↦ ground arith
    | inr (standing, e) ↦
        ground (
          arith,
          any-last (λ (s : WorkspaceRole). permits lib s.role permission) standings standing,
        )
  ]

  -- Whoever is let through to some resource is let through where no resource is named, whatever
  -- list of standings the caller found.
  pub decide-decide_unplaced :
      (p : Principal) (permission : Permission) (l : Placement) (r : Resource)
      (standings : List WorkspaceRole)
      → decide lib p permission l r ≡ allow
      → decide_unplaced lib p (holding permission) standings ≡ allow
  unfolding decide_unplaced
  decide-decide_unplaced anonymous permission l r standings h =
      ground (arith, decide_iff anonymous permission l r, holds-includes anonymous permission)
  decide-decide_unplaced (account a) permission l r standings h =
      account_unplaced a permission standings ((decide_iff (account a) permission l r).0 h).0
  decide-decide_unplaced p permission l r standings h =
      ground (arith, decide_iff p permission l r, holds-includes p permission)
