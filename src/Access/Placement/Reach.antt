-- ===== src/Access/Placement/Reach.antt =====
-- How far a binding reaches, as a relation, and the function that decides it.
use counted.Base.{
  true, false, Option-cases, List, String, Option, none, some, ◌≡◌, ◌↔◌, ◌⊎◌, ◌≢◌, inl, inr, refl,
  arith, eq_iff, includes, text_equality,
}
use counted.Access.Placement.{
  Placement, Resource, dashboard, Binding, to_nothing, to_workspace, to_projects, to_dashboard,
  covers, covered, covers_dashboard, is_elsewhere,
}

-- What a binding is meant to reach.
pub data Reaches : Binding → Placement → Resource → Type 0 where
  -- A workspace reaches all that is placed in it.
  in_workspace :
      {w : String} {l : Placement} {r : Resource}
      → l.workspace ≡ some w
      → Reaches (to_workspace w) l r
  -- A set of projects reaches what is placed in one of them, in the same workspace if it has one.
  in_project :
      {w : Option String} {ps : List String} {l : Placement} {r : Resource} (p : String)
      → l.project ≡ some p
      → includes ps p ≡ true
      → (w ≡ none) ⊎ (l.workspace ≡ w)
      → Reaches (to_projects w ps) l r
  -- A share link reaches its own dashboard by identity.
  own_dashboard :
      {d : String} {ps : List String} {l : Placement} {r : Resource}
      → r ≡ dashboard d
      → Reaches (to_dashboard d ps) l r
  -- Anything else it reaches is placed in a project that the dashboard reads.
  read_project :
      {d : String} {ps : List String} {l : Placement} {r : Resource} (p : String)
      → ((id : String) → r ≢ dashboard id)
      → l.project ≡ some p
      → includes ps p ≡ true
      → Reaches (to_dashboard d ps) l r

elsewhere_iff :
    (w owner : Option String) → (is_elsewhere w owner ≡ false) ↔ ((w ≡ none) ⊎ (owner ≡ w))
elsewhere_iff none owner = (λ h. inl refl, λ h. refl)
elsewhere_iff (some w) none = ground arith
elsewhere_iff (some w) (some owner) = ground (arith, eq_iff owner w)

covers-other :
    (d : String) (ps : List String) (l : Placement) (r : Resource) (p : String)
    → ((id : String) → r ≢ dashboard id)
    → l.project ≡ some p
    → includes ps p ≡ true
    → covers_dashboard d ps l r ≡ covered
covers-other d ps l (dashboard id) p h m s = absurd (h id refl)
covers-other d ps l r p h m s = ground arith

Reaches-covers :
    {b : Binding} {l : Placement} {r : Resource} → Reaches b l r → covers b l r ≡ covered
unfolding covers
Reaches-covers (in_workspace {w} h) = ground (arith, eq_iff w w)
Reaches-covers (in_project {w} {l} p h m s) =
    let here : is_elsewhere w l.workspace ≡ false = (elsewhere_iff w l.workspace).1 s in
    ground arith
Reaches-covers (own_dashboard {d} h) = ground (arith, eq_iff d d)
Reaches-covers (read_project {d} {ps} {l} {r} p h m s) = covers-other d ps l r p h m s

covers-project_Reaches :
    (w : Option String) (ps : List String) (l : Placement) (r : Resource)
    → covers (to_projects w ps) l r ≡ covered
    → Reaches (to_projects w ps) l r
unfolding covers
covers-project_Reaches w ps l r h = elim (Option-cases l.project) [
  | inl e ↦ ground arith
  | inr (p, e) ↦ in_project p e (ground arith) ((elsewhere_iff w l.workspace).0 (ground arith))
]

covers-dashboard_Reaches :
    (d : String) (ps : List String) (l : Placement) (r : Resource)
    → covers (to_dashboard d ps) l r ≡ covered
    → Reaches (to_dashboard d ps) l r
unfolding covers
covers-dashboard_Reaches d ps l (dashboard id) h = own_dashboard (ground (arith, eq_iff id d))
covers-dashboard_Reaches d ps l r h = elim (Option-cases l.project) [
  | inl e ↦ ground arith
  | inr (p, e) ↦ read_project p (λ id. ground arith) e (ground arith)
]

covers-Reaches :
    (b : Binding) (l : Placement) (r : Resource) → covers b l r ≡ covered → Reaches b l r
unfolding covers
covers-Reaches to_nothing l r h = cc
covers-Reaches (to_workspace w) l r h = elim (Option-cases l.workspace) [
  | inl e ↦ ground arith
  | inr (owner, e) ↦ in_workspace (ground (arith, eq_iff owner w))
]
covers-Reaches (to_projects w ps) l r h = covers-project_Reaches w ps l r h
covers-Reaches (to_dashboard d ps) l r h = covers-dashboard_Reaches d ps l r h

-- The one comparison of a binding to a placement covers exactly what the binding is meant to reach:
-- the function is sound and complete for the relation.
pub covers_iff :
    (b : Binding) (l : Placement) (r : Resource) → (covers b l r ≡ covered) ↔ Reaches b l r
covers_iff b l r = (covers-Reaches b l r, Reaches-covers)
