-- ===== src/Tenancy/Workspace/Standing.antt =====
-- What word from the payment provider does to a workspace, and what it reports.
use counted.Base.{
  ℕ, ◌<◌, List, [], ◌∷◌, ◌++◌, Option, none, some, ◌≡◌, refl, arith, ◌⊎◌, inl, inr, option_beq_iff,
  nat_equality, true, Bool-cases,
}
use counted.Kernel.Instant.{Instant}
use counted.Tenancy.Limits.{WorkspaceLimits, over}
use counted.Tenancy.Limits
use counted.Tenancy.Plan.{plan_beq_iff}
use counted.Tenancy.Entitlement.{payment_beq_iff}
use counted.Tenancy.Workspace.{
  Workspace, WorkspaceStanding, WorkspaceEvent, limits, project_count, apply_standing,
  over_project_limit, change_events, limit_events,
}
use counted.Tenancy.Workspace.Cap.{Within}

equal_refl : (a : WorkspaceLimits) → Limits.equal a a ≡ true
unfolding Limits.equal
equal_refl a =
    ground
      (arith, option_beq_iff a.max_projects a.max_projects, option_beq_iff a.max_seats a.max_seats)

equal-max_projects :
    (a b : WorkspaceLimits) → Limits.equal a b ≡ true → a.max_projects ≡ b.max_projects
unfolding Limits.equal
equal-max_projects a b h = ground (arith, option_beq_iff a.max_projects b.max_projects)

-- Word from the provider that is delivered a second time changes nothing and emits nothing, at
-- whatever occupancy and instant it is applied again.
pub apply_standing_again :
    (w : Workspace) (s : WorkspaceStanding) (seats seats' : ℕ) (at later : Instant)
    → apply_standing (apply_standing w s seats at).workspace s seats' later
      ≡ record { workspace = (apply_standing w s seats at).workspace; events = [] }
unfolding apply_standing
apply_standing_again w s seats seats' at later = ground (
  arith,
  plan_beq_iff s.plan s.plan,
  payment_beq_iff s.payment s.payment,
  equal_refl (limits (record w { plan = s.plan; payment = s.payment })),
)

abbrev pub Emits : WorkspaceEvent → List WorkspaceEvent → Type 0
Emits e [] = ⊥
Emits e (x ∷ xs) = (x ≡ e) ⊎ Emits e xs

Within-of_over : (n : ℕ) (limit : Option ℕ) → over n limit ≡ none → Within n limit
unfolding over
Within-of_over n none h = tt
Within-of_over n (some limit) h = ground arith

Emits-append_right :
    (e : WorkspaceEvent) (xs ys : List WorkspaceEvent) → Emits e ys → Emits e (xs ++ ys)
Emits-append_right e [] ys m = m
Emits-append_right e (x ∷ xs) ys m = inr (Emits-append_right e xs ys m)

-- A standing that takes a workspace from within its cap to over it destroys no project, and is
-- reported with the active count and the new limit.
pub downgrade-Emits :
    (w : Workspace) (s : WorkspaceStanding) (seats limit : ℕ) (at : Instant)
    → Within (project_count w) (limits w).max_projects
    → (limits (apply_standing w s seats at).workspace).max_projects ≡ some limit
    → limit < project_count w
    → ((apply_standing w s seats at).workspace.projects ≡ w.projects)
      × Emits
          (over_project_limit w.id (project_count w) limit at)
          (apply_standing w s seats at).events
unfolding apply_standing over
downgrade-Emits w s seats limit at within e h =
    let next : Workspace = record w { plan = s.plan; payment = s.payment } in
    (
      refl,
      Emits-append_right (over_project_limit w.id (project_count w) limit at) (change_events w s at)
          (limit_events w next seats at)
          (elim (Bool-cases (Limits.equal (limits w) (limits next))) [
            | inl same ↦ ground (arith, equal-max_projects (limits w) (limits next))
            | inr changed ↦ ground arith
          ]),
    )
