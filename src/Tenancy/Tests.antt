-- ===== src/Tenancy/Tests.antt =====
-- Runs of the tenancy rules at concrete workspaces, subscriptions and limits.
use counted.Base.{[], ◌∷◌, some, ◌≡◌, ◌↔◌, refl, true, false, arith, trim}
use counted.Base.Int.{pos, ◌≤ℤ◌, ◌<ℤ◌}
use counted.Kernel.Result.{ok}
use counted.Kernel.Instant.{Instant, days}
use counted.Tenancy.Plan.{free, pro}
use counted.Tenancy.Entitlement.{
  PaymentState, active, past_due, canceled, Entitlement, resolve, is_paid,
}
use counted.Tenancy.Entitlement
use counted.Tenancy.Limits.{breached}
use counted.Tenancy.ProjectCount.{ProjectEntry, ProjectState, count_against_cap}
use counted.Tenancy.ProjectCount
use counted.Tenancy.Retention.{global_purge_cutoff, retention_cutoff, needs_row_purge}
use counted.Tenancy.Retention.Laws.{purge_is_safe}
use counted.Tenancy.Workspace.{
  Workspace, WorkspaceApplied, WorkspaceStanding, limits, project_count, open_workspace,
  register_project, apply_standing, workspace_opened, project_provisioned, over_project_limit,
}
use counted.Tenancy.Workspace.Invariant.{IsValid, registered, standing, here, next, Reach-IsValid}
use counted.Tenancy.Workspace.Cap.{Within, raise-Within}
use counted.Tenancy.Workspace.Standing.{downgrade-Emits, Emits}
use counted.Tenancy.Subscription.{
  Subscription, payment_failed, payment_recovered, subscription_canceled, entitlement_of,
  apply_billing_event,
}
use counted.Tenancy.Subscription.Laws.{canceled_regrants}

abbrev project_a : ProjectEntry
project_a = record { id = "prj_a"; name = "Shop"; state = ProjectCount.active }

abbrev project_b : ProjectEntry
project_b = record { id = "prj_b"; name = "Blog"; state = ProjectCount.active }

abbrev workspace_free : Workspace
workspace_free = record {
  id = "ws_1";
  name = "Acme";
  plan = free;
  payment = Entitlement.none;
  projects = project_a ∷ [];
}

abbrev workspace_two : Workspace
workspace_two = record workspace_free { projects = project_a ∷ project_b ∷ [] }

abbrev workspace_back : Workspace
workspace_back = record workspace_free {
  projects = record project_a { state = ProjectCount.archived } ∷ [];
}

abbrev workspace_pro : Workspace
workspace_pro = record workspace_free {
  plan = pro;
  payment = active;
  projects =
      project_a
      ∷ project_b
      ∷ record project_a { id = "prj_c" }
      ∷ record project_a { id = "prj_d" }
      ∷ [];
}

abbrev registering : WorkspaceApplied
registering = record {
  workspace = workspace_two;
  events = project_provisioned "ws_1" "prj_b" "Blog" (pos 9) ∷ [];
}

workspace_free-IsValid : IsValid workspace_free
unfolding trim
workspace_free-IsValid = record { named = refl; trimmed = refl; distinct = (refl, tt) }

register_runs : register_project workspace_free "prj_b" " Blog " (pos 9) ≡ ok registering
unfolding register_project count_against_cap breached resolve trim Entitlement.to_workspace_limits
register_runs = refl

raise-Within_example : Within (project_count workspace_two) (limits workspace_two).max_projects
unfolding count_against_cap resolve Entitlement.to_workspace_limits
raise-Within_example =
    raise-Within {w = workspace_free} {v = workspace_two} workspace_free-IsValid
      (registered {w = workspace_free} {a = registering} "prj_b" " Blog " (pos 9) register_runs)
      (omega arith)

abbrev opened : WorkspaceApplied
opened = record {
  workspace = record workspace_free { projects = [] };
  events = workspace_opened "ws_1" "acc_1" (pos 1) ∷ [];
}

open_runs : open_workspace "ws_1" " Acme" "acc_1" (pos 1) ≡ ok opened
unfolding open_workspace trim
open_runs = refl

abbrev paid : WorkspaceStanding
paid = record { plan = pro; payment = active }

abbrev unpaid : WorkspaceStanding
unpaid = record { plan = pro; payment = canceled }

Reach-IsValid_example : IsValid (apply_standing opened.workspace paid 2 (pos 5)).workspace
Reach-IsValid_example =
    Reach-IsValid "ws_1" " Acme" "acc_1" (pos 1) opened open_runs
      (next here (standing opened.workspace paid 2 (pos 5)))

downgrade-Emits_example :
    ((apply_standing workspace_pro unpaid 4 (pos 5)).workspace.projects ≡ workspace_pro.projects)
    × Emits
        (over_project_limit "ws_1" (project_count workspace_pro) 3 (pos 5))
        (apply_standing workspace_pro unpaid 4 (pos 5)).events
unfolding apply_standing resolve count_against_cap Entitlement.to_workspace_limits
downgrade-Emits_example = downgrade-Emits workspace_pro unpaid 4 3 (pos 5) tt refl (omega arith)

abbrev pro_subscription : Subscription
pro_subscription = record {
  workspace = "ws_1";
  plan = pro;
  payment = active;
  customer = some "cus_1";
  subscription = some "sub_1";
  renews_at = some (pos 100);
  updated_at = pos 1;
}

canceled_regrants_example :
    (is_paid (
        entitlement_of
          (apply_billing_event pro_subscription
            (subscription_canceled "sub_1")
            (pos 7)).subscription)
      ≡ false)
    × (is_paid (
          entitlement_of
            (apply_billing_event
              (apply_billing_event pro_subscription
                (subscription_canceled "sub_1")
                (pos 7)).subscription
              (payment_failed "sub_0")
              (pos 8)).subscription)
        ≡ true)
    × (is_paid (
          entitlement_of
            (apply_billing_event
              (apply_billing_event pro_subscription
                (subscription_canceled "sub_1")
                (pos 7)).subscription
              (payment_recovered "sub_0")
              (pos 8)).subscription)
        ≡ true)
canceled_regrants_example = canceled_regrants pro_subscription "sub_1" "sub_0" (pos 7) (pos 8) refl

purge_is_safe_example :
    (dropped : Instant) × (kept : Instant) × (global_purge_cutoff (days 1000) ≡ some dropped)
    × (retention_cutoff (resolve pro canceled) (days 1000) ≡ some kept)
    × ((dropped ≤ℤ kept) × ((needs_row_purge (resolve pro canceled) ≡ true) ↔ (dropped <ℤ kept)))
purge_is_safe_example = purge_is_safe pro canceled (days 1000)
