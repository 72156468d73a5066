-- ===== src/Tenancy/ChangePlan.antt =====
-- packages/tenancy/app/src/change-plan.ts: to the provider's checkout, or to its portal. The provider's
-- answers are arguments: a session of any type, or the detail of the error that it throws.
use counted.Base.{Bool, not, ◌||◌, Option, none, some, String, if◌then◌else◌, ◌==◌, text_equality}
use counted.Kernel.Result.{Result, err, map_err}
use counted.Tenancy.Plan.{PlanId, free, pro, plan_eq, is_paid, text}
use counted.Tenancy.Subscription.{Subscription, entitlement_of}
use counted.Tenancy.Billing.{BillingError, no_subscription, plan_unavailable, provider_unavailable}

pub record ChangePlanCommand : Type 0 where
  pub workspace : String
  pub plan : String
  pub is_annual : Bool
  pub success_url : String
  pub cancel_url : String
  pub return_url : String

pub record CheckoutRequest : Type 0 where
  pub workspace : String
  pub plan : PlanId
  pub is_annual : Bool
  pub customer : Option String
  pub success_url : String
  pub cancel_url : String

pub record PortalRequest : Type 0 where
  pub customer : String
  pub return_url : String

-- `isPlanId`, with the plan that it finds.
abbrev pub plan_named : String → Option PlanId
plan_named raw = if raw == text free then some free else if raw == text pro then some pro else none

module _ {Session : Type 0} (checkout : CheckoutRequest → Result Session String)
    (portal : PortalRequest → Result Session String) where
  -- `attempt`
  abbrev pub attempt : Result Session String → Result Session BillingError
  attempt answer = map_err (λ detail. provider_unavailable detail) answer

  abbrev pub to_portal : ChangePlanCommand → Option String → Result Session BillingError
  to_portal command none = err (no_subscription command.workspace)
  to_portal command (some customer) =
      attempt (portal (record { customer = customer; return_url = command.return_url }))

  abbrev pub to_checkout : ChangePlanCommand → PlanId → Option String → Result Session BillingError
  to_checkout command target customer = attempt (
      checkout (record {
        workspace = command.workspace;
        plan = target;
        is_annual = command.is_annual;
        customer = customer;
        success_url = command.success_url;
        cancel_url = command.cancel_url;
      }))

  unfoldable pub change_from :
      ChangePlanCommand → PlanId → Option Subscription → Result Session BillingError
  change_from command target none = err (no_subscription command.workspace)
  change_from command target (some subscription) =
      if not (is_paid target) || target == (entitlement_of subscription).plan
      then to_portal command subscription.customer
      else to_checkout command target subscription.customer

  -- `find` is the repository's.
  unfoldable pub change_plan :
      (String → Option Subscription) → ChangePlanCommand → Result Session BillingError
  unfolding change_from
  change_plan find command = elim (plan_named command.plan) [
    | none ↦ err (plan_unavailable command.plan)
    | some target ↦ change_from command target (find command.workspace)
  ]
