-- ===== src/Tenancy/Subscription.antt =====
-- packages/tenancy/domain/src/subscription.ts: how a payment event changes a paid standing.
pub mod Laws
use counted.Base.{Bool, true, false, not, ◌&&◌, String, Option, none, some, if◌then◌else◌}
use counted.Kernel.Instant.{Instant}
use counted.Tenancy.Plan.{PlanId, free}
use counted.Tenancy.Entitlement.{
  PaymentState, active, past_due, canceled, Entitlement, resolve, is_paid, equal,
}
use counted.Tenancy.Entitlement
use counted.Tenancy.Workspace.{WorkspaceStanding}

pub record Subscription : Type 0 where
  pub workspace : String
  pub plan : PlanId
  pub payment : PaymentState
  pub customer : Option String
  pub subscription : Option String
  pub renews_at : Option Instant
  pub updated_at : Instant

-- `Subscription.none`
unfoldable pub none_for : String → Instant → Subscription
none_for workspace at = record {
  workspace = workspace;
  plan = free;
  payment = Entitlement.none;
  customer = none;
  subscription = none;
  renews_at = none;
  updated_at = at;
}

abbrev pub entitlement_of : Subscription → Entitlement
entitlement_of s = resolve s.plan s.payment

abbrev pub standing_of : Subscription → WorkspaceStanding
standing_of s = record { plan = s.plan; payment = s.payment }

abbrev pub has_billing_account : Subscription → Bool
has_billing_account s = elim s.customer [ none ↦ false | some customer ↦ true ]

pub data BillingEvent : Type 0 where
  checkout_completed : PlanId → String → String → Option Instant → BillingEvent
  subscription_updated : PlanId → String → Option Instant → Bool → BillingEvent
  payment_failed payment_recovered subscription_canceled : String → BillingEvent

pub data Notable : Type 0 where
  upgraded downgraded failed recovered : Notable

pub record Transition : Type 0 where
  pub subscription : Subscription
  pub entitlement_changed : Bool
  pub notable : Option Notable

-- The switch of `applyBillingEvent`.
unfoldable pub next_of : Subscription → BillingEvent → Instant → Subscription
next_of current (checkout_completed plan customer subscription renews_at) at = record {
  workspace = current.workspace;
  plan = plan;
  payment = active;
  customer = some customer;
  subscription = some subscription;
  renews_at = renews_at;
  updated_at = at;
}
next_of current (subscription_updated plan subscription renews_at is_active) at = record {
  workspace = current.workspace;
  plan = plan;
  payment = if is_active then active else canceled;
  customer = current.customer;
  subscription = some subscription;
  renews_at = renews_at;
  updated_at = at;
}
next_of current (payment_failed subscription) at = record current {
  payment = past_due;
  updated_at = at;
}
next_of current (payment_recovered subscription) at = record current {
  payment = active;
  updated_at = at;
}
next_of current (subscription_canceled subscription) at = record current {
  payment = canceled;
  renews_at = none;
  updated_at = at;
}

abbrev is_recovery : BillingEvent → Bool
is_recovery (payment_recovered subscription) = true
is_recovery _ = false

-- The last three returns of `notabilityOf`.
abbrev paid_change : Bool → Bool → Option Notable
paid_change before after =
    if after && not before
    then some upgraded
    else if before && not after
    then some downgraded
    else none

unfoldable pub notability_of : BillingEvent → Entitlement → Entitlement → Option Notable
notability_of (payment_failed subscription) before after = some failed
notability_of (payment_recovered subscription) before after =
    if before.in_grace then some recovered else paid_change (is_paid before) (is_paid after)
notability_of _ before after = paid_change (is_paid before) (is_paid after)

unfoldable pub apply_billing_event : Subscription → BillingEvent → Instant → Transition
unfolding next_of notability_of
apply_billing_event current event at =
    let before = entitlement_of current in
    let next = next_of current event at in
    let after = entitlement_of next in
    record {
      subscription = next;
      entitlement_changed = not (equal before after);
      notable = notability_of event before after;
    }
