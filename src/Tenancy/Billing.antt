-- ===== src/Tenancy/Billing.antt =====
-- packages/tenancy/app/src/record-billing-event.ts: a payment event is applied, once. The repositories
-- that it is handed have no transaction of their own, so each of its calls of them is a step by itself,
-- and a delivery is at one of the stages between. The provider's check of the signature and the count
-- of the members are arguments.
pub mod Steps
pub mod Laws
pub mod Again
pub mod Ready
pub mod Alone
use counted.Base.{ℕ, Option, none, some, String, if◌then◌else◌}
use counted.Kernel.Instant.{Instant}
use counted.Kernel.Result.{Result, ok, err}
use counted.Tenancy.Subscription.{
  Subscription, BillingEvent, checkout_completed, subscription_updated, payment_failed,
  payment_recovered, subscription_canceled, Transition, none_for, apply_billing_event, standing_of,
}
use counted.Tenancy.Workspace.{Workspace, WorkspaceApplied, apply_standing}
use counted.Tenancy.Store.{
  Store, find_workspace, save_workspace, find_subscription, find_by_customer,
  find_by_subscription_ref, save_subscription, is_claimed, claim, mark_processed,
}

pub record VerifiedWebhook : Type 0 where
  pub id : String
  pub kind : String
  pub workspace : Option String
  pub event : Option BillingEvent

pub data WebhookRejection : Type 0 where
  bad_signature : WebhookRejection
  stale : (age_seconds : ℕ) → WebhookRejection
  malformed : (detail : String) → WebhookRejection

pub data BillingError : Type 0 where
  no_subscription plan_unavailable : String → BillingError
  signature_refused : BillingError
  too_old : (age_seconds : ℕ) → BillingError
  not_well_formed provider_unavailable : (detail : String) → BillingError

pub data Ignored : Type 0 where
  not_actionable unknown_workspace : Ignored

pub data BillingOutcome : Type 0 where
  applied : Transition → BillingOutcome
  duplicate : (event : String) → BillingOutcome
  ignored : Ignored → (event : String) → BillingOutcome

unfoldable pub from_webhook_rejection : WebhookRejection → BillingError
from_webhook_rejection bad_signature = signature_refused
from_webhook_rejection (stale age) = too_old age
from_webhook_rejection (malformed detail) = not_well_formed detail

-- `event.subscription`
abbrev pub ref_of : BillingEvent → String
ref_of (checkout_completed plan customer subscription renews_at) = subscription
ref_of (subscription_updated plan subscription renews_at is_active) = subscription
ref_of (payment_failed subscription) = subscription
ref_of (payment_recovered subscription) = subscription
ref_of (subscription_canceled subscription) = subscription

abbrev pub Answer : Type 0
Answer = Result BillingOutcome BillingError

-- The call that a delivery makes next, with what it has found so far; or its answer.
pub data Stage : Type 0 where
  finds_by_ref finds_by_customer : VerifiedWebhook → BillingEvent → Stage
  finds_by_workspace : (id workspace : String) → BillingEvent → Stage
  finds_workspace : (id : String) → Subscription → BillingEvent → Stage
  saves_subscription counts_seats : (id : String) → Workspace → Transition → Stage
  saves_workspace : (id : String) → WorkspaceApplied → Transition → Stage
  marks : (id : String) → BillingOutcome → Stage
  answered : Answer → Stage

-- `acknowledge`, up to its await
abbrev pub acknowledge : String → Ignored → Stage
acknowledge id reason = marks id (ignored reason id)

-- The last resort of `locate`, up to its await.
abbrev pub by_workspace : VerifiedWebhook → BillingEvent → Stage
by_workspace verified event = elim verified.workspace [
  | none ↦ acknowledge verified.id unknown_workspace
  | some workspace ↦ finds_by_workspace verified.id workspace event
]

abbrev pub by_customer : VerifiedWebhook → BillingEvent → Stage
by_customer verified (checkout_completed plan customer subscription renews_at) =
    finds_by_customer verified (checkout_completed plan customer subscription renews_at)
by_customer verified event = by_workspace verified event

abbrev pub customer_of : BillingEvent → Store → Option Subscription
customer_of (checkout_completed plan customer subscription renews_at) s =
    find_by_customer s customer
customer_of event s = none

abbrev pub or_none_for : Option Subscription → String → Instant → Subscription
or_none_for none workspace at = none_for workspace at
or_none_for (some x) workspace at = x

abbrev pub located : String → BillingEvent → Option Subscription → Stage → Stage
located id event none others = others
located id event (some current) others = finds_workspace id current event

abbrev pub acted_on : VerifiedWebhook → Option BillingEvent → Stage
acted_on verified none = acknowledge verified.id not_actionable
acted_on verified (some event) = finds_by_ref verified event

-- A delivery up to the call after the claim, which is one statement of the ledger.
unfoldable pub receive : Result VerifiedWebhook WebhookRejection → Store → Store × Stage
unfolding from_webhook_rejection
receive (err rejection) s = (s, answered (err (from_webhook_rejection rejection)))
receive (ok verified) s =
    if is_claimed s verified.id
    then (s, answered (ok (duplicate verified.id)))
    else (claim verified.id s, acted_on verified verified.event)

abbrev pub with_workspace :
    String → Subscription → BillingEvent → Instant → Option Workspace → Stage
with_workspace id current event at none = acknowledge id unknown_workspace
with_workspace id current event at (some workspace) =
    saves_subscription id workspace (apply_billing_event current event at)

-- One call of a repository, and the code from there to the next.
unfoldable pub advance : ℕ → Instant → Stage → Store → Store × Stage
advance seats at (finds_by_ref verified event) s = (
  s,
  located verified.id event (find_by_subscription_ref s (ref_of event))
      (by_customer verified event),
)
advance seats at (finds_by_customer verified event) s =
    (s, located verified.id event (customer_of event s) (by_workspace verified event))
advance seats at (finds_by_workspace id workspace event) s =
    (s, finds_workspace id (or_none_for (find_subscription s workspace) workspace at) event)
advance seats at (finds_workspace id current event) s =
    (s, with_workspace id current event at (find_workspace s current.workspace))
advance seats at (saves_subscription id workspace transition) s =
    (save_subscription transition.subscription s, counts_seats id workspace transition)
advance seats at (counts_seats id workspace transition) s = (
  s,
  saves_workspace id (apply_standing workspace (standing_of transition.subscription) seats at)
      transition,
)
advance seats at (saves_workspace id a transition) s =
    (save_workspace a.workspace a.events s, marks id (applied transition))
advance seats at (marks id outcome) s = (mark_processed id s, answered (ok outcome))
advance seats at (answered answer) s = (s, answered answer)
