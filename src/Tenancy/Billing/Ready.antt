-- ===== src/Tenancy/Billing/Ready.antt =====
-- What holds at each stage of a delivery, while there is no other.
use counted.Base.{
  false, Option, none, some, String, ◌≡◌, refl, sym, ◌∙◌, ap, arith, ◌==◌, text_equality,
}
use counted.Kernel.Instant.{Instant}
use counted.Tenancy.Subscription.{
  Subscription, BillingEvent, checkout_completed, subscription_updated, payment_failed,
  payment_recovered, subscription_canceled, apply_billing_event, next_of,
}
use counted.Tenancy.Workspace.{Workspace, WorkspaceApplied}
use counted.Tenancy.Store.{Store, find_workspace, find_subscription}
use counted.Tenancy.Store.Laws.{find-key}
use counted.Tenancy.UseCases.Steps.{UseCase}
use counted.Tenancy.UseCases.InStep.{IsInStep}
use counted.Tenancy.UseCases.Keeps.{AgreeAt, UseCase-Agree, Has, UseCase-Has}
use counted.Tenancy.Billing.{
  VerifiedWebhook, Stage, finds_by_ref, finds_by_customer, finds_by_workspace, finds_workspace,
  saves_subscription, counts_seats, saves_workspace, marks, answered, acted_on, located,
  by_customer, by_workspace, with_workspace,
}

-- The subscription is saved, and its workspace is not yet.
pub record IsHalf (s : Store) (x : Subscription) : Type 0 where
  pub has : Has s x.workspace (some x)
  pub others : (other : String) → (x.workspace == other) ≡ false → AgreeAt s other

pub record IsAdopted (a : WorkspaceApplied) (x : Subscription) : Type 0 where
  pub id : a.workspace.id ≡ x.workspace
  pub plan : x.plan ≡ a.workspace.plan
  pub payment : x.payment ≡ a.workspace.payment

abbrev pub IsReady : Store → Stage → Type 0
IsReady s (saves_subscription id w transition) =
    IsInStep s
    × (w.id ≡ transition.subscription.workspace)
    × Has s transition.subscription.workspace
        (find_subscription s transition.subscription.workspace)
IsReady s (counts_seats id w transition) =
    (w.id ≡ transition.subscription.workspace) × IsHalf s transition.subscription
IsReady s (saves_workspace id a transition) =
    IsAdopted a transition.subscription × IsHalf s transition.subscription
IsReady s _ = IsInStep s

UseCase-IsInStep : {s t : Store} → UseCase s t → IsInStep s → IsInStep t
UseCase-IsInStep st h = λ other. UseCase-Agree other st (h other)

UseCase-IsHalf : {s t : Store} (x : Subscription) → UseCase s t → IsHalf s x → IsHalf t x
UseCase-IsHalf x st h = record {
  has = UseCase-Has x.workspace (some x) st h.has;
  others = λ other differs. UseCase-Agree other st (h.others other differs);
}

pub UseCase-IsReady :
    {s t : Store} (stage : Stage) → UseCase s t → IsReady s stage → IsReady t stage
UseCase-IsReady (finds_by_ref verified event) st h = UseCase-IsInStep st h
UseCase-IsReady (finds_by_customer verified event) st h = UseCase-IsInStep st h
UseCase-IsReady (finds_by_workspace id workspace event) st h = UseCase-IsInStep st h
UseCase-IsReady (finds_workspace id current event) st h = UseCase-IsInStep st h
UseCase-IsReady (saves_subscription id w transition) st h =
    let has = UseCase-Has transition.subscription.workspace _ st h.2 in
    (
      UseCase-IsInStep st h.0,
      h.1,
      record { workspace = has.workspace; known = has.known; own = refl },
    )
UseCase-IsReady (counts_seats id w transition) st h =
    (h.0, UseCase-IsHalf transition.subscription st h.1)
UseCase-IsReady (saves_workspace id a transition) st h =
    (h.0, UseCase-IsHalf transition.subscription st h.1)
UseCase-IsReady (marks id outcome) st h = UseCase-IsInStep st h
UseCase-IsReady (answered answer) st h = UseCase-IsInStep st h

-- Nothing has been written at these stages.
pub by_workspace-IsReady :
    (s : Store) (verified : VerifiedWebhook) (event : BillingEvent)
    → IsInStep s
    → IsReady s (by_workspace verified event)
by_workspace-IsReady s verified event h = go verified.workspace
  where
    go : (o : Option String) → IsReady s (by_workspace (record verified { workspace = o }) event)
    go none = h
    go (some workspace) = h

pub by_customer-IsReady :
    (s : Store) (verified : VerifiedWebhook) (event : BillingEvent)
    → IsInStep s
    → IsReady s (by_customer verified event)
by_customer-IsReady s verified (checkout_completed plan customer subscription renews_at) h = h
by_customer-IsReady s verified (subscription_updated plan subscription renews_at is_active) h =
    by_workspace-IsReady s verified _ h
by_customer-IsReady s verified (payment_failed subscription) h = by_workspace-IsReady s verified _ h
by_customer-IsReady s verified (payment_recovered subscription) h =
    by_workspace-IsReady s verified _ h
by_customer-IsReady s verified (subscription_canceled subscription) h =
    by_workspace-IsReady s verified _ h

pub located-IsReady :
    (s : Store) (id : String) (event : BillingEvent) (o : Option Subscription) (stage : Stage)
    → IsReady s stage
    → IsInStep s
    → IsReady s (located id event o stage)
located-IsReady s id event none stage r h = r
located-IsReady s id event (some current) stage r h = h

pub acted_on-IsReady :
    (s : Store) (verified : VerifiedWebhook) (o : Option BillingEvent)
    → IsInStep s
    → IsReady s (acted_on verified o)
acted_on-IsReady s verified none h = h
acted_on-IsReady s verified (some event) h = h

next_of-workspace :
    (x : Subscription) (event : BillingEvent) (at : Instant)
    → (apply_billing_event x event at).subscription.workspace ≡ x.workspace
unfolding apply_billing_event next_of
next_of-workspace x event at = ground arith

pub with_workspace-IsReady :
    (s : Store) (id : String) (current : Subscription) (event : BillingEvent) (at : Instant)
    (o : Option Workspace)
    → find_workspace s current.workspace ≡ o
    → IsInStep s
    → IsReady s (with_workspace id current event at o)
with_workspace-IsReady s id current event at none e h = h
with_workspace-IsReady s id current event at (some w) e h =
    let there = next_of-workspace current event at in
    (
      h,
      find-key (λ (x : Workspace). x.id) s.workspaces current.workspace w e ∙ sym there,
      record { workspace = w; known = ap (find_workspace s) there ∙ e; own = refl },
    )
