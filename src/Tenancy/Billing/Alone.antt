-- ===== src/Tenancy/Billing/Alone.antt =====
-- Payment events that are delivered one at a time, among use cases that run at any moment.
use counted.Base.{
  ℕ, true, false, Option, some, ◌≡◌, refl, sym, ◌∙◌, ap, ◌==◌, text_equality, if◌then◌else◌,
  Bool-cases, inl, inr,
}
use counted.Kernel.Instant.{Instant}
use counted.Kernel.Result.{Result, ok, err}
use counted.Tenancy.Subscription.{Subscription}
use counted.Tenancy.Workspace.{Workspace, WorkspaceApplied, apply_standing}
use mathlib.Core.Path.{subst⁻¹}
use counted.Tenancy.Store.{
  Store, find_workspace, find_subscription, save_workspace, save_subscription,
  find_by_subscription_ref, is_claimed, claim,
}
use counted.Tenancy.Store.Laws.{find-upsert}
use counted.Tenancy.UseCases.Steps.{UseCase, empty}
use counted.Tenancy.UseCases.InStep.{Agree, IsInStep}
use counted.Tenancy.UseCases.Keeps.{Has}
use counted.Tenancy.Billing.{
  VerifiedWebhook, WebhookRejection, Answer, Stage, finds_by_ref, finds_by_customer,
  finds_by_workspace, finds_workspace, saves_subscription, counts_seats, saves_workspace, marks,
  answered, receive, advance, by_customer, by_workspace, customer_of, ref_of,
}
use counted.Tenancy.Billing.Ready.{
  IsHalf, IsAdopted, IsReady, UseCase-IsReady, by_workspace-IsReady, by_customer-IsReady,
  located-IsReady, acted_on-IsReady, with_workspace-IsReady,
}

-- What can be reached from an empty store, with the stage of the only delivery: the next one begins
-- when it has its answer.
pub data Alone : Store → Stage → Type 0 where
  begins : (answer : Answer) → Alone empty (answered answer)
  acts : {s t : Store} {stage : Stage} → Alone s stage → UseCase s t → Alone t stage
  receives :
      {s : Store} {answer : Answer}
      → Alone s (answered answer)
      → (v : Result VerifiedWebhook WebhookRejection) → Alone (receive v s).0 (receive v s).1
  advances :
      {s : Store} {stage : Stage}
      → Alone s stage
      → (seats : ℕ) (at : Instant) → Alone (advance seats at stage s).0 (advance seats at stage s).1

-- With the subscription only its own workspace can disagree.
save_subscription-IsHalf :
    (s : Store) (x : Subscription) (o : Option Subscription)
    → IsInStep s
    → Has s x.workspace o
    → IsHalf (save_subscription x s) x
save_subscription-IsHalf s x o h has =
    let moved = find-upsert (λ (y : Subscription). y.workspace) x s.subscriptions in
    record {
      has = record {
        workspace = has.workspace;
        known = has.known;
        own =
            moved x.workspace
            ∙ ap (λ b. if b then some x else find_subscription s x.workspace)
                ((text_equality.same_iff x.workspace x.workspace).1 refl);
      };
      others = λ other differs.
          subst⁻¹ (λ y. Agree (find_workspace s other) y)
            (moved other ∙ ap (λ b. if b then some x else find_subscription s other) differs)
            (h other);
    }

-- And with the workspace that one agrees too.
save_workspace-IsInStep :
    (s : Store) (x : Subscription) (a : WorkspaceApplied)
    → IsAdopted a x
    → IsHalf s x
    → IsInStep (save_workspace a.workspace a.events s)
save_workspace-IsInStep s x a adopted half other =
    let moved = find-upsert (λ (w : Workspace). w.id) a.workspace s.workspaces other in
    elim (Bool-cases (x.workspace == other)) [
      | inl same ↦
          let there : x.workspace ≡ other = (text_equality.same_iff x.workspace other).0 same in
          let here : (a.workspace.id == other) ≡ true =
            (text_equality.same_iff a.workspace.id other).1 (adopted.id ∙ there) in
          rw
            (
              moved ∙ ap (λ b. if b then some a.workspace else find_workspace s other) here,
              sym (ap (find_subscription s) there) ∙ half.has.own,
            )
            (adopted.plan, adopted.payment)
      | inr differs ↦
          let apart : (a.workspace.id == other) ≡ false =
            ap (λ id. id == other) adopted.id ∙ differs in
          subst⁻¹ (λ w. Agree w (find_subscription s other))
            (moved ∙ ap (λ b. if b then some a.workspace else find_workspace s other) apart)
            (half.others other differs)
    ]

advance-IsReady :
    (s : Store) (stage : Stage) (seats : ℕ) (at : Instant)
    → IsReady s stage
    → IsReady (advance seats at stage s).0 (advance seats at stage s).1
unfolding advance apply_standing
advance-IsReady s (finds_by_ref verified event) seats at h =
    located-IsReady s verified.id event (find_by_subscription_ref s (ref_of event))
      (by_customer verified event) (by_customer-IsReady s verified event h) h
advance-IsReady s (finds_by_customer verified event) seats at h =
    located-IsReady s verified.id event (customer_of event s) (by_workspace verified event)
      (by_workspace-IsReady s verified event h) h
advance-IsReady s (finds_by_workspace id workspace event) seats at h = h
advance-IsReady s (finds_workspace id current event) seats at h =
    with_workspace-IsReady s id current event at (find_workspace s current.workspace) refl h
advance-IsReady s (saves_subscription id w transition) seats at h =
    (h.1, save_subscription-IsHalf s transition.subscription _ h.0 h.2)
advance-IsReady s (counts_seats id w transition) seats at h =
    (record { id = h.0; plan = refl; payment = refl }, h.1)
advance-IsReady s (saves_workspace id a transition) seats at h =
    save_workspace-IsInStep s transition.subscription a h.0 h.1
advance-IsReady s (marks id outcome) seats at h = h
advance-IsReady s (answered answer) seats at h = h

receive-IsReady :
    (s : Store) (v : Result VerifiedWebhook WebhookRejection)
    → IsInStep s
    → IsReady (receive v s).0 (receive v s).1
unfolding receive
receive-IsReady s (err rejection) h = h
receive-IsReady s (ok verified) h = elim (Bool-cases (is_claimed s verified.id)) [
  | inl old ↦ rw (old) h
  | inr new ↦ rw new (acted_on-IsReady (claim verified.id s) verified verified.event h)
]

Alone-IsReady : {s : Store} {stage : Stage} → Alone s stage → IsReady s stage
Alone-IsReady (begins answer) = λ id. tt
Alone-IsReady (acts {stage = stage} r st) = UseCase-IsReady stage st (Alone-IsReady r)
Alone-IsReady (receives {s = s} r v) = receive-IsReady s v (Alone-IsReady r)
Alone-IsReady (advances {s = s} {stage = stage} r seats at) =
    advance-IsReady s stage seats at (Alone-IsReady r)

-- Payment events come one at a time to an empty store, each until it has its answer, and between any
-- two calls of a delivery the other use cases may run, each provisioning under a new id. Then,
-- whenever no delivery is under way, the plan and the payment state of every workspace are those of
-- its subscription, if it has one.
pub alone-IsInStep : {s : Store} {answer : Answer} → Alone s (answered answer) → IsInStep s
alone-IsInStep r = Alone-IsReady r
