-- ===== src/Tenancy/Billing/Laws.antt =====
-- A payment event is applied once, however often and however close together it is delivered.
use counted.Base.{
  ℕ, ◌+◌, ◌≤◌, Option, none, some, String, [], ◌∷◌, ◌++◌, ◌≡◌, ap, arith, ◌==◌, text_equality, any,
  sum, sum-append, if◌then◌else◌, Bool-cases, inl, inr,
}
use counted.Kernel.Instant.{Instant}
use counted.Kernel.Result.{Result, ok, err}
use counted.Tenancy.Store.{Store, is_claimed, find_by_subscription_ref, find_workspace}
use counted.Tenancy.Subscription.{Subscription, BillingEvent}
use counted.Tenancy.Workspace.{Workspace}
use counted.Tenancy.UseCases.Steps.{UseCase-claimed}
use counted.Tenancy.Billing.{
  VerifiedWebhook, WebhookRejection, Stage, finds_by_ref, finds_by_customer, finds_by_workspace,
  finds_workspace, saves_subscription, counts_seats, saves_workspace, marks, answered, receive,
  advance, acted_on, located, by_customer, by_workspace, customer_of, ref_of, with_workspace,
}
use counted.Tenancy.Billing.Steps.{
  Delivery, World, Step, acts, receives, advances, fails, Run, here, next,
}

nothing_saved : {a b : ℕ} → a ≤ b → 0 + a ≤ b
nothing_saved h = omega (arith, h)

module _ (id : String) where
  abbrev is_it : String → ℕ
  is_it other = if other == id then 1 else 0

  -- Whether a delivery of the event has still to save the subscription.
  abbrev pub pending : Stage → ℕ
  pending (finds_by_ref verified event) = is_it verified.id
  pending (finds_by_customer verified event) = is_it verified.id
  pending (finds_by_workspace other workspace event) = is_it other
  pending (finds_workspace other current event) = is_it other
  pending (saves_subscription other workspace transition) = is_it other
  pending _ = 0

  -- Whether this is the call that saves the subscription.
  abbrev pub saving : Stage → ℕ
  saving (saves_subscription other workspace transition) = is_it other
  saving _ = 0

  abbrev pub saves_of : {w u : World} → Step w u → ℕ
  saves_of (acts st) = 0
  saves_of (receives v at) = 0
  saves_of (advances before after d seats h) = saving d.stage
  saves_of (fails before after d h) = 0

  -- How often the event was applied in a run.
  abbrev pub applications : {w u : World} → Run w u → ℕ
  applications here = 0
  applications (next r st) = saves_of st + applications r

  abbrev pub seen : Store → ℕ
  seen s = if is_claimed s id then 1 else 0

  by_workspace-pending :
      (verified : VerifiedWebhook) (event : BillingEvent)
      → pending (by_workspace verified event) ≤ is_it verified.id
  by_workspace-pending verified event = ground arith

  by_customer-pending :
      (verified : VerifiedWebhook) (event : BillingEvent)
      → pending (by_customer verified event) ≤ is_it verified.id
  by_customer-pending verified event = ground (arith, by_workspace-pending verified event)

  located-pending :
      (other : String) (event : BillingEvent) (o : Option Subscription) (stage : Stage)
      → pending stage ≤ is_it other
      → pending (located other event o stage) ≤ is_it other
  located-pending other event none stage h = h
  located-pending other event (some current) stage h = omega arith

  with_workspace-pending :
      (other : String) (current : Subscription) (event : BillingEvent) (at : Instant)
      (o : Option Workspace)
      → pending (with_workspace other current event at o) ≤ is_it other
  with_workspace-pending other current event at none = omega arith
  with_workspace-pending other current event at (some w) = omega arith

  advance-pending :
      (seats : ℕ) (at : Instant) (stage : Stage) (s : Store)
      → saving stage + pending (advance seats at stage s).1 ≤ pending stage
  unfolding advance
  advance-pending seats at (finds_by_ref verified event) s = nothing_saved (
      located-pending verified.id event (find_by_subscription_ref s (ref_of event))
        (by_customer verified event) (by_customer-pending verified event))
  advance-pending seats at (finds_by_customer verified event) s = nothing_saved (
      located-pending verified.id event (customer_of event s) (by_workspace verified event)
        (by_workspace-pending verified event))
  advance-pending seats at (finds_by_workspace other workspace event) s = omega arith
  advance-pending seats at (finds_workspace other current event) s =
      nothing_saved
        (with_workspace-pending other current event at (find_workspace s current.workspace))
  advance-pending seats at (saves_subscription other workspace transition) s = omega arith
  advance-pending seats at (counts_seats other workspace transition) s = omega arith
  advance-pending seats at (saves_workspace other a transition) s = omega arith
  advance-pending seats at (marks other outcome) s = omega arith
  advance-pending seats at (answered answer) s = omega arith

  pub advance-claimed :
      (seats : ℕ) (at : Instant) (stage : Stage) (s : Store)
      → (advance seats at stage s).0.claimed ≡ s.claimed
  unfolding advance
  advance-claimed seats at stage s = ground arith

  acted_on-pending :
      (verified : VerifiedWebhook) (o : Option BillingEvent)
      → pending (acted_on verified o) ≤ is_it verified.id
  acted_on-pending verified none = omega arith
  acted_on-pending verified (some event) = omega arith

  receive-seen :
      (v : Result VerifiedWebhook WebhookRejection) (s : Store)
      → pending (receive v s).1 + seen s ≤ seen (receive v s).0
  unfolding receive
  receive-seen (err rejection) s = omega arith
  receive-seen (ok verified) s = elim (Bool-cases (is_claimed s verified.id)) [
    | inl old ↦ rw old (omega arith)
    | inr new ↦ rw new (
        ground (
          arith,
          new,
          acted_on-pending verified verified.event,
          text_equality.same_iff verified.id id,
        ))
  ]

  -- Deliveries that have still to save, all together.
  abbrev pub waiting : World → ℕ
  waiting w = sum (λ (d : Delivery). pending d.stage) w.deliveries

  seen-same : (s t : Store) → t.claimed ≡ s.claimed → seen t ≡ seen s
  seen-same s t e = ap (λ ids. if any (λ other. other == id) ids then 1 else 0) e

  Step-once :
      {w u : World} (st : Step w u)
      → saves_of st + waiting u + seen w.store ≤ waiting w + seen u.store
  Step-once {w = w} (acts {t = t} st) = omega (arith, seen-same w.store t (UseCase-claimed st))
  Step-once {w = w} (receives v at) = omega (arith, receive-seen v w.store)
  Step-once {w = w} (advances before after d seats e) =
      let was : waiting w ≡ sum (λ (x : Delivery). pending x.stage) (before ++ d ∷ after) =
        ap (sum (λ (x : Delivery). pending x.stage)) e in
      omega (
        arith,
        was,
        sum-append (λ (x : Delivery). pending x.stage) before (d ∷ after),
        sum-append (λ (x : Delivery). pending x.stage) before
            (record { at = d.at; stage = (advance seats d.at d.stage w.store).1 } ∷ after),
        advance-pending seats d.at d.stage w.store,
        seen-same w.store (advance seats d.at d.stage w.store).0
            (advance-claimed seats d.at d.stage w.store),
      )
  Step-once {w = w} (fails before after d e) =
      let was : waiting w ≡ sum (λ (x : Delivery). pending x.stage) (before ++ d ∷ after) =
        ap (sum (λ (x : Delivery). pending x.stage)) e in
      omega (
        arith,
        was,
        sum-append (λ (x : Delivery). pending x.stage) before (d ∷ after),
        sum-append (λ (x : Delivery). pending x.stage) before after,
      )

  Run-once :
      {w u : World} (r : Run w u)
      → applications r + waiting u + seen w.store ≤ waiting w + seen u.store
  Run-once here = omega arith
  Run-once (next r st) = omega (arith, Run-once r, Step-once st)

  seen_le : (s : Store) → seen s ≤ 1
  seen_le s = ground arith

  -- In every run that starts while no delivery is under way, a payment event is applied at most once,
  -- and never if its id was in the ledger at the start. Any number of deliveries may carry it, their
  -- calls may fall in any order among each other and among the other use cases, and each may fail.
  pub applied_once :
      {w u : World} (r : Run w u) → w.deliveries ≡ [] → applications r + seen w.store ≤ 1
  applied_once {w = w} {u = u} r idle =
      let rested : waiting w ≡ 0 = ap (sum (λ (d : Delivery). pending d.stage)) idle in
      omega (arith, Run-once r, rested, seen_le u.store)
