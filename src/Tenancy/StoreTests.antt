-- ===== src/Tenancy/StoreTests.antt =====
-- A workspace is provisioned and then pays for a plan.
use mathlib.Core.Path.{subst}
use counted.Base.{◌+◌, ◌≤◌, [], ◌∷◌, none, some, ◌≡◌, refl, trim}
use counted.Base.Int.{pos}
use counted.Kernel.Result.{ok, err}
use counted.Tenancy.Plan.{PlanId}
use counted.Tenancy.Subscription.{Transition, checkout_completed, apply_billing_event, none_for}
use counted.Tenancy.Store.{Store, upsert}
use counted.Tenancy.Billing.{
  VerifiedWebhook, applied, duplicate, signature_refused, Stage, answered, receive, advance,
}
use counted.Tenancy.Billing.Steps.{World, Run, receives, advances, here, next}
use counted.Tenancy.Billing.Laws.{applications, seen, applied_once}
use counted.Tenancy.Billing.Again.{receive_duplicate}
use counted.Tenancy.Billing.Alone.{Alone, begins, acts, alone-IsInStep}
use counted.Tenancy.UseCases.{provision_workspace}
use counted.Tenancy.UseCases.InStep.{IsInStep}
use counted.Tenancy.UseCases.Steps.{empty, provisions}

abbrev paid : VerifiedWebhook
paid = record {
  id = "evt1";
  kind = "checkout.session.completed";
  workspace = some "w1";
  event = some (checkout_completed PlanId.pro "cus1" "sub1" none);
}

abbrev opened : Store
opened = (provision_workspace empty "w1" "Acme" "ann" (pos 5)).0

abbrev after : Store × Stage → Store × Stage
after p = advance 3 (pos 9) p.1 p.0

-- The delivery has found the subscription and the workspace, and saves.
abbrev begun : Store × Stage
begun = receive (ok paid) opened

abbrev found : Store × Stage
found = after (after (after (after begun)))

abbrev saving : Store × Stage
saving = after found

abbrev billed : Store × Stage
billed = after (after (after saving))

abbrev transition : Transition
transition =
    apply_billing_event (none_for "w1" (pos 9)) (checkout_completed PlanId.pro "cus1" "sub1" none)
      (pos 9)

billed_runs : billed.1 ≡ answered (ok (applied transition))
unfolding advance receive provision_workspace trim upsert apply_billing_event
billed_runs = refl

abbrev alone_after : {p : Store × Stage} → Alone p.0 p.1 → Alone (after p).0 (after p).1
alone_after r = Alone.advances r 3 (pos 9)

abbrev alone_run : Alone billed.0 billed.1
alone_run = alone_after {p = after (after saving)} (
    alone_after {p = after saving} (
      alone_after {p = saving} (
        alone_after {p = found} (
          alone_after {p = after (after (after begun))} (
            alone_after {p = after (after begun)} (
              alone_after {p = after begun} (
                alone_after {p = begun} (
                  Alone.receives
                    (acts (begins (err signature_refused))
                      (provisions "w1" "Acme" "ann" (pos 5) refl))
                    (ok paid)))))))))

alone-IsInStep_example : IsInStep billed.0
alone-IsInStep_example = alone-IsInStep (subst (Alone billed.0) billed_runs alone_run)

abbrev idle : World
idle = record { store = opened; deliveries = [] }

abbrev world_at : Store × Stage → World
world_at p = record { store = p.0; deliveries = record { at = pos 9; stage = p.1 } ∷ [] }

abbrev along : {w : World} (p : Store × Stage) → Run w (world_at p) → Run w (world_at (after p))
along p r = next r (advances [] [] (record { at = pos 9; stage = p.1 }) 3 refl)

abbrev saved_run : Run idle (world_at saving)
saved_run = along found (
    along (after (after (after begun))) (
      along (after (after begun))
        (along (after begun) (along begun (next here (receives (ok paid) (pos 9)))))))

-- The event is applied in this run.
saved_runs : applications "evt1" saved_run ≡ 1
unfolding advance receive provision_workspace trim upsert
saved_runs = refl

applied_once_example : applications "evt1" saved_run + seen "evt1" opened ≤ 1
applied_once_example = applied_once "evt1" saved_run refl

receive_duplicate_example :
    receive (ok paid) (after (after begun)).0
    ≡ ((after (after begun)).0, answered (ok (duplicate "evt1")))
receive_duplicate_example =
    receive_duplicate idle (world_at (after (after begun))) paid paid (pos 9)
      (along (after begun) (along begun here)) refl
