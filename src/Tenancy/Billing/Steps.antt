-- ===== src/Tenancy/Billing/Steps.antt =====
-- Any number of deliveries of payment events, a call at a time, among the other use cases. A delivery
-- may fail at any of its calls, and what it wrote before stays.
use counted.Base.{ℕ, List, ◌∷◌, ◌++◌, ◌≡◌}
use counted.Kernel.Instant.{Instant}
use counted.Kernel.Result.{Result}
use counted.Tenancy.Store.{Store}
use counted.Tenancy.UseCases.Steps.{UseCase}
use counted.Tenancy.Billing.{VerifiedWebhook, WebhookRejection, Stage, receive, advance}

pub record Delivery : Type 0 where
  pub at : Instant
  pub stage : Stage

pub record World : Type 0 where
  pub store : Store
  pub deliveries : List Delivery

pub data Step (w : World) : World → Type 0 where
  acts : {t : Store} → UseCase w.store t → Step w (record w { store = t })
  receives :
      (v : Result VerifiedWebhook WebhookRejection) (at : Instant)
      → Step w (record {
        store = (receive v w.store).0;
        deliveries = record { at = at; stage = (receive v w.store).1 } ∷ w.deliveries;
      })
  advances :
      (before after : List Delivery) (d : Delivery) (seats : ℕ)
      → w.deliveries ≡ before ++ d ∷ after
      → Step w (record {
        store = (advance seats d.at d.stage w.store).0;
        deliveries =
            before ++ record { at = d.at; stage = (advance seats d.at d.stage w.store).1 } ∷ after;
      })
  fails :
      (before after : List Delivery) (d : Delivery)
      → w.deliveries ≡ before ++ d ∷ after
      → Step w (record w { deliveries = before ++ after })

pub data Run (w : World) : World → Type 0 where
  here : Run w w
  next : {u v : World} → Run w u → Step u v → Run w v
