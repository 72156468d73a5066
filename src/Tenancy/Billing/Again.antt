-- ===== src/Tenancy/Billing/Again.antt =====
-- What a payment event does that was received before.
use counted.Base.{
  true, String, ◌∷◌, ◌≡◌, ◌∙◌, refl, ap, arith, ◌==◌, text_equality, any, Bool-cases, inl, inr,
}
use counted.Kernel.Instant.{Instant}
use counted.Kernel.Result.{ok, err}
use counted.Tenancy.Store.{Store, is_claimed}
use counted.Tenancy.UseCases.Steps.{UseCase-claimed}
use counted.Tenancy.Billing.{VerifiedWebhook, duplicate, answered, receive, advance}
use counted.Tenancy.Billing.Steps.{World, Step, acts, receives, advances, fails, Run, here, next}
use counted.Tenancy.Billing.Laws.{advance-claimed}

module _ (id : String) where
  seen-kept :
      (s t : Store) → t.claimed ≡ s.claimed → is_claimed s id ≡ true → is_claimed t id ≡ true
  seen-kept s t e h = ap (any (λ other. other == id)) e ∙ h

  Step-seen : {w u : World} → Step w u → is_claimed w.store id ≡ true → is_claimed u.store id ≡ true
  unfolding receive
  Step-seen {w = w} (acts {t = t} st) h = seen-kept w.store t (UseCase-claimed st) h
  Step-seen {w = w} (receives (err rejection) at) h = h
  Step-seen {w = w} (receives (ok v) at) h = ground (arith, h)
  Step-seen {w = w} (advances before after d seats e) h =
      seen-kept w.store (advance seats d.at d.stage w.store).0
        (advance-claimed id seats d.at d.stage w.store) h
  Step-seen {w = w} (fails before after d e) h = h

  Run-seen : {w u : World} → Run w u → is_claimed w.store id ≡ true → is_claimed u.store id ≡ true
  Run-seen here h = h
  Run-seen (next r st) h = Step-seen st (Run-seen r h)

receive-claims : (v : VerifiedWebhook) (s : Store) → is_claimed (receive (ok v) s).0 v.id ≡ true
unfolding receive
receive-claims v s = elim (Bool-cases (is_claimed s v.id)) [
  | inl old ↦ rw (old) old
  | inr new ↦ rw new (ground (arith, text_equality.same_iff v.id v.id))
]

receive-again :
    (v : VerifiedWebhook) (s : Store)
    → is_claimed s v.id ≡ true
    → receive (ok v) s ≡ (s, answered (ok (duplicate v.id)))
unfolding receive
receive-again v s h = rw h refl

-- Once a payment event was received, every later delivery with its id is answered as a duplicate and
-- changes nothing, whatever it says by then and whatever came between: further calls of the first
-- delivery or none, because it failed, other deliveries and other use cases.
pub receive_duplicate :
    (w u : World) (v later : VerifiedWebhook) (at : Instant)
    → Run
        (record {
          store = (receive (ok v) w.store).0;
          deliveries = record { at = at; stage = (receive (ok v) w.store).1 } ∷ w.deliveries;
        })
        u
    → later.id ≡ v.id
    → receive (ok later) u.store ≡ (u.store, answered (ok (duplicate later.id)))
receive_duplicate w u v later at r same =
    receive-again later u.store (rw same (Run-seen v.id r (receive-claims v w.store)))
