-- ===== src/Tenancy/Subscription/Laws.antt =====
-- What a payment event leaves, and what a second delivery of it changes.
use counted.Base.{true, false, String, some, ◌≡◌, refl, ◌↔◌, ◌≢◌, arith, bool_beq_iff}
use counted.Kernel.Instant.{Instant}
use counted.Tenancy.Plan.{PlanId, pro, plan_beq_iff}
use counted.Tenancy.Entitlement.{PaymentState, Entitlement, resolve, is_paid, equal}
use counted.Tenancy.Subscription.{
  Subscription, BillingEvent, checkout_completed, subscription_updated, payment_failed,
  payment_recovered, subscription_canceled, entitlement_of, next_of, apply_billing_event, upgraded,
  downgraded,
}

next_of_again :
    (s : Subscription) (e : BillingEvent) (at later : Instant)
    → next_of (next_of s e at) e later ≡ record (next_of s e at) { updated_at = later }
unfolding next_of
next_of_again s (checkout_completed plan customer ref renews) at later = refl
next_of_again s (subscription_updated plan ref renews is_active) at later = refl
next_of_again s (payment_failed ref) at later = refl
next_of_again s (payment_recovered ref) at later = refl
next_of_again s (subscription_canceled ref) at later = refl

equal_refl : (e : Entitlement) → equal e e ≡ true
unfolding equal
equal_refl e = ground (arith, plan_beq_iff e.plan e.plan, bool_beq_iff e.in_grace e.in_grace)

-- A webhook that is delivered again moves the time of the last update, and reports that the
-- entitlement did not change.
pub apply_again :
    (s : Subscription) (e : BillingEvent) (at later : Instant)
    → ((apply_billing_event (apply_billing_event s e at).subscription e later).subscription
        ≡ record (apply_billing_event s e at).subscription { updated_at = later })
      × ((apply_billing_event (apply_billing_event s e at).subscription e later).entitlement_changed
          ≡ false)
unfolding apply_billing_event
apply_again s e at later = (
  next_of_again s e at later,
  rw (next_of_again s e at later, equal_refl (entitlement_of (next_of s e at))) refl,
)

resolve_of_equal :
    (p q : PlanId) (a b : PaymentState)
    → equal (resolve p a) (resolve q b) ≡ true
    → resolve p a ≡ resolve q b
unfolding equal resolve
resolve_of_equal p q a b h = ground arith

-- The flag by which a caller decides to invalidate what it cached is false exactly where the whole
-- entitlement, its limits included, is what it was.
pub entitlement_changed_iff :
    (s : Subscription) (e : BillingEvent) (at : Instant)
    → ((apply_billing_event s e at).entitlement_changed ≡ false)
      ↔ (entitlement_of (apply_billing_event s e at).subscription ≡ entitlement_of s)
unfolding apply_billing_event
entitlement_changed_iff s e at =
    let t = next_of s e at in
    (
      λ h. ground (arith, resolve_of_equal s.plan t.plan s.payment t.payment),
      λ h. rw (h, equal_refl (entitlement_of s)) refl,
    )

-- Apart from a failed payment, which is always announced as one, an upgrade is announced exactly
-- where an unpaid workspace becomes a paid one, and a downgrade exactly where a paid one becomes
-- unpaid.
pub notable_iff :
    (s : Subscription) (e : BillingEvent) (at : Instant)
    → ((ref : String) → e ≢ payment_failed ref)
    → (((apply_billing_event s e at).notable ≡ some upgraded) ↔ (
        (is_paid (entitlement_of s) ≡ false)
        × (is_paid (entitlement_of (apply_billing_event s e at).subscription) ≡ true)))
      × (((apply_billing_event s e at).notable ≡ some downgraded) ↔ (
          (is_paid (entitlement_of s) ≡ true)
          × (is_paid (entitlement_of (apply_billing_event s e at).subscription) ≡ false)))
unfolding apply_billing_event resolve is_paid
notable_iff s (payment_failed ref) at h = absurd (h ref refl)
notable_iff s e at h = ground arith

-- Of a subscription to the pro plan, cancelling takes the paid entitlement away; but a later word of a failed or a recovered payment, of whatever subscription, gives it back.
pub canceled_regrants :
    (s : Subscription) (ref other : String) (at later : Instant)
    → s.plan ≡ pro
    → (is_paid (entitlement_of (apply_billing_event s (subscription_canceled ref) at).subscription)
        ≡ false)
      × (is_paid (
            entitlement_of
              (apply_billing_event
                (apply_billing_event s (subscription_canceled ref) at).subscription
                (payment_failed other)
                later).subscription)
          ≡ true)
      × (is_paid (
            entitlement_of
              (apply_billing_event
                (apply_billing_event s (subscription_canceled ref) at).subscription
                (payment_recovered other)
                later).subscription)
          ≡ true)
unfolding apply_billing_event resolve is_paid
canceled_regrants s ref other at later h = ground arith
