-- ===== src/Tenancy/Entitlement/Laws.antt =====
-- What is paid for, and what a change of entitlement takes away.
use counted.Base.{ℕ, ◌≤◌, ◌↔◌, ◌≡◌, ◌⊎◌, true, false, Option, none, some, arith}
use counted.Tenancy.Plan.{PlanId, pro, PlanLimits}
use counted.Tenancy.Entitlement.{PaymentState, active, past_due, resolve, is_paid, is_downgrade}

-- A plan is paid for exactly where it is the pro plan and the payment is active or in arrears, and
-- the entitlement is in grace exactly where the payment is in arrears.
pub is_paid_iff :
    (plan : PlanId) (payment : PaymentState)
    → ((is_paid (resolve plan payment) ≡ true)
        ↔ ((plan ≡ pro) × ((payment ≡ active) ⊎ (payment ≡ past_due))))
      × (((resolve plan payment).in_grace ≡ true) ↔ (payment ≡ past_due))
unfolding is_paid resolve
is_paid_iff plan payment = ground arith

-- No more under the first limit than under the second.
abbrev pub LimitLe : Option ℕ → Option ℕ → Type 0
LimitLe m none = Unit
LimitLe none (some n) = ⊥
LimitLe (some m) (some n) = m ≤ n

abbrev pub LimitsLe : PlanLimits → PlanLimits → Type 0
LimitsLe a b =
    LimitLe a.events_per_month b.events_per_month
    × LimitLe a.projects b.projects
    × LimitLe a.seats b.seats
    × LimitLe a.retention_days b.retention_days

-- A move is no downgrade exactly where no limit falls.
pub is_downgrade_iff :
    (p q : PlanId) (a b : PaymentState)
    → (is_downgrade (resolve p a) (resolve q b) ≡ false)
      ↔ LimitsLe (resolve p a).limits (resolve q b).limits
unfolding is_downgrade resolve
is_downgrade_iff p q a b = ground arith
