-- ===== src/Tenancy/Entitlement.antt =====
-- packages/tenancy/domain/src/entitlement.ts: what a plan and its payment allow.
pub mod Laws
use counted.Base.{
  ℕ, Bool, true, false, not, ◌&&◌, List, [], ◌∷◌, String, Equality, nat_beq, ◌↔◌, ◌≡◌, arith, ◌==◌,
  includes, text_equality, bool_equality,
}
use counted.Tenancy.Plan.{PlanId, free, PlanLimits, limits_for, is_at_least, plan_eq}
use counted.Tenancy.Plan
use counted.Tenancy.Limits.{WorkspaceLimits}

pub data PaymentState : Type 0 where
  none active past_due canceled : PaymentState

abbrev pub payment_states : List PaymentState
payment_states = none ∷ active ∷ past_due ∷ canceled ∷ []

abbrev pub text : PaymentState → String
text none = "none"
text active = "active"
text past_due = "past_due"
text canceled = "canceled"

abbrev pub is_payment_state : String → Bool
is_payment_state raw = includes (text none ∷ text active ∷ text past_due ∷ text canceled ∷ []) raw

abbrev pub index : PaymentState → ℕ
index none = 0
index active = 1
index past_due = 2
index canceled = 3

pub payment_beq_iff : (a b : PaymentState) → (nat_beq (index a) (index b) ≡ true) ↔ (a ≡ b)
payment_beq_iff a b = ground arith

instance abbrev pub payment_eq : Equality PaymentState
payment_eq = record { same = λ a b. nat_beq (index a) (index b); same_iff = payment_beq_iff }

pub record Entitlement : Type 0 where
  pub plan : PlanId
  pub limits : PlanLimits
  pub in_grace : Bool

unfoldable pub resolve : PlanId → PaymentState → Entitlement
unfolding limits_for
resolve plan active = record { plan = plan; limits = limits_for plan; in_grace = false }
resolve plan past_due = record { plan = plan; limits = limits_for plan; in_grace = true }
resolve plan none = record { plan = free; limits = limits_for free; in_grace = false }
resolve plan canceled = record { plan = free; limits = limits_for free; in_grace = false }

unfoldable pub is_paid : Entitlement → Bool
unfolding Plan.is_paid
is_paid e = Plan.is_paid e.plan

unfoldable pub to_workspace_limits : Entitlement → WorkspaceLimits
to_workspace_limits e = record { max_projects = e.limits.projects; max_seats = e.limits.seats }

unfoldable pub is_downgrade : Entitlement → Entitlement → Bool
unfolding is_at_least
is_downgrade current next = not (is_at_least next.plan current.plan)

unfoldable pub equal : Entitlement → Entitlement → Bool
equal a b = a.plan == b.plan && a.in_grace == b.in_grace
