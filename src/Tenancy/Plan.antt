-- ===== src/Tenancy/Plan.antt =====
-- packages/tenancy/domain/src/plan.ts: the plan catalog. `null` is `none`, and means unlimited.
use counted.Base.{
  ℕ, Bool, true, not, List, [], ◌∷◌, String, Option, none, some, leb, Equality, nat_beq, ◌↔◌, ◌≡◌,
  arith, includes, text_equality,
}

pub data PlanId : Type 0 where
  free pro : PlanId

abbrev pub plan_ids : List PlanId
plan_ids = free ∷ pro ∷ []

abbrev pub text : PlanId → String
text free = "free"
text pro = "pro"

abbrev pub is_plan_id : String → Bool
is_plan_id raw = includes (text free ∷ text pro ∷ []) raw

pub record PlanLimits : Type 0 where
  pub events_per_month : Option ℕ
  pub projects : Option ℕ
  pub seats : Option ℕ
  pub retention_days : Option ℕ

pub record Plan : Type 0 where
  pub id : PlanId
  pub name : String
  pub limits : PlanLimits

abbrev pub free_plan : Plan
free_plan = record {
  id = free;
  name = "Free";
  limits = record {
    events_per_month = some 100000;
    projects = some 3;
    seats = none;
    retention_days = some 180;
  };
}

abbrev pub pro_plan : Plan
pro_plan = record {
  id = pro;
  name = "Pro";
  limits = record {
    events_per_month = some 1000000;
    projects = none;
    seats = none;
    retention_days = some 730;
  };
}

unfoldable pub plan_of : PlanId → Plan
plan_of free = free_plan
plan_of pro = pro_plan

unfoldable pub limits_for : PlanId → PlanLimits
unfolding plan_of
limits_for id = (plan_of id).limits

abbrev pub rank : PlanId → ℕ
rank free = 0
rank pro = 1

unfoldable pub is_at_least : PlanId → PlanId → Bool
is_at_least a b = leb (rank b) (rank a)

pub plan_beq_iff : (a b : PlanId) → (nat_beq (rank a) (rank b) ≡ true) ↔ (a ≡ b)
plan_beq_iff a b = ground arith

instance abbrev pub plan_eq : Equality PlanId
plan_eq = record { same = λ a b. nat_beq (rank a) (rank b); same_iff = plan_beq_iff }

-- `id !== "free"`
unfoldable pub is_paid : PlanId → Bool
is_paid id = not (nat_beq (rank id) (rank free))
