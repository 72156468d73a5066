-- ===== src/Tenancy/Retention/Laws.antt =====
-- Which deletions are safe.
use counted.Base.{ℕ, ◌≤◌, ◌↔◌, ◌≡◌, refl, true, ltb, some, arith}
use counted.Base.Int.{◌≤ℤ◌, ◌<ℤ◌, -ℤ_parts}
use counted.Kernel.Instant.{Instant, minus, days}
use counted.Tenancy.Plan.{PlanId, free, pro}
use counted.Tenancy.Entitlement.{PaymentState, active, past_due, resolve}
use counted.Tenancy.Retention.{retention_cutoff, global_purge_cutoff, needs_row_purge}

minus-days :
    (now : Instant) (n : ℕ)
    → n ≤ 730
    → (minus now (days 730) ≤ℤ minus now (days n))
      × ((ltb n 730 ≡ true) ↔ (minus now (days 730) <ℤ minus now (days n)))
unfolding minus
minus-days now n h = grind (arith, -ℤ_parts now (days 730), -ℤ_parts now (days n))

-- Whatever a workspace's plan and payment, both cutoffs exist, a partition that is dropped holds
-- nothing that the workspace may still keep, and rows have to be deleted besides exactly where the
-- workspace keeps less than the partitions do.
pub purge_is_safe :
    (plan : PlanId) (payment : PaymentState) (now : Instant)
    → (dropped : Instant) × (kept : Instant) × (global_purge_cutoff now ≡ some dropped)
      × (retention_cutoff (resolve plan payment) now ≡ some kept)
      × ((dropped ≤ℤ kept) × ((needs_row_purge (resolve plan payment) ≡ true) ↔ (dropped <ℤ kept)))
unfolding global_purge_cutoff retention_cutoff resolve needs_row_purge
purge_is_safe free active now = (_, _, refl, refl, minus-days now 180 (omega arith))
purge_is_safe free past_due now = (_, _, refl, refl, minus-days now 180 (omega arith))
purge_is_safe pro active now = (_, _, refl, refl, minus-days now 730 (omega arith))
purge_is_safe pro past_due now = (_, _, refl, refl, minus-days now 730 (omega arith))
purge_is_safe plan payment now = (_, _, refl, refl, minus-days now 180 (omega arith))
