-- ===== src/Tenancy/Retention.antt =====
-- packages/tenancy/domain/src/retention.ts: the instants before which events may be deleted.
pub mod Laws
use Prim.Native.Nat.{max}
use counted.Base.{ℕ, Bool, true, false, List, [], ◌∷◌, Option, none, some, ltb}
use counted.Kernel.Instant.{Instant, minus, days}
use counted.Tenancy.Plan.{PlanId, plan_ids, limits_for}
use counted.Tenancy.Entitlement.{Entitlement}

abbrev cutoff_after : Option ℕ → Instant → Option Instant
cutoff_after none now = none
cutoff_after (some n) now = some (minus now (days n))

unfoldable pub retention_cutoff : Entitlement → Instant → Option Instant
retention_cutoff entitlement now = cutoff_after entitlement.limits.retention_days now

-- The loop of `longestRetentionDays`.
longest_from : ℕ → List PlanId → Option ℕ
longest_from longest [] = some longest
longest_from longest (id ∷ ids) = elim (limits_for id).retention_days [
  | none ↦ none
  | some n ↦ longest_from (max longest n) ids
]

unfoldable pub longest_retention_days : Option ℕ
unfolding longest_from limits_for
longest_retention_days = longest_from 0 plan_ids

unfoldable pub global_purge_cutoff : Instant → Option Instant
unfolding longest_retention_days
global_purge_cutoff now = cutoff_after longest_retention_days now

-- `mine < longest`, where a `null` on either side is unlimited.
abbrev shorter_than : Option ℕ → Option ℕ → Bool
shorter_than none longest = false
shorter_than (some mine) none = true
shorter_than (some mine) (some longest) = ltb mine longest

unfoldable pub needs_row_purge : Entitlement → Bool
unfolding longest_retention_days
needs_row_purge entitlement = shorter_than entitlement.limits.retention_days longest_retention_days
