-- ===== src/Projects/Retention/Laws.antt =====
-- A project's policy under the days of its plan.
use Prim.Native.Nat.{min}
use counted.Base.{ℕ, ◌≤◌, ◌↔◌, ◌≡◌, some, arith}
use counted.Base.Int.{◌≤ℤ◌, -ℤ_parts}
use counted.Kernel.Result.{ok}
use counted.Kernel.Instant.{Instant, minus}
use counted.Kernel.Instant
use counted.Projects.Retention.{RetentionPolicy, inherit, days, retention_policy, retention_cutoff}

-- A number of days becomes a policy exactly where it is at least one and at most the limit.
pub retention_policy_lem : (n : ℕ) → (retention_policy n ≡ ok (days n)) ↔ ((1 ≤ n) × (n ≤ 3650))
unfolding retention_policy
retention_policy_lem n = ground arith

minus-mono :
    (now : Instant) (m n : ℕ) → m ≤ n → minus now (Instant.days n) ≤ℤ minus now (Instant.days m)
unfolding minus
minus-mono now m n h = grind (arith, -ℤ_parts now (Instant.days m), -ℤ_parts now (Instant.days n))

-- Whatever policy a project stores, the cutoff is no earlier than that of the plan's own days, and a
-- plan that keeps no more days than another has no earlier a cutoff.
pub cutoff_clamped :
    (policy : RetentionPolicy) (less more : ℕ) (now early late : Instant)
    → less ≤ more
    → retention_cutoff policy (some more) now ≡ some early
    → retention_cutoff policy (some less) now ≡ some late
    → (minus now (Instant.days less) ≤ℤ late) × (early ≤ℤ late)
unfolding retention_cutoff
cutoff_clamped inherit less more now early late h p q =
    ground (arith, minus-mono now less more, minus-mono now less less)
cutoff_clamped (days n) less more now early late h p q =
    ground (arith, minus-mono now (min n less) (min n more), minus-mono now (min n less) less)
