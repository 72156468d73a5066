-- ===== src/Projects/Retention.antt =====
-- packages/projects/domain/src/retention.ts: how long a project's events are kept. The days that
-- come from outside are taken to be a whole number that is not negative.
pub mod Laws
use Prim.Native.Nat.{min}
use counted.Base.{ℕ, Bool, true, false, ◌||◌, Option, none, some, ltb, nat_beq, if◌then◌else◌}
use counted.Kernel.Result.{Result, ok, err}
use counted.Kernel.Instant.{Instant, minus}
use counted.Kernel.Instant
use counted.Projects.Errors.{ProjectError, invalid_retention}

abbrev pub max_retention_days : ℕ
max_retention_days = 3650

pub data RetentionPolicy : Type 0 where
  inherit : RetentionPolicy
  days : ℕ → RetentionPolicy

unfoldable pub retention_policy : ℕ → Result RetentionPolicy ProjectError
retention_policy n =
    if ltb n 1 || ltb max_retention_days n then err (invalid_retention n) else ok (days n)

unfoldable pub effective_retention_days : RetentionPolicy → Option ℕ → Option ℕ
effective_retention_days inherit plan_days = plan_days
effective_retention_days (days n) none = some n
effective_retention_days (days n) (some plan_days) = some (min n plan_days)

abbrev cutoff_after : Option ℕ → Instant → Option Instant
cutoff_after none now = none
cutoff_after (some n) now = some (minus now (Instant.days n))

unfoldable pub retention_cutoff : RetentionPolicy → Option ℕ → Instant → Option Instant
unfolding effective_retention_days
retention_cutoff policy plan_days now = cutoff_after (effective_retention_days policy plan_days) now

unfoldable pub retention_equals : RetentionPolicy → RetentionPolicy → Bool
retention_equals inherit inherit = true
retention_equals inherit (days n) = false
retention_equals (days m) inherit = false
retention_equals (days m) (days n) = nat_beq m n
