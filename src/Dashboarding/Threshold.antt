-- ===== src/Dashboarding/Threshold.antt =====
-- packages/dashboarding/domain/src/threshold.ts: what counts as bad. A measured value is a number of
-- the engine's; all that is asked of it is the comparison `<`, which is a parameter.
use counted.Base.{Bool}

pub data Threshold (V : Type 0) : Type 0 where
  above below : V → Threshold V

module _ {V : Type 0} (lt : V → V → Bool) where
  -- Strict on both sides.
  unfoldable pub is_breached : Threshold V → V → Bool
  is_breached (above value) observed = lt value observed
  is_breached (below value) observed = lt observed value
