-- ===== src/Analytics/Funnel/Worst.antt =====
-- Where a funnel leaks worst.
use counted.Base.{ℕ, ◌≤◌, ◌&&◌, List, [], ◌∷◌, Option, none, some, All, arith, ltb, if◌then◌else◌}
use counted.Analytics.Funnel.{FunnelStepResult, FunnelResult, is_worse, worst_of, biggest_drop_off}

le_through : {a b c : ℕ} → a ≤ b → b ≤ c → a ≤ c
le_through p q = omega arith

module _ {R : Type 0} where
  abbrev pub loss : Option (FunnelStepResult R) → ℕ
  loss none = 0
  loss (some s) = s.dropped_off

  -- One round of the loop keeps the greater loss.
  abbrev worse : FunnelStepResult R → Option (FunnelStepResult R) → Option (FunnelStepResult R)
  worse s worst = if ltb 0 s.dropped_off && is_worse s worst then some s else worst

  loss-worse :
      (s : FunnelStepResult R) (worst : Option (FunnelStepResult R))
      → (s.dropped_off ≤ loss (worse s worst)) × (loss worst ≤ loss (worse s worst))
  loss-worse s none = ground arith
  loss-worse s (some worst) = ground arith

  loss-worst_of :
      (worst : Option (FunnelStepResult R)) (steps : List (FunnelStepResult R))
      → loss worst ≤ loss (worst_of worst steps)
  loss-worst_of worst [] = omega arith
  loss-worst_of worst (s ∷ steps) =
      le_through (loss-worse s worst).1 (loss-worst_of (worse s worst) steps)

  worst_of-bounds :
      (worst : Option (FunnelStepResult R)) (steps : List (FunnelStepResult R))
      → All (λ s. s.dropped_off ≤ loss (worst_of worst steps)) steps
  worst_of-bounds worst [] = tt
  worst_of-bounds worst (s ∷ steps) = (
    le_through (loss-worse s worst).0 (loss-worst_of (worse s worst) steps),
    worst_of-bounds (worse s worst) steps,
  )

  -- No step drops off more than the one that the loop ends with, and none drops anybody off when it
  -- ends with no step.
  pub biggest_drop_off-bounds :
      (r : FunnelResult R) → All (λ s. s.dropped_off ≤ loss (biggest_drop_off r)) r.steps
  unfolding biggest_drop_off
  biggest_drop_off-bounds r = worst_of-bounds none r.steps
