-- ===== src/Analytics/Funnel/Losses.antt =====
-- What a funnel loses from its first step to its last.
use counted.Base.{ℕ, suc, ◌+◌, ◌≡◌, List, [], ◌∷◌, none, sum, arith}
use counted.Kernel.Result.{ok}
use counted.Analytics.Funnel.{
  FunnelStep, FunnelResult, first_rise, later, last_count, later_results, summarize,
}

module _ {R : Type 0} (number : ℕ → R) (ratio : ℕ → ℕ → R) where
  later_results-sum :
      (steps : List FunnelStep) (index first previous : ℕ) (counts : List ℕ)
      → first_rise index previous counts ≡ none
      → sum (λ s. s.dropped_off) (later_results number ratio steps index first previous counts)
          + last_count previous counts
        ≡ previous
  later_results-sum steps index first previous [] h = omega arith
  later_results-sum steps index first previous (reached ∷ counts) h =
      ground (arith, later_results-sum (later steps) (suc index) first reached counts)

  -- The subjects that a summary reports as dropped off, over all of its steps, and those that reached
  -- the last step are together the ones of the first step.
  pub summarize_conserves :
      (steps : List FunnelStep) (first : ℕ) (counts : List ℕ) (r : FunnelResult R)
      → summarize number ratio steps (first ∷ counts) ≡ ok r
      → sum (λ s. s.dropped_off) r.steps + last_count first counts ≡ first
  unfolding summarize
  summarize_conserves steps first counts r h =
      ground (arith, later_results-sum (later steps) 1 first first counts)
