-- ===== src/Analytics/Tests.antt =====
-- A funnel of three steps.
use counted.Base.{ℕ, ◌*◌, ◌/◌, ◌+◌, ◌≡◌, refl, List, [], ◌∷◌, none, some, sum}
use counted.Kernel.Result.{ok}
use counted.Analytics.Funnel.{
  FunnelStep, FunnelResult, result, summarize, last_count, biggest_drop_off,
}
use counted.Analytics.Funnel.Worst.{loss}
use counted.Analytics.Funnel.Losses.{summarize_conserves}

abbrev whole_percent : ℕ → ℕ → ℕ
whole_percent part whole = part * 100 / whole

abbrev steps : List FunnelStep
steps =
    record { label = none; events = "view" ∷ [] }
    ∷ record { label = none; events = "cart" ∷ [] }
    ∷ record { label = some "bought"; events = "buy" ∷ [] }
    ∷ []

abbrev summary : FunnelResult ℕ
summary = result (λ n. n) whole_percent steps (100 ∷ 40 ∷ 30 ∷ [])

worst_runs : loss (biggest_drop_off summary) ≡ 60
unfolding biggest_drop_off
worst_runs = refl

summary_runs : summarize (λ n. n) whole_percent steps (100 ∷ 40 ∷ 30 ∷ []) ≡ ok summary
unfolding summarize
summary_runs = refl

summarize_conserves_example :
    sum (λ s. s.dropped_off) summary.steps + last_count 100 (40 ∷ 30 ∷ []) ≡ 100
summarize_conserves_example =
    summarize_conserves (λ n. n) whole_percent steps 100 (40 ∷ 30 ∷ []) summary summary_runs
