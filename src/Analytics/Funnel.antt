-- ===== src/Analytics/Funnel.antt =====
-- packages/analytics/domain/src/funnel.ts: what the counts of a funnel's steps say.
-- The predicate of a step takes no part in this. The texts of labels and details are kept as what
-- they are formatted from. The result of a division is a floating-point number, so its type and the
-- division are parameters.
pub mod Losses
pub mod Worst
use counted.Base.{
  ℕ, zero, suc, ◌-◌, Bool, true, not, ◌&&◌, List, [], ◌∷◌, String, Option, none, some, length,
  nat_beq, ltb, if◌then◌else◌,
}
use counted.Kernel.Result.{Result, ok, err}

pub record FunnelStep : Type 0 where
  pub label : Option String
  pub events : List String

-- A label of its own, the step's events, or the number of the step.
pub data Label : Type 0 where
  given : String → Label
  any_of : List String → Label
  numbered : ℕ → Label

pub data FunnelSummaryError : Type 0 where
  count_mismatch : (counts steps : ℕ) → FunnelSummaryError
  non_monotonic_counts : (step here previous : ℕ) → FunnelSummaryError

pub record FunnelStepResult (R : Type 0) : Type 0 where
  pub label : Label
  pub reached : ℕ
  pub rate : R
  pub cumulative_rate : R
  pub dropped_off : ℕ

pub record FunnelResult (R : Type 0) : Type 0 where
  pub steps : List (FunnelStepResult R)
  pub overall_rate : R

abbrev events_label : List String → ℕ → Label
events_label [] index = numbered (suc index)
events_label (event ∷ events) index = any_of (event ∷ events)

abbrev pub label_of : FunnelStep → ℕ → Label
label_of s index = elim s.label [ none ↦ events_label s.events index | some label ↦ given label ]

-- `f.steps[i]` past the first `i` steps.
abbrev pub label_at : List FunnelStep → ℕ → Label
label_at [] index = numbered (suc index)
label_at (s ∷ steps) index = label_of s index

abbrev pub later : List FunnelStep → List FunnelStep
later [] = []
later (s ∷ steps) = steps

-- The first step that more subjects reached than the step before it, the one with this number
-- being next.
abbrev pub first_rise : ℕ → ℕ → List ℕ → Option FunnelSummaryError
first_rise index previous [] = none
first_rise index previous (here ∷ counts) =
    if ltb previous here
    then some (non_monotonic_counts index here previous)
    else first_rise (suc index) here counts

abbrev pub rise : List ℕ → Option FunnelSummaryError
rise [] = none
rise (first ∷ counts) = first_rise 1 first counts

-- `counts[counts.length - 1]`
abbrev pub last_count : ℕ → List ℕ → ℕ
last_count last [] = last
last_count last (count ∷ counts) = last_count count counts

module _ {R : Type 0} (number : ℕ → R) (ratio : ℕ → ℕ → R) where
  abbrev pub percent : ℕ → ℕ → R
  percent part zero = number 0
  percent part (suc whole) = ratio part (suc whole)

  -- The results past the first step.
  abbrev pub later_results : List FunnelStep → ℕ → ℕ → ℕ → List ℕ → List (FunnelStepResult R)
  later_results steps index first previous [] = []
  later_results steps index first previous (reached ∷ counts) =
      record {
        label = label_at steps index;
        reached = reached;
        rate = percent reached previous;
        cumulative_rate = percent reached first;
        dropped_off = previous - reached;
      }
      ∷ later_results (later steps) (suc index) first reached counts

  abbrev pub result : List FunnelStep → List ℕ → FunnelResult R
  result steps [] = record { steps = []; overall_rate = percent 0 0 }
  result steps (first ∷ counts) = record {
    steps =
        record {
          label = label_at steps 0;
          reached = first;
          rate = number 100;
          cumulative_rate = percent first first;
          dropped_off = 0;
        }
        ∷ later_results (later steps) 1 first first counts;
    overall_rate = percent (last_count first counts) first;
  }

  unfoldable pub summarize : List FunnelStep → List ℕ → Result (FunnelResult R) FunnelSummaryError
  summarize steps counts =
      if not (nat_beq (length counts) (length steps))
      then err (count_mismatch (length counts) (length steps))
      else elim (rise counts) [ none ↦ ok (result steps counts) | some error ↦ err error ]

module _ {R : Type 0} where
  abbrev pub is_worse : FunnelStepResult R → Option (FunnelStepResult R) → Bool
  is_worse s none = true
  is_worse s (some worst) = ltb worst.dropped_off s.dropped_off

  abbrev pub worst_of :
      Option (FunnelStepResult R) → List (FunnelStepResult R) → Option (FunnelStepResult R)
  worst_of worst [] = worst
  worst_of worst (s ∷ steps) =
      worst_of (if ltb 0 s.dropped_off && is_worse s worst then some s else worst) steps

  unfoldable pub biggest_drop_off : FunnelResult R → Option (FunnelStepResult R)
  biggest_drop_off r = worst_of none r.steps
