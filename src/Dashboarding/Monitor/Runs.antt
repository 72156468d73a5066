-- ===== src/Dashboarding/Monitor/Runs.antt =====
-- What an operator hears over a run of evaluations.
use counted.Base.{
  ℕ, suc, ◌+◌, Bool, true, false, not, List, [], ◌∷◌, ◌++◌, Option, none, some, ◌≡◌, refl, arith,
  ◌&&◌,
}
use counted.Kernel.Instant.{Instant, Duration, between, is_shorter}
use counted.Dashboarding.Monitor.{
  Monitor, MonitorApplied, MonitorState, healthy, breaching, MonitorEvent, monitor_fired,
  monitor_recovered, evaluate,
}
use counted.Dashboarding.Monitor.Invariant.{IsSound, evaluate-IsSound}

abbrev rests : Option Instant → Duration → Instant → Bool
rests none cooldown at = false
rests (some since) cooldown at = not (is_shorter (between since at) cooldown)

module _ {V : Type 0} where
  -- How often the events enter a breach, and how often they leave one.
  abbrev pub entries : List (MonitorEvent V) → ℕ
  entries [] = 0
  entries (monitor_fired id project observed threshold true at ∷ es) = suc (entries es)
  entries (e ∷ es) = entries es

  abbrev pub recoveries : List (MonitorEvent V) → ℕ
  recoveries [] = 0
  recoveries (monitor_recovered id project observed at ∷ es) = suc (recoveries es)
  recoveries (e ∷ es) = recoveries es

  -- Each announcement that does not enter a breach comes at least the cooldown after the last one.
  abbrev pub spaced : Duration → Option Instant → List (MonitorEvent V) → Bool
  spaced cooldown last [] = true
  spaced cooldown last (monitor_fired id project observed threshold true at ∷ es) =
      spaced cooldown (some at) es
  spaced cooldown last (monitor_fired id project observed threshold false at ∷ es) =
      rests last cooldown at && spaced cooldown (some at) es
  spaced cooldown last (e ∷ es) = spaced cooldown last es

abbrev pub in_breach : MonitorState → ℕ
in_breach healthy = 0
in_breach breaching = 1

module _ {A V : Type 0} (lt : V → V → Bool) where
  -- The worker evaluates a monitor again and again.
  unfoldable pub run : Monitor A V → List (V × Instant) → MonitorApplied A V
  run m [] = record { monitor = m; events = [] }
  run m ((observed, now) ∷ rest) =
      let first = evaluate lt m observed now in
      let later = run first.monitor rest in
      record { monitor = later.monitor; events = first.events ++ later.events }

  evaluate_balance :
      (m : Monitor A V) (observed : V) (now : Instant) (es : List (MonitorEvent V)) (n : ℕ)
      → in_breach (evaluate lt m observed now).monitor.state + entries es ≡ recoveries es + n
      → in_breach m.state + entries ((evaluate lt m observed now).events ++ es)
        ≡ recoveries ((evaluate lt m observed now).events ++ es) + n
  unfolding evaluate
  evaluate_balance m observed now es n h = ground arith

  -- Over any run, breaches that are announced as entered and recoveries take turns: counted with
  -- the breach that the run began in, the first are as many as the second and the breach it ends in.
  pub run_balance :
      (m : Monitor A V) (observations : List (V × Instant))
      → in_breach m.state + entries (run m observations).events
        ≡ recoveries (run m observations).events + in_breach (run m observations).monitor.state
  unfolding run
  run_balance m [] = omega arith
  run_balance m ((observed, now) ∷ rest) =
      evaluate_balance m observed now _ _ (run_balance (evaluate lt m observed now).monitor rest)

  evaluate-spaced :
      (m : Monitor A V) (observed : V) (now : Instant) (es : List (MonitorEvent V))
      → IsSound m
      → spaced
          (evaluate lt m observed now).monitor.cooldown
          (evaluate lt m observed now).monitor.last_notified_at
          es
        ≡ true
      → spaced m.cooldown m.last_notified_at ((evaluate lt m observed now).events ++ es) ≡ true
  unfolding evaluate
  evaluate-spaced m observed now es v h = ground arith

  -- Over any run of a valid monitor, every announcement that does not enter a breach comes at least
  -- the cooldown after the announcement before it.
  pub run-spaced :
      (m : Monitor A V) (observations : List (V × Instant))
      → IsSound m
      → spaced m.cooldown m.last_notified_at (run m observations).events ≡ true
  unfolding run
  run-spaced m [] v = refl
  run-spaced m ((observed, now) ∷ rest) v =
      let valid = evaluate-IsSound lt m observed now v in
      let later = run-spaced (evaluate lt m observed now).monitor rest valid in
      evaluate-spaced m observed now _ v later
