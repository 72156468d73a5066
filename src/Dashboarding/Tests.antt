-- ===== src/Dashboarding/Tests.antt =====
-- A monitor of a count that must stay at or below 10, told of a breach once an hour at most.
use counted.Base.{ℕ, true, false, List, [], ◌∷◌, String, none, ◌≡◌, refl, ltb, trim}
use counted.Base.Int.{pos, ◌-ℤ◌}
use counted.Kernel.Result.{ok}
use counted.Kernel.Instant.{Instant, hours, between}
use counted.Dashboarding.Threshold.{Threshold, above}
use counted.Dashboarding.Monitor.{
  Monitor, MonitorApplied, MonitorSettings, monitor_created, monitor_fired, monitor_recovered,
  healthy, create, evaluate,
}
use counted.Dashboarding.Monitor.Invariant.{IsSound, evaluates, here, next, Reach-IsSound}
use counted.Dashboarding.Monitor.Runs.{run, spaced, run-spaced}

abbrev limit : Threshold ℕ
limit = above 10

abbrev defaults : MonitorSettings
defaults = record { cooldown = none; channels = none }

abbrev watch : Monitor String ℕ
watch = record {
  id = "mon_1";
  workspace = "ws_1";
  project = "prj_1";
  name = "Errors";
  analysis = "count";
  threshold = limit;
  cooldown = hours 1;
  channels = [];
  enabled = true;
  state = healthy;
  last_notified_at = none;
  last_value = none;
  last_attempt_at = none;
  last_measured_at = none;
  evaluation_error = none;
  pending_deliveries = 0;
  failed_deliveries = 0;
  delivery_error = none;
  last_delivered_at = none;
}

abbrev created : MonitorApplied String ℕ
created = record {
  monitor = watch;
  events = monitor_created "mon_1" "ws_1" "prj_1" "Errors" (pos 0) ∷ [];
}

create_runs : create "mon_1" "ws_1" "prj_1" " Errors " "count" limit (pos 0) defaults ≡ ok created
unfolding create trim
create_runs = refl

-- A breach, one within the cooldown, one after it, and a value that is fine again.
abbrev observations : List (ℕ × Instant)
observations = (12, pos 0) ∷ (13, pos 60000) ∷ (14, hours 2) ∷ (3, hours 3) ∷ []

watch_runs :
    (run ltb watch observations).events
    ≡ monitor_fired "mon_1" "prj_1" 12 limit true (pos 0)
      ∷ monitor_fired "mon_1" "prj_1" 14 limit false (hours 2)
      ∷ monitor_recovered "mon_1" "prj_1" 3 (hours 3)
      ∷ []
unfolding run evaluate between ◌-ℤ◌
watch_runs = refl

Reach-IsSound_example : IsSound (evaluate ltb watch 12 (pos 0)).monitor
Reach-IsSound_example =
    Reach-IsSound ltb "mon_1" "ws_1" "prj_1" " Errors " "count" limit (pos 0) defaults created
      create_runs (next here (evaluates watch 12 (pos 0)))

watch-IsSound : IsSound watch
watch-IsSound =
    Reach-IsSound ltb "mon_1" "ws_1" "prj_1" " Errors " "count" limit (pos 0) defaults created
      create_runs here

run-spaced_example : spaced (hours 1) none (run ltb watch observations).events ≡ true
run-spaced_example = run-spaced ltb watch observations watch-IsSound
