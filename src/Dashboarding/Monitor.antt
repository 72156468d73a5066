-- ===== src/Dashboarding/Monitor.antt =====
-- packages/dashboarding/domain/src/monitor.ts: a standing threshold over an analysis.
pub mod Invariant
pub mod Runs
use counted.Base.{
  ℕ, Bool, true, false, not, List, [], ◌∷◌, String, Option, none, some, ◌==◌, text_equality,
  is_empty, trim, if◌then◌else◌,
}
use counted.Kernel.Result.{Result, ok, err}
use counted.Kernel.Instant.{Instant, Duration, hours, between, is_shorter, is_negative}
use counted.Dashboarding.Threshold.{Threshold, is_breached}

pub data Channel : Type 0 where
  email webhook : String → Channel

pub data MonitorState : Type 0 where
  healthy breaching : MonitorState

abbrev pub default_cooldown : Duration
default_cooldown = hours 1

-- The state `ok` is spelled `healthy`.
pub record Monitor (A V : Type 0) : Type 0 where
  pub id : String
  pub workspace : String
  pub project : String
  pub name : String
  pub analysis : A
  pub threshold : Threshold V
  pub cooldown : Duration
  pub channels : List Channel
  pub enabled : Bool
  pub state : MonitorState
  pub last_notified_at : Option Instant
  pub last_value : Option V
  pub last_attempt_at : Option Instant
  pub last_measured_at : Option Instant
  pub evaluation_error : Option String
  pub pending_deliveries : ℕ
  pub failed_deliveries : ℕ
  pub delivery_error : Option String
  pub last_delivered_at : Option Instant

pub data MonitorError : Type 0 where
  name_required name_unchanged negative_cooldown already_enabled already_disabled : MonitorError

pub data MonitorEvent (V : Type 0) : Type 0 where
  monitor_created : String → String → String → String → Instant → MonitorEvent V
  monitor_fired : String → String → V → Threshold V → Bool → Instant → MonitorEvent V
  monitor_recovered : String → String → V → Instant → MonitorEvent V
  monitor_renamed : String → String → Instant → MonitorEvent V
  monitor_retargeted monitor_reconfigured monitor_enabled monitor_disabled :
      String → Instant → MonitorEvent V

pub data Silence : Type 0 where
  is_disabled within_threshold cooling_down : Silence

pub data MonitorDecision (V : Type 0) : Type 0 where
  fire : V → Threshold V → Bool → MonitorDecision V
  recover : V → MonitorDecision V
  silent : Silence → V → MonitorDecision V

pub record MonitorApplied (A V : Type 0) : Type 0 where
  pub monitor : Monitor A V
  pub events : List (MonitorEvent V)

abbrev pub Outcome : Type 0 → Type 0 → Type 0
Outcome A V = Result (MonitorApplied A V) MonitorError

pub record MonitorSettings : Type 0 where
  pub cooldown : Option Duration
  pub channels : Option (List Channel)

-- `a ?? b`
abbrev pub or_else {ℓ} : {A : Type ℓ} → Option A → A → A
or_else none b = b
or_else (some a) b = a

-- `since !== null && elapsed < cooldown`
abbrev is_cooling : Option Instant → Duration → Instant → Bool
is_cooling none cooldown now = false
is_cooling (some since) cooldown now = is_shorter (between since now) cooldown

abbrev decide_within : {V : Type 0} → MonitorState → V → MonitorDecision V
decide_within breaching observed = recover observed
decide_within healthy observed = silent within_threshold observed

module _ {A V : Type 0} where
  unfoldable pub create :
      String → String → String → String → A → Threshold V → Instant → MonitorSettings → Outcome A V
  create id workspace project name analysis threshold at settings =
      if is_empty (trim name)
      then err name_required
      else if is_negative (or_else settings.cooldown default_cooldown)
      then err negative_cooldown
      else ok (record {
        monitor = record {
          id = id;
          workspace = workspace;
          project = project;
          name = trim name;
          analysis = analysis;
          threshold = threshold;
          cooldown = or_else settings.cooldown default_cooldown;
          channels = or_else settings.channels [];
          enabled = true;
          state = healthy;
          last_notified_at = none;
          last_value = none;
          last_attempt_at = none;
          last_measured_at = none;
          evaluation_error = none;
          pending_deliveries = 0;
          failed_deliveries = 0;
          delivery_error = none;
          last_delivered_at = none;
        };
        events = monitor_created id workspace project (trim name) at ∷ [];
      })

  unfoldable pub measurement_unavailable : Monitor A V → String → Instant → Monitor A V
  measurement_unavailable m detail at = record m {
    last_attempt_at = some at;
    evaluation_error = some detail;
  }

  abbrev decide_breached : Monitor A V → MonitorState → V → Instant → MonitorDecision V
  decide_breached m healthy observed now = fire observed m.threshold true
  decide_breached m breaching observed now =
      if is_cooling m.last_notified_at m.cooldown now
      then silent cooling_down observed
      else fire observed m.threshold false

  unfoldable pub decide : (V → V → Bool) → Monitor A V → V → Instant → MonitorDecision V
  unfolding is_breached
  decide lt m observed now =
      if not m.enabled
      then silent is_disabled observed
      else if is_breached lt m.threshold observed
      then decide_breached m m.state observed now
      else decide_within m.state observed

  unfoldable pub apply : Monitor A V → MonitorDecision V → Instant → MonitorApplied A V
  apply m (fire observed threshold entering) now = record {
    monitor = record m {
      last_attempt_at = some now;
      last_measured_at = some now;
      evaluation_error = none;
      state = breaching;
      last_notified_at = some now;
      last_value = some observed;
    };
    events = monitor_fired m.id m.project observed m.threshold entering now ∷ [];
  }
  apply m (recover observed) now = record {
    monitor = record m {
      last_attempt_at = some now;
      last_measured_at = some now;
      evaluation_error = none;
      state = healthy;
      last_value = some observed;
    };
    events = monitor_recovered m.id m.project observed now ∷ [];
  }
  apply m (silent reason observed) now = record {
    monitor = record m {
      last_attempt_at = some now;
      last_measured_at = some now;
      evaluation_error = none;
      last_value = some observed;
    };
    events = [];
  }

  unfoldable pub rename : Monitor A V → String → Instant → Outcome A V
  rename m name at =
      if is_empty (trim name)
      then err name_required
      else if trim name == m.name
      then err name_unchanged
      else ok (record {
        monitor = record m { name = trim name };
        events = monitor_renamed m.id (trim name) at ∷ [];
      })

  unfoldable pub retarget : Monitor A V → A → Threshold V → Instant → Outcome A V
  retarget m analysis threshold at = ok (record {
    monitor = record m {
      analysis = analysis;
      threshold = threshold;
      state = healthy;
      last_notified_at = none;
      last_value = none;
      last_attempt_at = none;
      last_measured_at = none;
      evaluation_error = none;
    };
    events = monitor_retargeted m.id at ∷ [];
  })

  unfoldable pub reconfigure : Monitor A V → MonitorSettings → Instant → Outcome A V
  reconfigure m settings at =
      if is_negative (or_else settings.cooldown m.cooldown)
      then err negative_cooldown
      else ok (record {
        monitor = record m {
          cooldown = or_else settings.cooldown m.cooldown;
          channels = or_else settings.channels m.channels;
        };
        events = monitor_reconfigured m.id at ∷ [];
      })

  unfoldable pub enable : Monitor A V → Instant → Outcome A V
  enable m at =
      if m.enabled
      then err already_enabled
      else ok (record {
        monitor = record m {
          enabled = true;
          last_notified_at = none;
          last_value = none;
          last_attempt_at = none;
          last_measured_at = none;
          evaluation_error = none;
        };
        events = monitor_enabled m.id at ∷ [];
      })

  unfoldable pub disable : Monitor A V → Instant → Outcome A V
  disable m at =
      if not m.enabled
      then err already_disabled
      else ok (record {
        monitor = record m { enabled = false; state = healthy };
        events = monitor_disabled m.id at ∷ [];
      })

  -- `evaluateMonitor` of packages/dashboarding/app/src/monitors.ts: the decision is applied at the
  -- instant that it was made at.
  unfoldable pub evaluate : (V → V → Bool) → Monitor A V → V → Instant → MonitorApplied A V
  unfolding decide apply
  evaluate lt m observed now = apply m (decide lt m observed now) now
