-- ===== src/Sdk/Visit.antt =====
-- packages/sdk-js/src/visit.ts: the visit of a client, which rolls over once it has been idle too long.
-- How an id is minted from the time is an argument, with whatever chance it draws on.
pub mod Laws
use counted.Base.{
  Bool, true, false, not, ◌&&◌, ◌||◌, Option, none, some, String, if◌then◌else◌, ◌*◌,
}
use counted.Base.Int.{pos, ltb_ℤ, ◌-ℤ◌}
use counted.Kernel.Instant.{Instant, Duration, between}

pub record Visit : Type 0 where
  pub id : Option String
  pub last_activity : Instant
  pub idle : Duration

-- What `current` and `restart` return, with the visit that they leave.
pub record Reported : Type 0 where
  pub reported : String
  pub visit : Visit

abbrev pub default_idle : Duration
default_idle = pos (30 * 60 * 1000)

abbrev pub idle_or_default : Option Duration → Duration
idle_or_default none = default_idle
idle_or_default (some idle) = idle

-- The constructor, with the id and the idle time of its options.
unfoldable pub new_visit : Option String → Option Duration → Instant → Visit
new_visit none idle now = record { id = none; last_activity = pos 0; idle = idle_or_default idle }
new_visit (some id) idle now = record {
  id = some id;
  last_activity = now;
  idle = idle_or_default idle;
}

unfoldable pub has_expired : Visit → Instant → Bool
unfolding between
has_expired v now = ltb_ℤ (pos 0) v.idle && ltb_ℤ v.idle (between v.last_activity now)

module _ (mint : Instant → String) where
  abbrev pub reporting : String → Visit → Instant → Reported
  reporting id v now = record {
    reported = id;
    visit = record v { id = some id; last_activity = now };
  }

  unfoldable pub current : Visit → Instant → Reported
  unfolding has_expired
  current v now = elim v.id [
    | none ↦ reporting (mint now) v now
    | some id ↦ if has_expired v now then reporting (mint now) v now else reporting id v now
  ]

  -- The clock is read twice, for the id and for the activity.
  unfoldable pub restart : Visit → Instant → Instant → Reported
  restart v minted now = reporting (mint minted) v now
