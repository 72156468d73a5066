-- ===== src/Tenancy/Quota/Laws.antt =====
-- Where the three decisions lie.
use counted.Base.{ℕ, ◌*◌, ◌≤◌, ◌<◌, ◌↔◌, ◌≡◌, true, some, arith}
use counted.Tenancy.Entitlement.{Entitlement}
use counted.Tenancy.Quota.{decide, accepts, needs_attention}

-- Under a limit, events are stored exactly while usage is below 130 per cent of it, and the
-- customer is told exactly from the limit on.
pub accepts_iff :
    (e : Entitlement) (used limit : ℕ)
    → e.limits.events_per_month ≡ some limit
    → ((accepts (decide e used) ≡ true) ↔ (10 * used < 13 * limit))
      × ((needs_attention (decide e used) ≡ true) ↔ (limit ≤ used))
unfolding decide accepts needs_attention
accepts_iff e used limit h = rw h (ground arith)

-- Usage that is stored stays stored at every lower usage, with or without a limit.
pub accepts_mono :
    (e : Entitlement) (used less : ℕ)
    → less ≤ used
    → accepts (decide e used) ≡ true
    → accepts (decide e less) ≡ true
unfolding decide accepts
accepts_mono e used less h k = ground arith
