-- ===== src/Tenancy/Quota.antt =====
-- packages/tenancy/domain/src/quota.ts: whether a workspace may ingest more events.
-- A ratio is kept as the fraction that the source divides out; `ratio < 1.3` is then
-- `10 * used < 13 * limit`, which the rounded quotient agrees with for limits below 10 ^ 14.
pub mod Laws
use counted.Base.{ℕ, ◌*◌, Bool, true, false, Option, none, some, ltb, nat_beq, if◌then◌else◌}
use counted.Tenancy.Entitlement.{Entitlement}

pub data Ratio : Type 0 where
  infinity : Ratio
  quotient : ℕ → ℕ → Ratio

-- overage_multiple, as a fraction.
abbrev pub overage_multiple : Ratio
overage_multiple = quotient 13 10

abbrev pub ratio_lt : Ratio → Ratio → Bool
ratio_lt infinity r = false
ratio_lt (quotient a b) infinity = true
ratio_lt (quotient a b) (quotient c d) = ltb (a * d) (c * b)

pub data QuotaDecision : Type 0 where
  ok : ℕ → Option ℕ → QuotaDecision
  overage : ℕ → ℕ → Ratio → QuotaDecision
  rejected : ℕ → ℕ → Ratio → QuotaDecision

-- The decision under a limit that is not `null`.
abbrev decide_limited : ℕ → ℕ → QuotaDecision
decide_limited limit used =
    if ltb used limit
    then ok used (some limit)
    else let ratio = if nat_beq limit 0 then infinity else quotient used limit in
      if ratio_lt ratio overage_multiple
      then overage used limit ratio
      else rejected used limit ratio

abbrev decide_under : Option ℕ → ℕ → QuotaDecision
decide_under none used = ok used none
decide_under (some limit) used = decide_limited limit used

unfoldable pub decide : Entitlement → ℕ → QuotaDecision
decide entitlement used = decide_under entitlement.limits.events_per_month used

unfoldable pub accepts : QuotaDecision → Bool
accepts (rejected used limit ratio) = false
accepts _ = true

unfoldable pub needs_attention : QuotaDecision → Bool
needs_attention (ok used limit) = false
needs_attention _ = true

unfoldable pub utilisation : QuotaDecision → Option Ratio
utilisation (ok used none) = none
utilisation (ok used (some limit)) = if nat_beq limit 0 then none else some (quotient used limit)
utilisation (overage used limit ratio) = some ratio
utilisation (rejected used limit ratio) = some ratio
