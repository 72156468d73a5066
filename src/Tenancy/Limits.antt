-- ===== src/Tenancy/Limits.antt =====
-- packages/tenancy/domain/src/limits.ts: the slots a workspace is entitled to.
use counted.Base.{
  ℕ, Bool, ◌&&◌, Option, none, some, leb, ltb, if◌then◌else◌, option_beq, nat_equality,
}

pub record WorkspaceLimits : Type 0 where
  pub max_projects : Option ℕ
  pub max_seats : Option ℕ

unfoldable pub equal : WorkspaceLimits → WorkspaceLimits → Bool
equal a b = option_beq a.max_projects b.max_projects && option_beq a.max_seats b.max_seats

-- The limit that one more slot would breach.
unfoldable pub breached : ℕ → Option ℕ → Option ℕ
breached count none = none
breached count (some limit) = if leb limit count then some limit else none

-- The limit that the count is already past.
unfoldable pub over : ℕ → Option ℕ → Option ℕ
over count none = none
over count (some limit) = if ltb limit count then some limit else none
