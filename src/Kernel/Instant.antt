-- ===== src/Kernel/Instant.antt =====
-- packages/kernel/src/instant.ts and duration.ts. Both are whole milliseconds, and a sum of two
-- stays below 2 ^ 53 in magnitude, where the source's numbers are exact: they are integers here.
use counted.Base.{ℕ, Bool, ◌*◌}
use counted.Base.Int.{ℤ, pos, ◌+ℤ◌, ◌-ℤ◌, ltb_ℤ}

abbrev pub Duration : Type 0
Duration = ℤ

abbrev pub Instant : Type 0
Instant = ℤ

-- `Duration.hours` and `Duration.days`, of a count that is not negative.
abbrev pub hours : ℕ → Duration
hours n = pos (n * 3600000)

abbrev pub days : ℕ → Duration
days n = pos (n * 86400000)

-- `Duration.compare(a, b) < 0`
abbrev pub is_shorter : Duration → Duration → Bool
is_shorter a b = ltb_ℤ a b

abbrev pub is_negative : Duration → Bool
is_negative d = ltb_ℤ d (pos 0)

unfoldable pub plus : Instant → Duration → Instant
unfolding ◌+ℤ◌
plus i d = i +ℤ d

unfoldable pub minus : Instant → Duration → Instant
unfolding ◌-ℤ◌
minus i d = i -ℤ d

-- From `a` to `b`; negative when `b` precedes `a`.
unfoldable pub between : Instant → Instant → Duration
unfolding ◌-ℤ◌
between a b = b -ℤ a

abbrev pub is_before : Instant → Instant → Bool
is_before a b = ltb_ℤ a b

abbrev pub is_after : Instant → Instant → Bool
is_after a b = ltb_ℤ b a
